-- ===== src/Api/Auth/Survive.antt =====
-- What ends a session of backend/src/api/auth.rs: its time, and nothing else.
use denis.Api.Auth.Hex.{random_token}
use denis.Api.Auth.Live.{
  live, keep_live, session_get-insert, session_get-remove_self, session_get-remove_other,
  validate_token-sessions, validate-live, validate-not_live, dropped,
}
use denis.Api.Auth.Rows.{Accounts, Argon2, Sqlx}
use denis.Api.Auth.Users.{Knows, login-session}
use denis.Api.Auth.{
  Auth, Now, session_ttl, session_get, verify, open_session, stored, affected, login, validate,
  create_user, set_password, delete_user, create_token, revoke_token,
}
use denis.Base.Int.{ℤ}
use denis.Base.{
  ℕ, ◌+◌, ◌*◌, ◌<◌, true, false, Option, none, some, List, [], ◌∷◌, ok, err, All, if◌then◌else◌,
  ◌≡◌, inl, inr, refl, ap, ◌∙◌, lt→ltb, Bool-cases, Result-cases,
}
use denis.Text.{Str, str_eq, str_eq_iff}

-- The calls that change the state, with what the generators yield for each.
pub data Call : Type 0 where
  log_in : List ℕ → Str → Str → Call
  check : Str → Call
  add_user : Str → Str → Str → Call
  change_password : Str → Str → Str → Call
  drop_user : Str → Call
  add_token : List ℕ → Str → Option ℤ → Call
  revoke : ℤ → Call

module _ (db : Accounts) (argon : Argon2) (sha256 : Str → List ℕ) where
  abbrev State : Type 0
  State = Auth db.Pool

  unfoldable pub perform : Now → Call → State → State
  perform now (log_in bytes user pass) s = (login db argon sha256 now bytes user pass s).1
  perform now (check token) s = (validate db argon sha256 now token s).1
  perform now (add_user salt user pass) s = (create_user db argon sha256 now salt user pass s).1
  perform now (change_password salt user pass) s = (set_password db argon sha256 salt user pass s).1
  perform now (drop_user user) s = (delete_user db argon sha256 user s).1
  perform now (add_token bytes name ttl) s = (create_token db argon sha256 now bytes name ttl s).1
  perform now (revoke id) s = (revoke_token db argon sha256 id s).1

  unfoldable pub perform_all : List (Now × Call) → State → State
  perform_all [] s = s
  perform_all ((now, call) ∷ calls) s = perform_all calls (perform now call s)

  -- A login does not draw this token again.
  abbrev pub DrawsOther : Str → Call → Type 0
  DrawsOther token (log_in bytes user pass) = str_eq (random_token bytes) token ≡ false
  DrawsOther token _ = Unit

  -- A call before the session's end, which does not draw its token.
  abbrev pub Within : Str → ℕ → Now × Call → Type 0
  Within token expiry (now, call) = (now.instant < expiry) × DrawsOther token call

  -- Looking at a text drops its session if that has run out, and touches no other.
  pub session_get-validate :
      (now : Now) (token k : Str) (s : State)
      → session_get k (validate db argon sha256 now token s).1.sessions ≡ (
          if str_eq token k
          then keep_live now.instant (session_get token s.sessions)
          else session_get k s.sessions)
  session_get-validate now token k s =
      elim (Bool-cases (live now.instant (session_get token s.sessions))) [
        | inl l ↦
            rw (validate-live db argon sha256 now token s l)
              (kept (session_get token s.sessions) refl l)
        | inr n ↦
            rw
              (
                validate-not_live db argon sha256 now token s n,
                validate_token-sessions db argon sha256 now token
                    (dropped db argon sha256 token (session_get token s.sessions) s),
              )
              (lost (session_get token s.sessions) refl n)
      ]
    where
      kept :
          (o : Option ℕ)
          → session_get token s.sessions ≡ o
          → live now.instant o ≡ true
          → session_get k s.sessions
            ≡ (if str_eq token k then keep_live now.instant o else session_get k s.sessions)
      kept none e l = absurd (cc l)
      kept (some expiry) e l = elim (Bool-cases (str_eq token k)) [
        | inr other ↦ rw other refl
        | inl same ↦ rw (same, l, ← (str_eq_iff token k).0 same) e
      ]

      lost :
          (o : Option ℕ)
          → session_get token s.sessions ≡ o
          → live now.instant o ≡ false
          → session_get k (dropped db argon sha256 token o s).sessions
            ≡ (if str_eq token k then keep_live now.instant o else session_get k s.sessions)
      lost none e n = elim (Bool-cases (str_eq token k)) [
        | inr other ↦ rw other refl
        | inl same ↦ rw (same, ← (str_eq_iff token k).0 same) e
      ]
      lost (some expiry) e n = elim (Bool-cases (str_eq token k)) [
        | inr other ↦ rw other (session_get-remove_other token k s.sessions other)
        | inl same ↦
            rw (same, n, ← (str_eq_iff token k).0 same) (session_get-remove_self token s.sessions)
      ]

  stored-sessions :
      {A : Type 0} (a : A) (s : State) (r : Sqlx db.Pool)
      → (stored db argon sha256 a s r).1.sessions ≡ s.sessions
  stored-sessions a s (ok pool) = refl
  stored-sessions a s (err e) = refl

  affected-sessions :
      (s : State) (r : Sqlx (ℕ × db.Pool)) → (affected db argon sha256 s r).1.sessions ≡ s.sessions
  affected-sessions s (ok (rows, pool)) = refl
  affected-sessions s (err e) = refl

  session_get-open :
      (now : Now) (bytes : List ℕ) (pass token : Str) (row : Option (ℤ × Str)) (s : State)
      → str_eq (random_token bytes) token ≡ false
      → session_get token (open_session db argon sha256 now bytes pass row s).1.sessions
        ≡ session_get token s.sessions
  session_get-open now bytes pass token none s other = refl
  session_get-open now bytes pass token (some (id, hash)) s other =
      elim (Bool-cases (verify argon pass hash)) [
        | inl good ↦ rw good (
            session_get-insert (random_token bytes) token (now.instant + session_ttl * 1000)
              s.sessions
            ∙ rw other refl)
        | inr bad ↦ rw bad refl
      ]

  session_get-login :
      (now : Now) (bytes : List ℕ) (user pass token : Str) (s : State)
      → str_eq (random_token bytes) token ≡ false
      → session_get token (login db argon sha256 now bytes user pass s).1.sessions
        ≡ session_get token s.sessions
  unfolding login
  session_get-login now bytes user pass token s other =
      elim (Result-cases (db.find_user user s.pool)) [
        | inl (u, e) ↦ rw (login, e) refl
        | inr (row, e) ↦ rw (login, e) (session_get-open now bytes pass token row s other)
      ]

  -- Looking at texts keeps every session that has not run out.
  kept_live :
      (now : Now) (text token : Str) (expiry : ℕ) (s : State)
      → session_get token s.sessions ≡ some expiry
      → now.instant < expiry
      → session_get token (validate db argon sha256 now text s).1.sessions ≡ some expiry
  kept_live now text token expiry s e soon =
      let ended = lt→ltb now.instant expiry soon in
      session_get-validate now text token s
      ∙ elim (Bool-cases (str_eq text token))
          as (λ _.
            (if str_eq text token
              then keep_live now.instant (session_get text s.sessions)
              else session_get token s.sessions)
            ≡ some expiry) [
              | inr other ↦ rw other e
              | inl same ↦ rw (same, (str_eq_iff text token).0 same, e, ended) refl
            ]

  perform-session :
      (now : Now) (call : Call) (token : Str) (expiry : ℕ) (s : State)
      → session_get token s.sessions ≡ some expiry
      → Within token expiry (now, call)
      → session_get token (perform now call s).sessions ≡ some expiry
  unfolding perform create_user set_password delete_user create_token revoke_token
  perform-session now (log_in bytes user pass) token expiry s e (soon, other) =
      session_get-login now bytes user pass token s other ∙ e
  perform-session now (check text) token expiry s e (soon, _) =
      kept_live now text token expiry s e soon
  perform-session now (add_user salt user pass) token expiry s e w =
      ap (session_get token) (stored-sessions tt s _) ∙ e
  perform-session now (change_password salt user pass) token expiry s e w =
      ap (session_get token) (affected-sessions s _) ∙ e
  perform-session now (drop_user user) token expiry s e w =
      ap (session_get token) (affected-sessions s _) ∙ e
  perform-session now (add_token bytes name ttl) token expiry s e w =
      ap (session_get token) (stored-sessions (random_token bytes) s _) ∙ e
  perform-session now (revoke id) token expiry s e w =
      ap (session_get token) (affected-sessions s _) ∙ e

  perform_all-session :
      (calls : List (Now × Call)) (token : Str) (expiry : ℕ) (s : State)
      → session_get token s.sessions ≡ some expiry
      → All (Within token expiry) calls
      → session_get token (perform_all calls s).sessions ≡ some expiry
  unfolding perform_all
  perform_all-session [] token expiry s e w = e
  perform_all-session ((now, call) ∷ calls) token expiry s e (w, ws) =
      perform_all-session calls token expiry (perform now call s)
        (perform-session now call token expiry s e w) ws

  -- A session is accepted until its time has come, whatever calls are made before then, also
  -- changes of its user's password and the deletion of its user, where no login draws its token
  -- again.
  pub validate-perform_all :
      (calls : List (Now × Call)) (now : Now) (token : Str) (expiry : ℕ) (s : State)
      → session_get token s.sessions ≡ some expiry
      → All (Within token expiry) calls
      → now.instant < expiry
      → validate db argon sha256 now token (perform_all calls s) ≡ (true, perform_all calls s)
  validate-perform_all calls now token expiry s e w soon =
      let still = perform_all-session calls token expiry s e w in
      validate-live db argon sha256 now token (perform_all calls s)
        (rw still (lt→ltb now.instant expiry soon))

  -- After a login of a known user the drawn token is accepted for a day, whatever calls are made
  -- in that time, also changes of the user's password and the deletion of the user, where no
  -- login draws the token again.
  pub login-validate :
      (calls : List (Now × Call)) (at now : Now) (bytes : List ℕ) (user pass : Str) (s : State)
      → Knows db argon sha256 user pass s
      → All (Within (random_token bytes) (at.instant + session_ttl * 1000)) calls
      → now.instant < at.instant + session_ttl * 1000
      → (validate db argon sha256 now
          (random_token bytes)
          (perform_all calls (login db argon sha256 at bytes user pass s).1)).0
        ≡ true
  login-validate calls at now bytes user pass s known within soon =
      rw
        (validate-perform_all calls now (random_token bytes) (at.instant + session_ttl * 1000)
          (login db argon sha256 at bytes user pass s).1
          (login-session db argon sha256 at bytes user pass s known) within soon)
        refl
