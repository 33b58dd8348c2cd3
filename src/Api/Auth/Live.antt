-- ===== src/Api/Auth/Live.antt =====
-- How long a session of backend/src/api/auth.rs lasts, and which texts are accepted.
use denis.Api.Auth.Hex.{sha256_hex}
use denis.Api.Auth.Rows.{Accounts, Argon2}
use denis.Api.Auth.{
  Auth, Now, Sessions, session_get, session_remove, session_insert, validate, validate_token,
}
use denis.Base.Int.{ℤ}
use denis.Base.{
  ℕ, Bool, true, false, Option, none, some, List, [], ◌∷◌, ok, ltb, if◌then◌else◌, ◌≡◌, ◌↔◌, ◌⊎◌,
  inl, inr, refl, ap, ◌∙◌, arith, Bool-cases, Option-cases, Result-cases,
}
use denis.Text.{Str, str_eq, str_eq_iff}

pub session_get-remove_other :
    (k j : Str) (m : Sessions)
    → str_eq k j ≡ false
    → session_get j (session_remove k m) ≡ session_get j m
unfolding session_get session_remove
session_get-remove_other k j [] h = refl
session_get-remove_other k j ((t, e) ∷ m) h =
    ground (arith, str_eq_iff t k, str_eq_iff t j, str_eq_iff k j, session_get-remove_other k j m h)

pub session_get-remove_self : (k : Str) (m : Sessions) → session_get k (session_remove k m) ≡ none
unfolding session_get session_remove
session_get-remove_self k [] = refl
session_get-remove_self k ((t, e) ∷ m) = ground (arith, session_get-remove_self k m)

pub session_get-insert :
    (k j : Str) (e : ℕ) (m : Sessions)
    → session_get j (session_insert k e m) ≡ (if str_eq k j then some e else session_get j m)
unfolding session_insert
session_get-insert k j e m = elim (Bool-cases (str_eq k j)) [
  | inl same ↦ unfold session_get in rw same refl
  | inr other ↦ unfold session_get in rw other (session_get-remove_other k j m other)
]

-- A session that has not run out.
abbrev pub live : ℕ → Option ℕ → Bool
live now none = false
live now (some expiry) = ltb now expiry

-- What is kept of an entry that is looked at.
abbrev pub keep_live : ℕ → Option ℕ → Option ℕ
keep_live now none = none
keep_live now (some expiry) = if ltb now expiry then some expiry else none

module _ (db : Accounts) (argon : Argon2) (sha256 : Str → List ℕ) where
  abbrev State : Type 0
  State = Auth db.Pool

  -- A row of `api_tokens` for the text, which has not run out.
  abbrev pub HasRow : Now → Str → State → Type 0
  HasRow now token s =
      (id : ℤ) × (db.find_token (sha256_hex sha256 token) now.unix s.pool ≡ ok (some id))

  pub validate-live :
      (now : Now) (token : Str) (s : State)
      → live now.instant (session_get token s.sessions) ≡ true
      → validate db argon sha256 now token s ≡ (true, s)
  unfolding validate
  validate-live now token s h = elim (Option-cases (session_get token s.sessions)) [
    | inl e ↦ absurd (cc (rw e at h))
    | inr (expiry, e) ↦ rw (validate, e, rw e at h) refl
  ]

  -- The state in which the tokens are asked, where no session is live.
  abbrev pub dropped : Str → Option ℕ → State → State
  dropped token none s = s
  dropped token (some expiry) s = record s { sessions = session_remove token s.sessions }

  pub validate-not_live :
      (now : Now) (token : Str) (s : State)
      → live now.instant (session_get token s.sessions) ≡ false
      → validate db argon sha256 now token s
        ≡ validate_token db argon sha256 now token (dropped token (session_get token s.sessions) s)
  unfolding validate
  validate-not_live now token s h = elim (Option-cases (session_get token s.sessions)) [
    | inl e ↦ rw (validate, e) refl
    | inr (expiry, e) ↦ rw (validate, e, rw e at h) refl
  ]

  pub dropped-pool : (token : Str) (o : Option ℕ) (s : State) → (dropped token o s).pool ≡ s.pool
  dropped-pool token none s = refl
  dropped-pool token (some expiry) s = refl

  -- The answer and the sessions of the second half.
  validate_token-row :
      (now : Now) (token : Str) (s : State) (id : ℤ)
      → db.find_token (sha256_hex sha256 token) now.unix s.pool ≡ ok (some id)
      → (validate_token db argon sha256 now token s).0 ≡ true
  unfolding validate_token
  validate_token-row now token s id e = rw (validate_token, e) refl

  validate_token-true :
      (now : Now) (token : Str) (s : State)
      → (validate_token db argon sha256 now token s).0 ≡ true
      → HasRow now token s
  unfolding validate_token
  validate_token-true now token s h =
      elim (Result-cases (db.find_token (sha256_hex sha256 token) now.unix s.pool)) [
        | inl (u, e) ↦ absurd (cc (rw (validate_token, e) at h))
        | inr (found, e) ↦ elim (Option-cases found) [
          | inl n ↦ absurd (cc (rw (validate_token, e, n) at h))
          | inr (id, y) ↦ (id, e ∙ ap ok y)
        ]
      ]

  pub validate_token-sessions :
      (now : Now) (token : Str) (s : State)
      → (validate_token db argon sha256 now token s).1.sessions ≡ s.sessions
  unfolding validate_token
  validate_token-sessions now token s =
      elim (Result-cases (db.find_token (sha256_hex sha256 token) now.unix s.pool)) [
        | inl (u, e) ↦ rw (validate_token, e) refl
        | inr (found, e) ↦ elim (Option-cases found) [
          | inl n ↦ rw (validate_token, e, n) refl
          | inr (id, y) ↦ rw (validate_token, e, y) refl
        ]
      ]

  -- A text is accepted exactly when it is a session that has not run out, or the query finds a row
  -- of `api_tokens` with its hash that has not run out.
  pub validate_iff :
      (now : Now) (token : Str) (s : State)
      → ((validate db argon sha256 now token s).0 ≡ true)
        ↔ ((live now.instant (session_get token s.sessions) ≡ true) ⊎ HasRow now token s)
  validate_iff now token s = (forth, back)
    where
      same : (dropped token (session_get token s.sessions) s).pool ≡ s.pool
      same = dropped-pool token (session_get token s.sessions) s

      forth :
          (validate db argon sha256 now token s).0 ≡ true
          → (live now.instant (session_get token s.sessions) ≡ true) ⊎ HasRow now token s
      forth h = elim (Bool-cases (live now.instant (session_get token s.sessions))) [
        | inl l ↦ inl l
        | inr n ↦
            let (id, e) =
              validate_token-true now token _ (rw (validate-not_live now token s n) at h) in
            inr (id, rw same at e)
      ]

      back :
          (live now.instant (session_get token s.sessions) ≡ true) ⊎ HasRow now token s
          → (validate db argon sha256 now token s).0 ≡ true
      back (inl l) = rw (validate-live now token s l) refl
      back (inr (id, e)) = elim (Bool-cases (live now.instant (session_get token s.sessions))) [
        | inl l ↦ rw (validate-live now token s l) refl
        | inr n ↦ rw (validate-not_live now token s n) (
            validate_token-row now token (dropped token (session_get token s.sessions) s) id
              (rw same e))
      ]
