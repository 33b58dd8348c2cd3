-- ===== src/Api/Auth/Users.antt =====
-- Who can log in to backend/src/api/auth.rs.
use denis.Api.Auth.Hex.{random_token}
use denis.Api.Auth.Rows.{Accounts, AccountsSql, Argon2, Verifies}
use denis.Api.Auth.{
  Auth, Now, session_ttl, session_get, verify, hash_password, open_session, ensure_schema, new_auth,
  login,
}
use denis.Api.Auth.Live.{session_get-insert}
use denis.Base.Int.{ℤ}
use denis.Base.{
  ℕ, ◌+◌, ◌*◌, true, Option, none, some, List, [], ok, err, ◌≡◌, ◌↔◌, inl, inr, refl, ap, ◌∙◌,
  Bool-cases, Result-cases,
}
use denis.Text.{Str, codes, str_eq_refl}

module _ (argon : Argon2) (hashes : Verifies argon) where
  -- The password that a hash was made from is accepted.
  pub verify-hash_password :
      (salt password : Str) → verify argon password (hash_password argon salt password) ≡ true
  unfolding verify hash_password
  verify-hash_password salt password =
      let (phc, parsed, good) = hashes.check_hash salt password in rw (verify, parsed) good

module _ (db : Accounts) (argon : Argon2) (sha256 : Str → List ℕ) where
  login-row :
      (now : Now) (bytes : List ℕ) (user pass : Str) (s : Auth db.Pool) (row : Option (ℤ × Str))
      → db.find_user user s.pool ≡ ok row
      → login db argon sha256 now bytes user pass s
        ≡ open_session db argon sha256 now bytes pass row s
  unfolding login
  login-row now bytes user pass s row e = rw (login, e) refl

  login-err :
      (now : Now) (bytes : List ℕ) (user pass : Str) (s : Auth db.Pool) (u : Str)
      → db.find_user user s.pool ≡ err u
      → login db argon sha256 now bytes user pass s ≡ (none, s)
  unfolding login
  login-err now bytes user pass s u e = rw (login, e) refl

  opened :
      (now : Now) (bytes : List ℕ) (pass : Str) (id : ℤ) (hash : Str) (s : Auth db.Pool)
      → verify argon pass hash ≡ true
      → (open_session db argon sha256 now bytes pass (some (id, hash)) s).0
        ≡ some (random_token bytes, session_ttl)
  opened now bytes pass id hash s good = rw good refl

  -- The row of a user whose password is this one.
  abbrev pub Knows : Str → Str → Auth db.Pool → Type 0
  Knows user pass s =
      (id : ℤ) × (hash : Str) × (db.find_user user s.pool ≡ ok (some (id, hash)))
      × (verify argon pass hash ≡ true)

  -- A login succeeds exactly when the user's row is found and the password fits its hash.
  pub login_iff :
      (now : Now) (bytes : List ℕ) (user pass : Str) (s : Auth db.Pool)
      → ((login db argon sha256 now bytes user pass s).0 ≡ some (random_token bytes, session_ttl))
        ↔ Knows user pass s
  login_iff now bytes user pass s = (forth, back)
    where
      from_row :
          (row : Option (ℤ × Str))
          → db.find_user user s.pool ≡ ok row
          → (open_session db argon sha256 now bytes pass row s).0
            ≡ some (random_token bytes, session_ttl)
          → Knows user pass s
      from_row none e h = absurd (cc h)
      from_row (some (id, hash)) e h = elim (Bool-cases (verify argon pass hash)) [
        | inl good ↦ (id, hash, e, good)
        | inr bad ↦ absurd (cc (rw bad at h))
      ]

      forth :
          (login db argon sha256 now bytes user pass s).0 ≡ some (random_token bytes, session_ttl)
          → Knows user pass s
      forth h = elim (Result-cases (db.find_user user s.pool)) [
        | inl (u, e) ↦ absurd (cc (rw (login-err now bytes user pass s u e) at h))
        | inr (row, e) ↦ from_row row e (rw (login-row now bytes user pass s row e) at h)
      ]

      back :
          Knows user pass s
          → (login db argon sha256 now bytes user pass s).0 ≡ some (random_token bytes, session_ttl)
      back (id, hash, e, good) =
          rw (login-row now bytes user pass s (some (id, hash)) e)
            (opened now bytes pass id hash s good)

  -- A login that succeeds opens a session for a day.
  pub login-session :
      (now : Now) (bytes : List ℕ) (user pass : Str) (s : Auth db.Pool)
      → Knows user pass s
      → session_get (random_token bytes) (login db argon sha256 now bytes user pass s).1.sessions
        ≡ some (now.instant + session_ttl * 1000)
  login-session now bytes user pass s (id, hash, e, good) =
      rw (login-row now bytes user pass s (some (id, hash)) e, good)
        (session_get-insert (random_token bytes) (random_token bytes)
            (now.instant + session_ttl * 1000) s.sessions
          ∙ rw (str_eq_refl (random_token bytes)) refl)

module _ (db : Accounts) (laws : AccountsSql db) (argon : Argon2) (hashes : Verifies argon)
    (sha256 : Str → List ℕ) where
  abbrev admin : Str
  admin = codes "admin"

  new_auth-seed :
      (salt : Str) (unix : ℤ) (pool pool' : db.Pool) (s : Auth db.Pool)
      → ensure_schema db argon sha256 pool ≡ ok pool'
      → db.count_users pool' ≡ ok 0
      → new_auth db argon sha256 salt unix pool ≡ ok s
      → db.insert_user admin (hash_password argon salt admin) unix pool' ≡ ok s.pool
  unfolding new_auth
  new_auth-seed salt unix pool pool' s created empty made =
      elim (Result-cases (db.insert_user admin (hash_password argon salt admin) unix pool')) [
        | inl (u, e) ↦ absurd (cc (rw (new_auth, created, empty, e) at made))
        | inr (seeded, e) ↦
            let got = rw (new_auth, created, empty, e) at made in
            let same : s ≡ record { pool = seeded; sessions = [] } = cc got in rw same e
      ]

  -- On a database without users the start makes one, who can log in as `admin` with the password
  -- `admin`, once the query for the user succeeds.
  pub new_auth-login :
      (salt : Str) (unix : ℤ) (pool pool' : db.Pool) (s : Auth db.Pool) (now : Now) (bytes : List ℕ)
      (row : Option (ℤ × Str))
      → ensure_schema db argon sha256 pool ≡ ok pool'
      → db.count_users pool' ≡ ok 0
      → new_auth db argon sha256 salt unix pool ≡ ok s
      → db.find_user admin s.pool ≡ ok row
      → (login db argon sha256 now bytes admin admin s).0 ≡ some (random_token bytes, session_ttl)
  new_auth-login salt unix pool pool' s now bytes row created empty made found =
      let stored = new_auth-seed salt unix pool pool' s created empty made in
      let (id, rows) = laws.insert_user_rows admin _ unix pool' s.pool stored in
      let alone = rows ∙ rw (laws.count_users_zero pool' empty) refl in
      let only = laws.find_user_only admin _ id s.pool row alone found in
      (login_iff db argon sha256 now bytes admin admin s).1 (
        id,
        hash_password argon salt admin,
        found ∙ ap ok only,
        verify-hash_password argon hashes salt admin,
      )
