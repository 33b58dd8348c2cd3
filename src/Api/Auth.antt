-- ===== src/Api/Auth.antt =====
-- backend/src/api/auth.rs: users, sessions and tokens. The rows are in the database, the sessions
-- in memory.
pub mod Hex
pub mod Rows
pub mod Users
pub mod Live
pub mod Survive
pub mod Tokens
pub mod Handlers
use denis.Api.Auth.Rows.{Accounts, Argon2, Sqlx, UserInfo, TokenInfo}
use denis.Api.Auth.Hex.{sha256_hex, random_token}
use denis.Base.Int.{ℤ, pos, ◌+ℤ◌}
use denis.Base.{
  ℕ, zero, suc, ◌+◌, ◌*◌, Bool, true, false, Option, none, some, List, [], ◌∷◌, Result, ok, err,
  ◌>>=◌, ltb, if◌then◌else◌,
}
use denis.Text.{Str, str_eq, codes}

-- `SESSION_TTL`, in seconds.
abbrev pub session_ttl : ℕ
session_ttl = 86_400

-- `HashMap<String, Instant>`, with the newest entry first. Instants are in milliseconds.
abbrev pub Sessions : Type 0
Sessions = List (Str × ℕ)

unfoldable pub session_get : Str → Sessions → Option ℕ
session_get token [] = none
session_get token ((t, expiry) ∷ rest) =
    if str_eq t token then some expiry else session_get token rest

unfoldable pub session_remove : Str → Sessions → Sessions
session_remove token [] = []
session_remove token ((t, expiry) ∷ rest) =
    let others = session_remove token rest in
    if str_eq t token then others else (t, expiry) ∷ others

unfoldable pub session_insert : Str → ℕ → Sessions → Sessions
session_insert token expiry sessions = (token, expiry) ∷ session_remove token sessions

-- The two clocks at a call: `Instant::now()` in milliseconds, and `now_unix()`.
pub record Now : Type 0 where
  pub instant : ℕ
  pub unix : ℤ

-- `Auth`
pub record Auth (Pool : Type 0) : Type 0 where
  pub pool : Pool
  pub sessions : Sessions

module _ (argon : Argon2) where
  unfoldable pub verify : Str → Str → Bool
  verify password phc = elim (argon.parse_phc phc) [
    | some parsed ↦ argon.check password parsed
    | none ↦ false
  ]

  -- The salt is what the generator yields.
  unfoldable pub hash_password : Str → Str → Str
  hash_password salt password = argon.hash_phc salt password

module _ (db : Accounts) (argon : Argon2) (sha256 : Str → List ℕ) where
  abbrev State : Type 0
  State = Auth db.Pool

  unfoldable pub ensure_schema : db.Pool → Sqlx db.Pool
  ensure_schema pool = do pool' ← db.create_users pool; db.create_api_tokens pool'

  -- The default user, where there is none.
  abbrev pub seed : Str → ℤ → ℕ → db.Pool → Sqlx db.Pool
  seed salt now zero pool =
      db.insert_user (codes "admin") (hash_password argon salt (codes "admin")) now pool
  seed salt now (suc n) pool = ok pool

  -- `Auth::new`
  unfoldable pub new_auth : Str → ℤ → db.Pool → Sqlx State
  new_auth salt now pool = do
    pool' ← ensure_schema pool
    users ← db.count_users pool'
    seeded ← seed salt now users pool'
    ok (record { pool = seeded; sessions = [] })

  -- The session that `login` opens, once the user's row has been found.
  abbrev pub open_session : Now → List ℕ → Str → Option (ℤ × Str) → State → Option (Str × ℕ) × State
  open_session now bytes pass none s = (none, s)
  open_session now bytes pass (some (id, hash)) s =
      if verify argon pass hash
      then (
        some (random_token bytes, session_ttl),
        record {
          pool = db.touch_user now.unix id s.pool;
          sessions =
              session_insert (random_token bytes) (now.instant + session_ttl * 1000) s.sessions;
        },
      )
      else (none, s)

  -- `bytes` are the random bytes of the token.
  unfoldable pub login : Now → List ℕ → Str → Str → State → Option (Str × ℕ) × State
  login now bytes user pass s = elim (db.find_user user s.pool) [
    | err e ↦ (none, s)
    | ok row ↦ open_session now bytes pass row s
  ]

  -- The second half of `validate`, for a text that is no session.
  unfoldable pub validate_token : Now → Str → State → Bool × State
  validate_token now token s = elim (db.find_token (sha256_hex sha256 token) now.unix s.pool) [
    | err e ↦ (false, s)
    | ok found ↦ elim found [
      | some id ↦ (true, record s { pool = db.touch_token now.unix id s.pool })
      | none ↦ (false, s)
    ]
  ]

  unfoldable pub validate : Now → Str → State → Bool × State
  validate now token s = elim (session_get token s.sessions) [
    | none ↦ validate_token now token s
    | some expiry ↦
        if ltb now.instant expiry
        then (true, s)
        else validate_token now token (record s { sessions = session_remove token s.sessions })
  ]

  unfoldable pub list_users : State → Sqlx (List UserInfo)
  list_users s = db.select_users s.pool

  unfoldable pub list_tokens : State → Sqlx (List TokenInfo)
  list_tokens s = db.select_tokens s.pool

  -- A statement that changes the pool or fails.
  abbrev pub stored : {A : Type 0} → A → State → Sqlx db.Pool → Sqlx A × State
  stored a s (ok pool) = (ok a, record s { pool = pool })
  stored a s (err e) = (err e, s)

  -- A statement that counts its rows: whether there was one.
  abbrev pub affected : State → Sqlx (ℕ × db.Pool) → Sqlx Bool × State
  affected s (ok (rows, pool)) = (ok (ltb 0 rows), record s { pool = pool })
  affected s (err e) = (err e, s)

  unfoldable pub create_user : Now → Str → Str → Str → State → Sqlx (Unit {0}) × State
  create_user now salt user pass s =
      stored tt s (db.insert_user user (hash_password argon salt pass) now.unix s.pool)

  unfoldable pub set_password : Str → Str → Str → State → Sqlx Bool × State
  set_password salt user pass s =
      affected s (db.update_password (hash_password argon salt pass) user s.pool)

  unfoldable pub delete_user : Str → State → Sqlx Bool × State
  delete_user user s = affected s (db.remove_user user s.pool)

  -- `ttl_secs.map(|t| now_unix() + t)`; the sum of two `i64` is taken not to overflow.
  abbrev pub expiry_of : ℤ → Option ℤ → Option ℤ
  expiry_of now none = none
  expiry_of now (some t) = some (now +ℤ t)

  unfoldable pub create_token : Now → List ℕ → Str → Option ℤ → State → Sqlx Str × State
  create_token now bytes name ttl_secs s = stored (random_token bytes) s (
      db.insert_token name (sha256_hex sha256 (random_token bytes)) now.unix
        (expiry_of now.unix ttl_secs) s.pool)

  unfoldable pub revoke_token : ℤ → State → Sqlx Bool × State
  revoke_token id s = affected s (db.remove_token id s.pool)
