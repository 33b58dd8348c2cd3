-- ===== src/Api/Auth/Rows.antt =====
-- The database behind backend/src/api/auth.rs, which is not in the repository: the statements on
-- the tables `users` and `api_tokens`, what SQL says that they do, and the crate that checks
-- passwords.
use denis.Base.Int.{ℤ, ltb_ℤ}
use denis.Base.{
  ℕ, Bool, true, false, ◌&&◌, Option, none, some, List, [], ◌∷◌, ◌++◌, Result, ok, any, ◌≡◌,
}
use denis.Text.{Str, str_eq}

-- A row of `users`, without its times.
pub record UserRow : Type 0 where
  pub id : ℤ
  pub username : Str
  pub password_hash : Str

-- A row of `api_tokens`, without the time of its last use.
pub record TokenRow : Type 0 where
  pub id : ℤ
  pub name : Str
  pub token_hash : Str
  pub created_at : ℤ
  pub expires_at : Option ℤ

pub record UserInfo : Type 0 where
  pub username : Str
  pub created_at : ℤ
  pub last_login : Option ℤ

pub record TokenInfo : Type 0 where
  pub id : ℤ
  pub name : Str
  pub created_at : ℤ
  pub last_used : Option ℤ
  pub expires_at : Option ℤ

-- An error of `sqlx`, with its message.
abbrev pub Sqlx : Type 0 → Type 0
Sqlx A = Result Str A

pub record Accounts : Type 1 where
  pub Pool : Type 0
  -- The two statements of `ensure_schema`.
  pub create_users : Pool → Sqlx Pool
  pub create_api_tokens : Pool → Sqlx Pool
  -- `SELECT count(*) FROM users`
  pub count_users : Pool → Sqlx ℕ
  -- `INSERT INTO users (username, password_hash, created_at)`
  pub insert_user : Str → Str → ℤ → Pool → Sqlx Pool
  -- `SELECT id, password_hash FROM users WHERE username = …`
  pub find_user : Str → Pool → Sqlx (Option (ℤ × Str))
  -- `UPDATE users SET last_login = … WHERE id = …`, whose error is dropped
  pub touch_user : ℤ → ℤ → Pool → Pool
  -- `UPDATE users SET password_hash = … WHERE username = …`, with the number of rows
  pub update_password : Str → Str → Pool → Sqlx (ℕ × Pool)
  pub remove_user : Str → Pool → Sqlx (ℕ × Pool)
  pub select_users : Pool → Sqlx (List UserInfo)
  -- `INSERT INTO api_tokens (name, token_hash, created_at, expires_at)`
  pub insert_token : Str → Str → ℤ → Option ℤ → Pool → Sqlx Pool
  -- `SELECT id FROM api_tokens WHERE token_hash = … AND (expires_at IS NULL OR expires_at > …)`
  pub find_token : Str → ℤ → Pool → Sqlx (Option ℤ)
  pub touch_token : ℤ → ℤ → Pool → Pool
  pub remove_token : ℤ → Pool → Sqlx (ℕ × Pool)
  pub select_tokens : Pool → Sqlx (List TokenInfo)
  -- The rows.
  pub users : Pool → List UserRow
  pub tokens : Pool → List TokenRow

-- `expires_at IS NULL OR expires_at > now`
abbrev pub unexpired : ℤ → Option ℤ → Bool
unexpired now none = true
unexpired now (some expires_at) = ltb_ℤ now expires_at

-- A row that the query for a token selects.
abbrev pub selects : Str → ℤ → TokenRow → Bool
selects hash now row = str_eq row.token_hash hash && unexpired now row.expires_at

-- The documented effect of statements that succeed.
pub record AccountsSql (db : Accounts) : Type 0 where
  pub count_users_zero : (p : db.Pool) → db.count_users p ≡ ok 0 → db.users p ≡ []
  pub insert_user_rows :
      (name hash : Str) (now : ℤ) (p p' : db.Pool)
      → db.insert_user name hash now p ≡ ok p'
      → (id : ℤ) × (db.users p'
          ≡ db.users p ++ record { id = id; username = name; password_hash = hash } ∷ [])
  pub find_user_only :
      (name hash : Str) (id : ℤ) (p : db.Pool) (o : Option (ℤ × Str))
      → db.users p ≡ record { id = id; username = name; password_hash = hash } ∷ []
      → db.find_user name p ≡ ok o
      → o ≡ some (id, hash)
  pub insert_token_rows :
      (name hash : Str) (now : ℤ) (expires : Option ℤ) (p p' : db.Pool)
      → db.insert_token name hash now expires p ≡ ok p'
      → (id : ℤ) × (db.tokens p'
          ≡ db.tokens p
            ++ record {
              id = id;
              name = name;
              token_hash = hash;
              created_at = now;
              expires_at = expires;
            }
              ∷ [])
  pub find_token_some :
      (hash : Str) (now : ℤ) (p : db.Pool) (id : ℤ)
      → db.find_token hash now p ≡ ok (some id)
      → any (selects hash now) (db.tokens p) ≡ true
  pub find_token_none :
      (hash : Str) (now : ℤ) (p : db.Pool)
      → db.find_token hash now p ≡ ok none
      → any (selects hash now) (db.tokens p) ≡ false

-- The crate `argon2` on passwords as bytes: a salt and a password make a text, a text may be read
-- back, and a password is checked against it.
pub record Argon2 : Type 1 where
  pub Phc : Type 0
  pub hash_phc : Str → Str → Str
  pub parse_phc : Str → Option Phc
  pub check : Str → Phc → Bool

-- What a hash is made for: it can be read back, and the password that it was made from is accepted.
pub record Verifies (argon : Argon2) : Type 0 where
  pub check_hash :
      (salt password : Str)
      → (phc : argon.Phc) × (argon.parse_phc (argon.hash_phc salt password) ≡ some phc)
        × (argon.check password phc ≡ true)
