-- ===== src/Repo/Database.antt =====
-- The database behind backend/src/repo/cache.rs, which is not in the repository: the statements
-- that the cache sends, and what SQL says that they do.
use denis.Base.{ℕ, ◌≤◌, not, ◌&&◌, ◌||◌, List, Option, none, some, length, ◌≡◌}
use denis.Repo.Decide.{contains}
use denis.Text.{Str, str_eq}

-- What a statement returns: the rows that it affected, or an error of `sqlx`.
abbrev pub Affected : Type 0
Affected = Option ℕ

pub record Database : Type 1 where
  pub Pool : Type 0
  -- `INSERT INTO blocked (list, domain) … ON CONFLICT (domain) DO NOTHING`, and the same for
  -- `allowed`.
  pub insert_blocked : Str → List Str → Pool → Affected × Pool
  pub insert_allowed : List Str → Pool → Affected × Pool
  -- `DELETE FROM blocked WHERE domain = …`
  pub delete_blocked : Str → Pool → Affected × Pool
  -- The domains of the rows of `blocked` and of `allowed`.
  pub blocked_rows : Pool → List Str
  pub allowed_rows : Pool → List Str
  -- The stream of `SELECT domain FROM blocked`, and the same for `allowed`; `none` is an error.
  pub fetch_blocked : Pool → List (Option Str)
  pub fetch_allowed : Pool → List (Option Str)

-- The documented effect of a statement that succeeds; one that fails changes no row.
pub record Sql (db : Database) : Type 0 where
  pub insert_blocked_rows :
      (list : Str) (ds : List Str) (pool : db.Pool) (n : ℕ)
      → (db.insert_blocked list ds pool).0 ≡ some n
      → (n ≤ length ds)
        × ((d : Str)
            → contains (db.blocked_rows (db.insert_blocked list ds pool).1) d
              ≡ (contains (db.blocked_rows pool) d || contains ds d))
  pub insert_blocked_fails :
      (list : Str) (ds : List Str) (pool : db.Pool)
      → (db.insert_blocked list ds pool).0 ≡ none
      → (db.insert_blocked list ds pool).1 ≡ pool
  pub insert_allowed_rows :
      (ds : List Str) (pool : db.Pool) (n : ℕ)
      → (db.insert_allowed ds pool).0 ≡ some n
      → (n ≤ length ds)
        × ((d : Str)
            → contains (db.allowed_rows (db.insert_allowed ds pool).1) d
              ≡ (contains (db.allowed_rows pool) d || contains ds d))
  pub delete_blocked_rows :
      (e : Str) (pool : db.Pool) (n : ℕ)
      → (db.delete_blocked e pool).0 ≡ some n
      → (d : Str)
      → contains (db.blocked_rows (db.delete_blocked e pool).1) d
        ≡ (contains (db.blocked_rows pool) d && not (str_eq d e))
  pub delete_blocked_fails :
      (e : Str) (pool : db.Pool)
      → (db.delete_blocked e pool).0 ≡ none
      → (db.delete_blocked e pool).1 ≡ pool
