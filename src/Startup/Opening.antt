-- ===== src/Startup/Opening.antt =====
-- backend/src/db.rs: how the connection to the database is opened, by the crate `sqlx`.
use denis.Base.{ℕ, Bool, true, Result, ok, err, ◌>>=◌, ◌++◌}
use denis.Text.{Str, codes}

-- The backend that the program is built with.
pub data Db : Type 0 where
  sqlite postgres : Db

unfoldable pub id_pk : Db → Str
id_pk sqlite = codes "INTEGER PRIMARY KEY AUTOINCREMENT"
id_pk postgres = codes "BIGSERIAL PRIMARY KEY"

-- An error of `sqlx` is its text.
pub data DbError : Type 0 where
  sql : Str → DbError

-- `Display`
unfoldable pub db_error_text : DbError → Str
db_error_text (sql e) = codes "database: " ++ e

-- The options of a pool and of SQLite, and the connections.
pub record SqlxPool : Type 1 where
  pub Options : Type 0
  pub PoolOptions : Type 0
  pub Pool : Type 0
  pub from_str : Str → Result Str Options
  pub create_if_missing : Bool → Options → Options
  pub new : PoolOptions
  pub max_connections : ℕ → PoolOptions → PoolOptions
  pub connect_with : Options → PoolOptions → Result Str Pool
  pub connect : Str → PoolOptions → Result Str Pool

-- `?` on an error of `sqlx`.
abbrev pub from_sqlx {ℓ} : {A : Type ℓ} → Result Str A → Result DbError A
from_sqlx (ok a) = ok a
from_sqlx (err e) = err (sql e)

module _ (sqlx : SqlxPool) where
  unfoldable pub connect : Db → Str → ℕ → Result DbError sqlx.Pool
  connect sqlite url max_connections = do
    parsed ← from_sqlx (sqlx.from_str url)
    from_sqlx (
        sqlx.connect_with (sqlx.create_if_missing true parsed)
          (sqlx.max_connections max_connections sqlx.new))
  connect postgres url max_connections =
      from_sqlx (sqlx.connect url (sqlx.max_connections max_connections sqlx.new))
