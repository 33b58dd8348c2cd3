-- ===== src/Repo/Pages.antt =====
-- The queries of backend/src/repo/cache.rs for a page of a list, and what makes its tables.
use denis.Base.Int.{ℤ, pos}
use denis.Base.{ℕ, List, Result, ok, take, drop, length, ◌>>=◌, ◌≡◌}
use denis.Repo.Cache.{CacheError, Lists}
use denis.Text.{Str}

pub data Table : Type 0 where
  blocked_table allowed_table : Table

-- The statements of `ensure_tables` and `page_domains`, and the counts; the database is not in the
-- repository.
pub record Paging (Pool : Type 0) : Type 0 where
  pub create_table : Table → Pool → Result CacheError Pool
  -- `SELECT domain FROM … ORDER BY domain LIMIT … OFFSET …`
  pub select_page : Table → ℤ → ℤ → Pool → Result CacheError (List Str)
  -- `SELECT count(*) FROM …`, which is no negative number
  pub count_rows : Table → Pool → Result CacheError ℕ
  -- The domains of the rows, in their order.
  pub ordered : Table → Pool → List Str

-- The documented result of a query that succeeds.
pub record PagingSql {Pool : Type 0} (pages : Paging Pool) : Type 0 where
  pub select_page_rows :
      (t : Table) (limit offset : ℕ) (pool : Pool) (rows : List Str)
      → pages.select_page t (pos limit) (pos offset) pool ≡ ok rows
      → rows ≡ take limit (drop offset (pages.ordered t pool))
  pub count_rows_length :
      (t : Table) (pool : Pool) (n : ℕ)
      → pages.count_rows t pool ≡ ok n
      → n ≡ length (pages.ordered t pool)

module _ {Pool : Type 0} (pages : Paging Pool) where
  unfoldable pub ensure_tables : Pool → Result CacheError Pool
  ensure_tables pool = do
    pool' ← pages.create_table blocked_table pool
    pages.create_table allowed_table pool'

  unfoldable pub page_domains : Pool → Table → ℤ → ℤ → Result CacheError (List Str)
  page_domains pool table limit offset = pages.select_page table limit offset pool

  unfoldable pub list_block_domains : ℤ → ℤ → Lists Pool → Result CacheError (List Str)
  list_block_domains limit offset c = page_domains c.pool blocked_table limit offset

  unfoldable pub count_block_domains : Lists Pool → Result CacheError ℕ
  count_block_domains c = pages.count_rows blocked_table c.pool

  unfoldable pub list_allow_domains : ℤ → ℤ → Lists Pool → Result CacheError (List Str)
  list_allow_domains limit offset c = page_domains c.pool allowed_table limit offset

  unfoldable pub count_allow_domains : Lists Pool → Result CacheError ℕ
  count_allow_domains c = pages.count_rows allowed_table c.pool
