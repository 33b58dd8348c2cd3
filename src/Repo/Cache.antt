-- ===== src/Repo/Cache.antt =====
-- backend/src/repo/cache.rs: the block and allow lists in memory and in the database.
pub mod Members
pub mod Chunks
pub mod Durable
pub mod Allowed
pub mod Reload
use denis.Base.{
  ℕ, zero, suc, ◌+◌, Bool, true, false, not, Option, none, some, List, [], ◌∷◌, Result, ok, err,
  map, length, take, drop, filter, if◌then◌else◌,
}
use denis.Repo.Database.{Database, Affected}
use denis.Repo.Decide.{DomainSet, contains, is_empty, decide}
use denis.Repo.Domains.{normalize_domains}
use denis.Text.{Str, str_eq, to_lowercase}

-- The error of `sqlx` that a statement ends with.
pub data CacheError : Type 0 where
  sql : CacheError

pub record AddOutcome : Type 0 where
  pub added : ℕ
  pub considered : ℕ

-- The counts that `stats` returns; the cache of answers counts its own entries.
pub record CacheStats : Type 0 where
  pub block_list_size : ℕ
  pub allow_list_size : ℕ
  pub l1_entry_count : ℕ

abbrev pub max_insert_chunk : ℕ
max_insert_chunk = 1_000

-- `HashSet::insert` and `HashSet::remove`
unfoldable pub insert : Str → DomainSet → DomainSet
insert d set = if contains set d then set else d ∷ set

unfoldable pub remove : Str → DomainSet → DomainSet
remove d set = filter (λ x. not (str_eq d x)) set

-- The new set that `cow_insert` stores.
unfoldable pub cow_insert : DomainSet → List Str → DomainSet
cow_insert set [] = set
cow_insert set (d ∷ ds) = cow_insert (insert d set) ds

-- `slice::chunks`, which takes an item off at least in every round.
chunks_fuel {ℓ} : {A : Type ℓ} → ℕ → ℕ → List A → List (List A)
chunks_fuel zero size xs = []
chunks_fuel (suc fuel) size [] = []
chunks_fuel (suc fuel) size (x ∷ xs) =
    take size (x ∷ xs) ∷ chunks_fuel fuel size (drop size (x ∷ xs))

unfoldable pub chunks {ℓ} : {A : Type ℓ} → ℕ → List A → List (List A)
unfolding chunks_fuel
chunks size xs = chunks_fuel (length xs) size xs

abbrev pub outcome_of : ℕ → Result CacheError ℕ → Result CacheError AddOutcome
outcome_of n (ok added) = ok (record { added = added; considered = n })
outcome_of n (err e) = err e

-- The lists of `Cache`, in memory and in the database.
pub record Lists (Pool : Type 0) : Type 0 where
  pub block_list : DomainSet
  pub allow_list : DomainSet
  pub pool : Pool

module _ {Pool : Type 0} where
  -- The loop over the chunks: the first error ends it, with the chunks before it in the database.
  unfoldable pub insert_chunks :
      (List Str → Pool → Affected × Pool) → List (List Str) → ℕ → Pool → Result CacheError ℕ × Pool
  insert_chunks run [] added pool = (ok added, pool)
  insert_chunks run (chunk ∷ rest) added pool =
      let (res, pool') = run chunk pool in
      elim res [ some n ↦ insert_chunks run rest (added + n) pool' | none ↦ (err sql, pool') ]

module _ (db : Database) (unicode : Str → Str) where
  unfoldable pub add_block_domains :
      Str → List Str → Lists db.Pool → Result CacheError AddOutcome × Lists db.Pool
  add_block_domains list domains c =
      let valid = normalize_domains unicode domains in
      let (res, pool') =
        insert_chunks (db.insert_blocked list) (chunks max_insert_chunk valid) 0 c.pool in
      if is_empty valid then (ok (record { added = 0; considered = 0 }), c) else (
        outcome_of (length valid) res,
        record c { block_list = cow_insert c.block_list valid; pool = pool' },
      )

  unfoldable pub add_allow_domains :
      List Str → Lists db.Pool → Result CacheError AddOutcome × Lists db.Pool
  add_allow_domains domains c =
      let valid = normalize_domains unicode domains in
      let (res, pool') = insert_chunks db.insert_allowed (chunks max_insert_chunk valid) 0 c.pool in
      if is_empty valid then (ok (record { added = 0; considered = 0 }), c) else (
        outcome_of (length valid) res,
        record c { allow_list = cow_insert c.allow_list valid; pool = pool' },
      )

  unfoldable pub add_block_domain :
      Str → Str → Lists db.Pool → Result CacheError AddOutcome × Lists db.Pool
  add_block_domain list domain c = add_block_domains list (domain ∷ []) c

  unfoldable pub add_allow_domain :
      Str → Lists db.Pool → Result CacheError AddOutcome × Lists db.Pool
  add_allow_domain domain c = add_allow_domains (domain ∷ []) c

  abbrev removed_of : Bool → Affected → Result CacheError Bool
  removed_of removed (some n) = ok removed
  removed_of removed none = err sql

  unfoldable pub remove_block_domain : Str → Lists db.Pool → Result CacheError Bool × Lists db.Pool
  remove_block_domain domain c =
      let lower = to_lowercase unicode domain in
      let (res, pool') = db.delete_blocked lower c.pool in
      (
        removed_of (contains c.block_list lower) res,
        record c { block_list = remove lower c.block_list; pool = pool' },
      )

-- `load_set`, of the rows that the query yields: the first row that fails (`none`) ends the loop.
pub load_rows : DomainSet → List (Option Str) → DomainSet
load_rows local [] = local
load_rows local (none ∷ rows) = local
load_rows local (some domain ∷ rows) = load_rows (insert domain local) rows

unfoldable pub load_set : List (Option Str) → DomainSet
unfolding load_rows
load_set = load_rows []

module _ (db : Database) where
  unfoldable pub is_blocked : Lists db.Pool → Str → Bool
  is_blocked c name = decide c.block_list c.allow_list name

  unfoldable pub read_blocklist_db_memory : Lists db.Pool → Lists db.Pool
  read_blocklist_db_memory c = record c { block_list = load_set (db.fetch_blocked c.pool) }

  unfoldable pub read_allowlist_db_memory : Lists db.Pool → Lists db.Pool
  read_allowlist_db_memory c = record c { allow_list = load_set (db.fetch_allowed c.pool) }

  unfoldable pub stats : Lists db.Pool → ℕ → CacheStats
  stats c entries = record {
    block_list_size = length c.block_list;
    allow_list_size = length c.allow_list;
    l1_entry_count = entries;
  }
