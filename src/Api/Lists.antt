-- ===== src/Api/Lists.antt =====
-- backend/src/api/mod.rs: the handlers of the block list and the allow list.
pub mod Counts
use denis.Api.{ApiError, ApiResponse, ok_response, internal, bad_request_error, not_found}
use denis.Base.{
  ℕ, ◌+◌, ◌-◌, ◌^◌, Bool, true, false, Option, none, some, List, [], ◌∷◌, ◌++◌, Result, ok, err,
  ltb, leb, if◌then◌else◌, length,
}
use denis.Repo.Cache.{
  CacheError, AddOutcome, Lists, add_block_domain, add_block_domains, add_allow_domain,
  add_allow_domains, remove_block_domain,
}
use denis.Repo.Database.{Database}
use denis.Repo.ListFile.{parse_domain_list}
use denis.Text.{Str, codes}

pub record AddResult : Type 0 where
  pub added : ℕ
  pub skipped : ℕ
  pub invalid : ℕ

-- Subtraction on `usize`, of 64 bits: it wraps around below 0 in a release build.
abbrev pub usize_sub : ℕ → ℕ → ℕ
usize_sub a b = if leb b a then a - b else a + 2 ^ 64 - b

unfoldable pub from_outcome : AddOutcome → ℕ → AddResult
from_outcome outcome total_input = record {
  added = outcome.added;
  skipped = usize_sub outcome.considered outcome.added;
  invalid = usize_sub total_input outcome.considered;
}

pub record BulkResult : Type 0 where
  pub added : ℕ
  pub skipped : ℕ
  pub errors : List Str

abbrev pub default_limit : ℕ
default_limit = 100

abbrev pub max_limit : ℕ
max_limit = 1000

pub record Pagination : Type 0 where
  pub limit : Option ℕ
  pub offset : Option ℕ

abbrev unwrap_or : Option ℕ → ℕ → ℕ
unwrap_or (some n) d = n
unwrap_or none d = d

-- `Pagination::resolve`
unfoldable pub resolve_page : Pagination → ℕ × ℕ
resolve_page p =
    let asked = unwrap_or p.limit default_limit in
    let limit = if ltb asked 1 then 1 else if ltb max_limit asked then max_limit else asked in
    (limit, unwrap_or p.offset 0)

pub record Removed : Type 0 where
  pub removed : Bool

-- "custom", the list of the domains that were entered by hand.
abbrev pub custom : Str
custom = codes "custom"

-- What a handler answers.
abbrev pub ApiResult : Type 0 → Type 0
ApiResult T = Result ApiError (ApiResponse T)

pub record AddUrlReq : Type 0 where
  pub url : Str
  pub list : Option Str

module _ (show : CacheError → Str) where
  -- The result of adding domains, of a number that was given.
  abbrev pub added_of : ℕ → Result CacheError AddOutcome → ApiResult AddResult
  added_of total (ok outcome) = ok (ok_response (from_outcome outcome total))
  added_of total (err e) = err (internal (show e))

  module _ (db : Database) (unicode : Str → Str) where
    unfoldable pub block_add_one : Str → Lists db.Pool → ApiResult AddResult × Lists db.Pool
    block_add_one domain c =
        let (res, c') = add_block_domain db unicode custom domain c in (added_of 1 res, c')

    unfoldable pub block_add_bulk : List Str → Lists db.Pool → ApiResult AddResult × Lists db.Pool
    block_add_bulk domains c =
        let (res, c') = add_block_domains db unicode custom domains c in
        (added_of (length domains) res, c')

    abbrev list_of : AddUrlReq → Str
    list_of req = elim req.list [ some name ↦ name | none ↦ req.url ]

    -- `get` stands for the crate `reqwest`: the body of an answer with a good status, or the
    -- message of the error; `is_ip`, for the reading of addresses in `parse_domain_list`.
    unfoldable pub block_add_url :
        (Str → Result Str Str)
        → (Str → Bool)
        → AddUrlReq
        → Lists db.Pool
        → ApiResult AddResult × Lists db.Pool
    block_add_url get is_ip req c = elim (get req.url) [
      | err e ↦ (err (bad_request_error e), c)
      | ok body ↦
          let domains = parse_domain_list unicode is_ip body in
          let (res, c') = add_block_domains db unicode (list_of req) domains c in
          (added_of (length domains) res, c')
    ]

    unfoldable pub allow_add_one : Str → Lists db.Pool → ApiResult AddResult × Lists db.Pool
    allow_add_one domain c =
        let (res, c') = add_allow_domain db unicode domain c in (added_of 1 res, c')

    unfoldable pub allow_add_bulk : List Str → Lists db.Pool → ApiResult AddResult × Lists db.Pool
    allow_add_bulk domains c =
        let (res, c') = add_allow_domains db unicode domains c in
        (added_of (length domains) res, c')

    abbrev pub tally : Str → Result CacheError Bool → BulkResult → BulkResult
    tally domain (ok true) b = record b { added = b.added + 1 }
    tally domain (ok false) b = record b { skipped = b.skipped + 1 }
    tally domain (err e) b = record b {
      errors = b.errors ++ (domain ++ (codes ": " ++ show e)) ∷ [];
    }

    -- The loop of `remove_bulk`: an error does not end it.
    unfoldable pub remove_loop : List Str → BulkResult → Lists db.Pool → BulkResult × Lists db.Pool
    remove_loop [] b c = (b, c)
    remove_loop (domain ∷ domains) b c =
        let (res, c') = remove_block_domain db unicode domain c in
        remove_loop domains (tally domain res b) c'

    unfoldable pub remove_bulk : List Str → Lists db.Pool → ApiResult BulkResult × Lists db.Pool
    remove_bulk domains c =
        let (b, c') = remove_loop domains (record { added = 0; skipped = 0; errors = [] }) c in
        (ok (ok_response b), c')

    abbrev removed_of : Str → Result CacheError Bool → ApiResult Removed
    removed_of domain (ok true) = ok (ok_response (record { removed = true }))
    removed_of domain (ok false) =
        err (record { status = not_found; message = domain ++ codes " not found in blocklist" })
    removed_of domain (err e) = err (internal (show e))

    unfoldable pub remove_one : Str → Lists db.Pool → ApiResult Removed × Lists db.Pool
    remove_one domain c =
        let (res, c') = remove_block_domain db unicode domain c in (removed_of domain res, c')
