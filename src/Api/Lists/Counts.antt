-- ===== src/Api/Lists/Counts.antt =====
-- What the list handlers of backend/src/api/mod.rs report.
use denis.Api.Lists.{
  AddResult, BulkResult, Pagination, resolve_page, max_limit, custom, tally, from_outcome, added_of,
  block_add_bulk, remove_loop, remove_bulk,
}
use denis.Api.{ok_response}
use denis.Base.{
  ℕ, ◌+◌, ◌≤◌, Bool, true, false, List, [], ◌∷◌, Result, ok, err, length, length-append, le→leb,
  inl, inr, ◌≡◌, refl, ◌∙◌, ap, arith, Result-cases,
}
use denis.Repo.Cache.Durable.{add_block_domains-counts}
use denis.Repo.Cache.{CacheError, AddOutcome, Lists, add_block_domains, remove_block_domain}
use denis.Repo.Database.{Database, Sql}
use denis.Text.{Str}

-- A page has between one and a thousand entries, whatever is asked for.
pub resolve_page-bounds :
    (p : Pagination) → (1 ≤ (resolve_page p).0) × ((resolve_page p).0 ≤ max_limit)
unfolding resolve_page
resolve_page-bounds p = (ground arith, ground arith)

abbrev total_of : AddResult → ℕ
total_of r = r.added + r.skipped + r.invalid

from_outcome-total :
    (o : AddOutcome) (total : ℕ)
    → o.added ≤ o.considered
    → o.considered ≤ total
    → total_of (from_outcome o total) ≡ total
unfolding from_outcome
from_outcome-total o total few all = rw (le→leb _ _ few, le→leb _ _ all) (omega arith)

module _ (show : CacheError → Str) (db : Database) (laws : Sql db) (unicode : Str → Str) where
  -- What `added_of` reports of a call of `add_block_domains`.
  reported :
      (list : Str) (domains : List Str) (c : Lists db.Pool) (a : AddResult)
      → added_of show (length domains) (add_block_domains db unicode list domains c).0
        ≡ ok (ok_response a)
      → a.added + a.skipped + a.invalid ≡ length domains
  unfolding ok_response
  reported list domains c a h =
      elim (Result-cases (add_block_domains db unicode list domains c).0) [
        | inl (e, failed) ↦ absurd (cc (rw failed at h))
        | inr (o, done) ↦
            let got = rw done at h in
            let same : from_outcome o (length domains) ≡ a = cc got in
            let (few, all) = add_block_domains-counts db laws unicode list domains c o done in
            rw (← same) (from_outcome-total o (length domains) few all)
      ]

  -- Each domain of a bulk request is counted once in a successful answer: as added, as already
  -- known, or as invalid. No subtraction wraps around.
  pub block_add_bulk-total :
      (domains : List Str) (c : Lists db.Pool) (a : AddResult)
      → (block_add_bulk show db unicode domains c).0 ≡ ok (ok_response a)
      → a.added + a.skipped + a.invalid ≡ length domains
  unfolding block_add_bulk
  block_add_bulk-total domains c a h = reported custom domains c a h

module _ (show : CacheError → Str) (db : Database) (unicode : Str → Str) where
  abbrev count : BulkResult → ℕ
  count b = b.added + b.skipped + length b.errors

  count-tally :
      (domain : Str) (r : Result CacheError Bool) (b : BulkResult)
      → count (tally show db unicode domain r b) ≡ count b + 1
  count-tally domain (ok true) b = omega arith
  count-tally domain (ok false) b = omega arith
  count-tally domain (err e) b = omega (arith, length-append b.errors)

  remove_loop-count :
      (domains : List Str) (b : BulkResult) (c : Lists db.Pool)
      → count (remove_loop show db unicode domains b c).0 ≡ count b + length domains
  unfolding remove_loop
  remove_loop-count [] b c = omega arith
  remove_loop-count (domain ∷ domains) b c =
      let res = (remove_block_domain db unicode domain c).0 in
      let next = (remove_block_domain db unicode domain c).1 in
      let rest = remove_loop-count domains (tally show db unicode domain res b) next in
      rest ∙ (ap (λ n. n + length domains) (count-tally domain res b) ∙ omega arith)

  -- A bulk removal never fails as a whole, and each of its domains is counted once: as removed, as
  -- not found, or with its error.
  pub remove_bulk-total :
      (domains : List Str) (c : Lists db.Pool)
      → (b : BulkResult) × ((remove_bulk show db unicode domains c).0 ≡ ok (ok_response b))
        × (b.added + b.skipped + length b.errors ≡ length domains)
  unfolding remove_bulk
  remove_bulk-total domains c = (
    (remove_loop show db unicode domains (record { added = 0; skipped = 0; errors = [] }) c).0,
    refl,
    remove_loop-count domains (record { added = 0; skipped = 0; errors = [] }) c ∙ omega arith,
  )
