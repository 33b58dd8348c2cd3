-- ===== src/Repo/Cache/Durable.antt =====
-- The block list of backend/src/repo/cache.rs in memory against the rows in the database.
use denis.Base.{
  ℕ, ◌≤◌, true, ◌||◌, List, [], ◌∷◌, map, Result, ok, err, length, length-map, length-filter-le,
  ◌≡◌, refl, ap, ◌∙◌, arith,
}
use denis.Repo.Cache.Chunks.{insert_chunks_ok, insert_chunks_no_more}
use denis.Repo.Cache.Members.{contains-cow_insert, concat-chunks}
use denis.Repo.Cache.{
  CacheError, AddOutcome, Lists, add_block_domains, insert_chunks, chunks, max_insert_chunk,
  cow_insert, outcome_of,
}
use denis.Repo.Database.{Database, Sql}
use denis.Repo.Decide.{contains}
use denis.Repo.Domains.{normalize, normalize_domains, is_valid_domain}
use denis.Text.{Str}

module _ (db : Database) where
  -- The list in memory and the rows have the same domains.
  abbrev pub Agrees : Lists db.Pool → Type 0
  Agrees c = (d : Str) → contains c.block_list d ≡ contains (db.blocked_rows c.pool) d

  -- Every row is in memory.
  abbrev pub CoversRows : Lists db.Pool → Type 0
  CoversRows c =
      (d : Str) → contains (db.blocked_rows c.pool) d ≡ true → contains c.block_list d ≡ true

pub outcome_of-ok :
    (n : ℕ) (r : Result CacheError ℕ) (o : AddOutcome)
    → outcome_of n r ≡ ok o
    → (r ≡ ok o.added) × (o.considered ≡ n)
outcome_of-ok n (ok added) o h = (cc, cc)
outcome_of-ok n (err e) o h = cc

pub length-normalize_domains-le :
    (unicode : Str → Str) (domains : List Str)
    → length (normalize_domains unicode domains) ≤ length domains
unfolding normalize_domains
length-normalize_domains-le unicode domains = omega (
  arith,
  length-filter-le is_valid_domain (map (normalize unicode) domains),
  length-map (normalize unicode) domains,
)

module _ (db : Database) (unicode : Str → Str) where
  -- The rows after the inserts of `add_block_domains`.
  sent : Str → List Str → Lists db.Pool → Result CacheError ℕ × db.Pool
  sent list valid c =
      insert_chunks (db.insert_blocked list) (chunks max_insert_chunk valid) 0 c.pool

  add_none :
      (list : Str) (domains : List Str) (c : Lists db.Pool)
      → normalize_domains unicode domains ≡ []
      → add_block_domains db unicode list domains c ≡ (ok (record { added = 0; considered = 0 }), c)
  unfolding add_block_domains
  add_none list domains c e = rw e refl

  add_some :
      (list : Str) (domains : List Str) (c : Lists db.Pool) (v : Str) (vs : List Str)
      → normalize_domains unicode domains ≡ v ∷ vs
      → add_block_domains db unicode list domains c ≡ (
        outcome_of (length (v ∷ vs)) (sent list (v ∷ vs) c).0,
        record c { block_list = cow_insert c.block_list (v ∷ vs); pool = (sent list (v ∷ vs) c).1 },
      )
  unfolding add_block_domains sent
  add_some list domains c v vs e = rw e refl

  -- However the inserts end, the domains blocked in memory are those from before and the valid ones
  -- of those given, in lower case, and the allow list is left alone.
  pub add_block_domains-members :
      (list : Str) (domains : List Str) (c : Lists db.Pool)
      → let after = (add_block_domains db unicode list domains c).1 in
        ((d : Str)
          → contains after.block_list d
            ≡ (contains c.block_list d || contains (normalize_domains unicode domains) d))
        × (after.allow_list ≡ c.allow_list)
  add_block_domains-members list domains c = go (normalize_domains unicode domains) refl
    where
      go :
          (vs : List Str)
          → normalize_domains unicode domains ≡ vs
          → let after = (add_block_domains db unicode list domains c).1 in
            ((d : Str)
              → contains after.block_list d
                ≡ (contains c.block_list d || contains (normalize_domains unicode domains) d))
            × (after.allow_list ≡ c.allow_list)
      go [] e = rw (add_none list domains c e, e) ((λ d. unfold contains in ground arith), refl)
      go (v ∷ vs) e =
          rw (add_some list domains c v vs e, e)
            ((λ d. contains-cow_insert c.block_list (v ∷ vs) d), refl)

module _ (db : Database) (laws : Sql db) (unicode : Str → Str) where
  sent_rows :
      (list : Str) (valid : List Str) (c : Lists db.Pool) (added : ℕ)
      → (sent db unicode list valid c).0 ≡ ok added
      → (added ≤ length valid)
        × ((d : Str)
            → contains (db.blocked_rows (sent db unicode list valid c).1) d
              ≡ (contains (db.blocked_rows c.pool) d || contains valid d))
  unfolding sent
  sent_rows list valid c added done =
      let (few, rows) =
        insert_chunks_ok (db.insert_blocked list) db.blocked_rows (laws.insert_blocked_rows list)
          (chunks max_insert_chunk valid) 0 c.pool added done in
      let whole = concat-chunks max_insert_chunk valid (omega arith) in
      (omega (arith, ap length whole), λ d. rows d ∙ rw whole refl)

  sent_no_more :
      (list : Str) (valid : List Str) (c : Lists db.Pool) (d : Str)
      → contains (db.blocked_rows (sent db unicode list valid c).1) d ≡ true
      → (contains (db.blocked_rows c.pool) d || contains valid d) ≡ true
  unfolding sent
  sent_no_more list valid c d h = rw (concat-chunks max_insert_chunk valid (omega arith)) at (
      insert_chunks_no_more (db.insert_blocked list) db.blocked_rows (laws.insert_blocked_rows list)
        (laws.insert_blocked_fails list) (chunks max_insert_chunk valid) 0 c.pool d h)

  -- When the list in memory and the rows had the same domains and the call succeeds, they have the
  -- same domains again, no more rows were added than were considered, and no more domains were
  -- considered than given.
  pub add_block_domains-Agrees :
      (list : Str) (domains : List Str) (c : Lists db.Pool) (o : AddOutcome)
      → Agrees db c
      → (add_block_domains db unicode list domains c).0 ≡ ok o
      → Agrees db (add_block_domains db unicode list domains c).1
        × (o.added ≤ o.considered)
        × (o.considered ≤ length domains)
  add_block_domains-Agrees list domains c o agrees h = go (normalize_domains unicode domains) refl
    where
      fewer : length (normalize_domains unicode domains) ≤ length domains
      fewer = length-normalize_domains-le unicode domains

      go :
          (vs : List Str)
          → normalize_domains unicode domains ≡ vs
          → Agrees db (add_block_domains db unicode list domains c).1
            × (o.added ≤ o.considered)
            × (o.considered ≤ length domains)
      go [] e =
          let same = add_none db unicode list domains c e in
          rw same (agrees, ground (arith, same), ground (arith, same))
      go (v ∷ vs) e =
          let same = add_some db unicode list domains c v vs e in
          let (done, all) = outcome_of-ok _ (sent db unicode list (v ∷ vs) c).0 o (rw same at h) in
          let (few, rows) = sent_rows list (v ∷ vs) c o.added done in
          rw same (
            (λ d. contains-cow_insert c.block_list (v ∷ vs) d ∙ rw (rows d, agrees d) refl),
            omega arith,
            omega (arith, rw e at fewer),
          )

  -- When every row was in memory before, every row is in memory after, however the inserts end: a
  -- failure part-way leaves memory ahead of the database, never behind it.
  pub add_block_domains-CoversRows :
      (list : Str) (domains : List Str) (c : Lists db.Pool)
      → CoversRows db c
      → CoversRows db (add_block_domains db unicode list domains c).1
  add_block_domains-CoversRows list domains c covers = go (normalize_domains unicode domains) refl
    where
      go :
          (vs : List Str)
          → normalize_domains unicode domains ≡ vs
          → CoversRows db (add_block_domains db unicode list domains c).1
      go [] e = rw (add_none db unicode list domains c e) covers
      go (v ∷ vs) e = rw (add_some db unicode list domains c v vs e) (λ d h. ground (
        arith,
        contains-cow_insert c.block_list (v ∷ vs) d,
        sent_no_more list (v ∷ vs) c d h,
        covers d,
      ))

  -- No more rows are added than domains considered, and no more are considered than given.
  pub add_block_domains-counts :
      (list : Str) (domains : List Str) (c : Lists db.Pool) (o : AddOutcome)
      → (add_block_domains db unicode list domains c).0 ≡ ok o
      → (o.added ≤ o.considered) × (o.considered ≤ length domains)
  add_block_domains-counts list domains c o h = go (normalize_domains unicode domains) refl
    where
      fewer : length (normalize_domains unicode domains) ≤ length domains
      fewer = length-normalize_domains-le unicode domains

      go :
          (vs : List Str)
          → normalize_domains unicode domains ≡ vs
          → (o.added ≤ o.considered) × (o.considered ≤ length domains)
      go [] e =
          let same = add_none db unicode list domains c e in
          (ground (arith, same), ground (arith, same))
      go (v ∷ vs) e =
          let same = add_some db unicode list domains c v vs e in
          let (done, all) = outcome_of-ok _ (sent db unicode list (v ∷ vs) c).0 o (rw same at h) in
          let (few, rows) = sent_rows list (v ∷ vs) c o.added done in
          (omega arith, omega (arith, rw e at fewer))
