-- ===== src/Repo/Cache/Allowed.antt =====
-- The allow list of backend/src/repo/cache.rs in memory and in the database.
use denis.Base.{ℕ, ◌≤◌, ◌||◌, List, [], ◌∷◌, ok, length, ◌≡◌, refl, ap, ◌∙◌, arith, Result}
use denis.Repo.Cache.Chunks.{insert_chunks_ok}
use denis.Repo.Cache.Durable.{outcome_of-ok, length-normalize_domains-le}
use denis.Repo.Cache.Members.{contains-cow_insert, concat-chunks}
use denis.Repo.Cache.{
  CacheError, AddOutcome, Lists, add_allow_domains, insert_chunks, chunks, max_insert_chunk,
  cow_insert, outcome_of,
}
use denis.Repo.Database.{Database, Sql}
use denis.Repo.Decide.{contains}
use denis.Repo.Domains.{normalize_domains}
use denis.Text.{Str}

module _ (db : Database) where
  -- The allow list in memory and the rows have the same domains.
  abbrev pub AgreesAllowed : Lists db.Pool → Type 0
  AgreesAllowed c = (d : Str) → contains c.allow_list d ≡ contains (db.allowed_rows c.pool) d

module _ (db : Database) (laws : Sql db) (unicode : Str → Str) where
  sent : List Str → Lists db.Pool → Result CacheError ℕ × db.Pool
  sent valid c = insert_chunks db.insert_allowed (chunks max_insert_chunk valid) 0 c.pool

  add_none :
      (domains : List Str) (c : Lists db.Pool)
      → normalize_domains unicode domains ≡ []
      → add_allow_domains db unicode domains c ≡ (ok (record { added = 0; considered = 0 }), c)
  unfolding add_allow_domains
  add_none domains c e = rw e refl

  add_some :
      (domains : List Str) (c : Lists db.Pool) (v : Str) (vs : List Str)
      → normalize_domains unicode domains ≡ v ∷ vs
      → add_allow_domains db unicode domains c ≡ (
        outcome_of (length (v ∷ vs)) (sent (v ∷ vs) c).0,
        record c { allow_list = cow_insert c.allow_list (v ∷ vs); pool = (sent (v ∷ vs) c).1 },
      )
  unfolding add_allow_domains sent
  add_some domains c v vs e = rw e refl

  sent_rows :
      (valid : List Str) (c : Lists db.Pool) (added : ℕ)
      → (sent valid c).0 ≡ ok added
      → (added ≤ length valid)
        × ((d : Str)
            → contains (db.allowed_rows (sent valid c).1) d
              ≡ (contains (db.allowed_rows c.pool) d || contains valid d))
  unfolding sent
  sent_rows valid c added done =
      let (few, rows) =
        insert_chunks_ok db.insert_allowed db.allowed_rows laws.insert_allowed_rows
          (chunks max_insert_chunk valid) 0 c.pool added done in
      let whole = concat-chunks max_insert_chunk valid (omega arith) in
      (omega (arith, ap length whole), λ d. rows d ∙ rw whole refl)

  -- When the allow list in memory and the rows had the same domains and the call succeeds, they
  -- have the same domains again, the block list is left alone, no more rows were added than were
  -- considered, and no more domains were considered than given.
  pub add_allow_domains-Agrees :
      (domains : List Str) (c : Lists db.Pool) (o : AddOutcome)
      → AgreesAllowed db c
      → (add_allow_domains db unicode domains c).0 ≡ ok o
      → AgreesAllowed db (add_allow_domains db unicode domains c).1
        × ((add_allow_domains db unicode domains c).1.block_list ≡ c.block_list)
        × (o.added ≤ o.considered)
        × (o.considered ≤ length domains)
  add_allow_domains-Agrees domains c o agrees h = go (normalize_domains unicode domains) refl
    where
      fewer : length (normalize_domains unicode domains) ≤ length domains
      fewer = length-normalize_domains-le unicode domains

      go :
          (vs : List Str)
          → normalize_domains unicode domains ≡ vs
          → AgreesAllowed db (add_allow_domains db unicode domains c).1
            × ((add_allow_domains db unicode domains c).1.block_list ≡ c.block_list)
            × (o.added ≤ o.considered)
            × (o.considered ≤ length domains)
      go [] e =
          let same = add_none domains c e in
          rw same (agrees, refl, ground (arith, same), ground (arith, same))
      go (v ∷ vs) e =
          let same = add_some domains c v vs e in
          let (done, all) = outcome_of-ok _ (sent (v ∷ vs) c).0 o (rw same at h) in
          let (few, rows) = sent_rows (v ∷ vs) c o.added done in
          rw same (
            (λ d. contains-cow_insert c.allow_list (v ∷ vs) d ∙ rw (rows d, agrees d) refl),
            refl,
            omega arith,
            omega (arith, rw e at fewer),
          )
