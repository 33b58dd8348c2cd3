-- ===== src/Repo/Cache/Chunks.antt =====
-- The chunked inserts of backend/src/repo/cache.rs, over any statement that adds its domains.
use denis.Base.{
  ℕ, ◌+◌, ◌≤◌, true, ◌||◌, none, some, List, [], ◌∷◌, ok, err, Option-cases, length, length-append,
  ◌≡◌, refl, arith, inl, inr,
}
use denis.Repo.Cache.Members.{contains-append, or_regroup, concat}
use denis.Repo.Cache.{sql, insert_chunks}
use denis.Repo.Database.{Affected}
use denis.Repo.Decide.{contains}
use denis.Text.{Str}

module _ {Pool : Type 0} (run : List Str → Pool → Affected × Pool) where
  chunks_nil : (added : ℕ) (pool : Pool) → insert_chunks run [] added pool ≡ (ok added, pool)
  unfolding insert_chunks
  chunks_nil added pool = refl

  chunks_some :
      (c : List Str) (cs : List (List Str)) (added : ℕ) (pool : Pool) (n : ℕ)
      → (run c pool).0 ≡ some n
      → insert_chunks run (c ∷ cs) added pool ≡ insert_chunks run cs (added + n) (run c pool).1
  unfolding insert_chunks
  chunks_some c cs added pool n e = rw (e, insert_chunks)

  chunks_none :
      (c : List Str) (cs : List (List Str)) (added : ℕ) (pool : Pool)
      → (run c pool).0 ≡ none
      → insert_chunks run (c ∷ cs) added pool ≡ (err sql, (run c pool).1)
  unfolding insert_chunks
  chunks_none c cs added pool e = rw (e, insert_chunks)

-- What a statement does with the rows: one that succeeds adds its domains.
abbrev pub Adds : {Pool : Type 0} → (List Str → Pool → Affected × Pool) → (Pool → List Str) → Type 0
Adds {Pool} run rows =
    (ds : List Str) (pool : Pool) (n : ℕ)
    → (run ds pool).0 ≡ some n
    → (n ≤ length ds)
      × ((d : Str) → contains (rows (run ds pool).1) d ≡ (contains (rows pool) d || contains ds d))

abbrev pub KeepsOnError : {Pool : Type 0} → (List Str → Pool → Affected × Pool) → Type 0
KeepsOnError {Pool} run =
    (ds : List Str) (pool : Pool) → (run ds pool).0 ≡ none → (run ds pool).1 ≡ pool

module _ {Pool : Type 0} (run : List Str → Pool → Affected × Pool) (rows : Pool → List Str)
    (adds : Adds run rows) where
  -- A loop that ends well has sent every chunk.
  pub insert_chunks_ok :
      (cs : List (List Str)) (added : ℕ) (pool : Pool) (total : ℕ)
      → (insert_chunks run cs added pool).0 ≡ ok total
      → (total ≤ added + length (concat cs))
        × ((d : Str)
            → contains (rows (insert_chunks run cs added pool).1) d
              ≡ (contains (rows pool) d || contains (concat cs) d))
  insert_chunks_ok [] added pool total h =
      unfold insert_chunks contains in (ground arith, λ d. ground arith)
  insert_chunks_ok (c ∷ cs) added pool total h = elim (Option-cases (run c pool).0) [
    | inl e ↦ absurd (cc (chunks_none run c cs added pool e))
    | inr (n, e) ↦
        let same = chunks_some run c cs added pool n e in
        let (few, first) = adds c pool n e in
        let (total_le, others) =
          insert_chunks_ok cs (added + n) (run c pool).1 total (rw same at h) in
        (
          omega (arith, length-append c (concat cs)),
          λ d.
              rw (same, others d, first d, contains-append c (concat cs) d)
                (or_regroup (contains (rows pool) d) (contains c d) (contains (concat cs) d)),
        )
  ]

  -- However it ends, no other domain has come into the rows.
  pub insert_chunks_no_more :
      KeepsOnError run
      → (cs : List (List Str)) (added : ℕ) (pool : Pool) (d : Str)
      → contains (rows (insert_chunks run cs added pool).1) d ≡ true
      → (contains (rows pool) d || contains (concat cs) d) ≡ true
  insert_chunks_no_more keeps [] added pool d h = rw (rw (chunks_nil run added pool) at h) refl
  insert_chunks_no_more keeps (c ∷ cs) added pool d h = elim (Option-cases (run c pool).0) [
    | inl e ↦
        let before = rw (chunks_none run c cs added pool e, keeps c pool e) at h in rw before refl
    | inr (n, e) ↦
        let later =
          insert_chunks_no_more keeps cs (added + n) (run c pool).1 d
            (rw (chunks_some run c cs added pool n e) at h) in
        ground (arith, later, (adds c pool n e).1 d, contains-append c (concat cs) d)
  ]
