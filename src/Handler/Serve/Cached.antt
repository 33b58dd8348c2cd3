-- ===== src/Handler/Serve/Cached.antt =====
-- Which answers query.rs puts in the cache, and for how long.
use denis.Base.{
  ℕ, ◌%◌, ◌≤◌, max, Bool, true, false, ◌&&◌, ◌||◌, none, some, Bytes, length, get_elem?,
  get_elem?-lt, if◌then◌else◌, ltb, ◌==◌, ==_iff, ◌≡◌, refl, ◌⊎◌, inl, inr, arith, Bool-cases,
  Option-cases,
}
use denis.Config.Clamp.{clamp_ttl-max-min}
use denis.Config.{RuntimeConfig, clamp_ttl}
use denis.Handler.Parser.{Query}
use denis.Handler.Serve.{
  Moka, Expires, L1Entry, expire_after_create, expire_after_update, ancount, cache_ttl, Clock,
  Proxy, add_dns_query_moka, remember,
}
use denis.Handler.Upstream.{no_error, nx_domain_code, rcode_from_raw}
use denis.Repo.Database.{Database}
use denis.Repo.Key.{Heapless, TypeNames, query_key}
use denis.Text.{Str, str_eq, str_eq_iff}

-- A message with a header's first four bytes that reports success or a missing name.
abbrev pub Cacheable : Bytes → Type 0
Cacheable raw =
    (4 ≤ length raw) × ((rcode_from_raw raw ≡ no_error) ⊎ (rcode_from_raw raw ≡ nx_domain_code))

code_0 :
    (raw : Bytes) (b : ℕ) → get_elem? raw 3 ≡ some b → b % 16 ≡ 0 → rcode_from_raw raw ≡ no_error
unfolding rcode_from_raw
code_0 raw b e z = rw (rcode_from_raw, e, z) refl

code_3 :
    (raw : Bytes) (b : ℕ)
    → get_elem? raw 3 ≡ some b
    → b % 16 ≡ 3
    → rcode_from_raw raw ≡ nx_domain_code
unfolding rcode_from_raw
code_3 raw b e z = rw (rcode_from_raw, e, z) refl

choice :
    (x y z : Bool) (a c ttl : ℕ)
    → (if x && y then some a else if x || z then some c else none) ≡ some ttl
    → ((ttl ≡ a) ⊎ (ttl ≡ c)) × ((x ≡ true) ⊎ (z ≡ true))
choice true true z a c ttl h = (inl cc, inl refl)
choice true false z a c ttl h = (inr cc, inl refl)
choice false y true a c ttl h = (inr cc, inr refl)
choice false y false a c ttl h = absurd cc

-- A lifetime between the configured bounds.
abbrev pub InBounds : RuntimeConfig → ℕ → Type 0
InBounds c ttl = (c.cache_min_ttl ≤ ttl) × (ttl ≤ max c.cache_max_ttl c.cache_min_ttl)

clamped : (c : RuntimeConfig) (t ttl : ℕ) → ttl ≡ clamp_ttl c t → InBounds c ttl
clamped c t ttl e =
    let same = (clamp_ttl-max-min c t).0 in (omega (arith, e, same), omega (arith, e, same))

-- Only answers with the code NoError or NXDomain are given a lifetime, and it lies between the
-- configured bounds.
pub cache_ttl-bounds :
    (c : RuntimeConfig) (raw : Bytes) (offset ttl : ℕ)
    → cache_ttl c raw offset ≡ some ttl
    → Cacheable raw × InBounds c ttl
unfolding cache_ttl
cache_ttl-bounds c raw offset ttl h = elim (Option-cases (get_elem? raw 3)) [
  | inl e ↦ let got = rw (cache_ttl, e) at h in absurd (cc got)
  | inr (b, e) ↦
      let got = rw (cache_ttl, e) at h in
      let (which, code) = choice (b % 16 == 0) (ltb 0 (ancount raw)) (b % 16 == 3) _ _ ttl got in
      let long : 4 ≤ length raw = get_elem?-lt raw 3 e in
      (
        (
          long,
          elim code [
            | inl z ↦ inl (code_0 raw b e ((==_iff (b % 16) 0).0 z))
            | inr z ↦ inr (code_3 raw b e ((==_iff (b % 16) 3).0 z))
          ],
        ),
        elim which [ inl z ↦ clamped c _ ttl z | inr z ↦ clamped c _ ttl z ],
      )
]

module _ (moka : Moka) where
  -- Every answer that the cache can still return is one that may be cached.
  abbrev pub HoldsCacheable : moka.Store → Type 0
  HoldsCacheable l1 = (t : ℕ) (k : Str) (e : L1Entry) → moka.get t k l1 ≡ some e → Cacheable e.raw

module _ (db : Database) (moka : Moka) (laws : Expires moka) (h : Heapless)
    (names : TypeNames) where
  same_life : (v : L1Entry) → expire_after_create v ≡ expire_after_update v
  unfolding expire_after_create expire_after_update
  same_life v = refl

  add_dns_query_moka-HoldsCacheable :
      (now : ℕ) (q : Query) (raw : Bytes) (ttl : ℕ) (l1 : moka.Store)
      → Cacheable raw
      → HoldsCacheable moka l1
      → HoldsCacheable moka (add_dns_query_moka db moka h names now q raw ttl l1)
  unfolding add_dns_query_moka
  add_dns_query_moka-HoldsCacheable now q raw ttl l1 fit held t k e got =
      elim (Bool-cases (str_eq k (query_key h names q))) [
        | inl same ↦
            let key : k ≡ query_key h names q = (str_eq_iff k (query_key h names q)).0 same in
            let (entry, soon) =
              laws.get_insert expire_after_create expire_after_update now t (query_key h names q) _
                e l1 same_life (rw key at got) in
            rw entry fit
        | inr other ↦ held t k e (
            laws.get_insert_other expire_after_create expire_after_update now t
              (query_key h names q) k _ e l1
              (λ key. cc ((str_eq_iff k (query_key h names q)).1 key, other)) got)
      ]

  pub remember-HoldsCacheable :
      (clock : Clock) (q : Query) (raw : Bytes) (p : Proxy db.Pool moka.Store)
      → HoldsCacheable moka p.l1
      → HoldsCacheable moka (remember db moka h names clock q raw p)
  unfolding remember
  remember-HoldsCacheable clock q raw p held =
      elim (Option-cases (cache_ttl p.config raw q.answer_offset)) [
        | inl e ↦ rw (remember, e) held
        | inr (ttl, e) ↦
            let (fit, within) = cache_ttl-bounds p.config raw q.answer_offset ttl e in
            rw (remember, e) (add_dns_query_moka-HoldsCacheable clock.store q raw ttl p.l1 fit held)
      ]
