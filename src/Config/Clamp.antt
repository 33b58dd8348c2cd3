-- ===== src/Config/Clamp.antt =====
-- What `clamp_ttl` and `apply_to` of backend/src/config.rs promise.
use denis.Base.{ℕ, Option, none, some, max, min, ◌≡◌, arith}
use denis.Config.{RuntimeConfig, RuntimeConfigPatch, clamp_ttl, apply_to}

-- The lifetime is the one asked for, brought down to the upper bound and then up to the lower one,
-- which wins if the bounds are crossed; and clamping a second time changes nothing.
pub clamp_ttl-max-min :
    (c : RuntimeConfig) (ttl : ℕ)
    → (clamp_ttl c ttl ≡ max c.cache_min_ttl (min ttl c.cache_max_ttl))
      × (clamp_ttl c (clamp_ttl c ttl) ≡ clamp_ttl c ttl)
unfolding clamp_ttl
clamp_ttl-max-min c ttl = (ground arith, ground arith)

abbrev or_else {ℓ} : {A : Type ℓ} → Option A → Option A → Option A
or_else (some a) o = some a
or_else none o = o

-- Two patches as one: the later one wins in each field that it sets.
abbrev pub then_patch : RuntimeConfigPatch → RuntimeConfigPatch → RuntimeConfigPatch
then_patch p q = record {
  upstreams = or_else q.upstreams p.upstreams;
  upstream_timeout_ms = or_else q.upstream_timeout_ms p.upstream_timeout_ms;
  blocking_mode = or_else q.blocking_mode p.blocking_mode;
  cache_min_ttl = or_else q.cache_min_ttl p.cache_min_ttl;
  cache_max_ttl = or_else q.cache_max_ttl p.cache_max_ttl;
  neg_ttl = or_else q.neg_ttl p.neg_ttl;
}

-- Applying one patch after another is applying the one in which the later wins, field by field.
pub apply_to-then_patch :
    (p q : RuntimeConfigPatch) (base : RuntimeConfig)
    → apply_to q (apply_to p base) ≡ apply_to (then_patch p q) base
unfolding apply_to
apply_to-then_patch p q base = ground arith
