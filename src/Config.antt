-- ===== src/Config.antt =====
-- backend/src/config.rs: the runtime configuration and its patches.
pub mod Clamp
use denis.Base.{ℕ, Option, none, some, List, Bytes, [], ◌∷◌, max, ◌==◌, ltb, if◌then◌else◌}

-- An address of a resolver, of which only the identity matters.
abbrev pub SocketAddr : Type 0
SocketAddr = ℕ

pub data BlockingMode : Type 0 where
  nx_domain refused zero_ip : BlockingMode

pub data IpAddr : Type 0 where
  v4 : Bytes → IpAddr
  v6 : Bytes → IpAddr

abbrev pub default_neg_ttl : ℕ
default_neg_ttl = 60

pub record RuntimeConfig : Type 0 where
  pub upstreams : List SocketAddr
  pub upstream_timeout_ms : ℕ
  pub blocking_mode : BlockingMode
  pub cache_min_ttl : ℕ
  pub cache_max_ttl : ℕ
  pub neg_ttl : ℕ

-- `from_cli`, of the two arguments that it reads.
unfoldable pub from_cli : List SocketAddr → ℕ → RuntimeConfig
from_cli servers timeout_ms = record {
  upstreams = servers;
  upstream_timeout_ms = timeout_ms;
  blocking_mode = nx_domain;
  cache_min_ttl = 0;
  cache_max_ttl = 86_400;
  neg_ttl = default_neg_ttl;
}

-- `Ord::clamp`, whose bounds are in order here.
abbrev clamp : ℕ → ℕ → ℕ → ℕ
clamp x lo hi = if ltb x lo then lo else if ltb hi x then hi else x

unfoldable pub clamp_ttl : RuntimeConfig → ℕ → ℕ
clamp_ttl c ttl = clamp ttl c.cache_min_ttl (max c.cache_max_ttl c.cache_min_ttl)

-- `RuntimeConfig::zero_ip`: type 1 is A, type 28 is AAAA.
unfoldable pub zero_ip_of : ℕ → Option IpAddr
zero_ip_of qtype =
    if qtype == 1
    then some (v4 (0 ∷ 0 ∷ 0 ∷ 0 ∷ []))
    else if qtype == 28
    then some (v6 (0 ∷ 0 ∷ 0 ∷ 0 ∷ 0 ∷ 0 ∷ 0 ∷ 0 ∷ 0 ∷ 0 ∷ 0 ∷ 0 ∷ 0 ∷ 0 ∷ 0 ∷ 0 ∷ []))
    else none

pub record RuntimeConfigPatch : Type 0 where
  pub upstreams : Option (List SocketAddr)
  pub upstream_timeout_ms : Option ℕ
  pub blocking_mode : Option BlockingMode
  pub cache_min_ttl : Option ℕ
  pub cache_max_ttl : Option ℕ
  pub neg_ttl : Option ℕ

abbrev unwrap_or {ℓ} : {A : Type ℓ} → Option A → A → A
unwrap_or (some a) d = a
unwrap_or none d = d

unfoldable pub apply_to : RuntimeConfigPatch → RuntimeConfig → RuntimeConfig
apply_to p base = record {
  upstreams = unwrap_or p.upstreams base.upstreams;
  upstream_timeout_ms = unwrap_or p.upstream_timeout_ms base.upstream_timeout_ms;
  blocking_mode = unwrap_or p.blocking_mode base.blocking_mode;
  cache_min_ttl = unwrap_or p.cache_min_ttl base.cache_min_ttl;
  cache_max_ttl = unwrap_or p.cache_max_ttl base.cache_max_ttl;
  neg_ttl = unwrap_or p.neg_ttl base.neg_ttl;
}
