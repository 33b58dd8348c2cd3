-- ===== src/Tests/Managing.antt =====
-- Examples of the theorems on the management interface.
use denis.Api.Lists.{block_add_bulk, from_outcome}
use denis.Api.Settings.Kept.{patch_config-load_or_init}
use denis.Api.Settings.{Settings, KeepsRow, Serde, Shared, patch_config, load_or_init, persist}
use denis.Api.{internal, ok_response}
use denis.Base.{ℕ, ◌==◌, if◌then◌else◌, Option, none, some, List, [], ◌∷◌, ok, err, ◌≡◌, refl, ap}
use denis.Config.{
  BlockingMode, nx_domain, refused, zero_ip, RuntimeConfig, RuntimeConfigPatch, apply_to,
}
use denis.Repo.Cache.Allowed.{AgreesAllowed}
use denis.Repo.Cache.{
  CacheError, Lists, add_block_domains, add_allow_domains, insert_chunks, chunks,
}
use denis.Repo.Decide.{contains}
use denis.Repo.Domains.{normalize_domains, is_valid_domain}
use denis.Tests.Samples.{Tables, tables}
use denis.Tests.Serving.{config}
use denis.Text.{codes, Str, str_eq, trim}

abbrev pub unicode : Str → Str
unicode s = s

abbrev pub show : CacheError → Str
show e = codes "cache sql"

abbrev lists : Lists Tables
lists = record {
  block_list = codes "ads.io" ∷ [];
  allow_list = [];
  pool = (codes "ads.io" ∷ [], []);
}

abbrev given : List Str
given = codes " Spam.net. " ∷ codes "nodot" ∷ codes "ads.io" ∷ []

bulk :
    (block_add_bulk show tables unicode given lists).0
    ≡ ok (ok_response (record { added = 1; skipped = 1; invalid = 1 }))
unfolding block_add_bulk add_block_domains normalize_domains is_valid_domain trim insert_chunks
    chunks contains str_eq from_outcome
bulk = refl

allows :
    (add_allow_domains tables unicode given lists).0 ≡ ok (record { added = 2; considered = 2 })
unfolding add_allow_domains normalize_domains is_valid_domain trim insert_chunks chunks contains
    str_eq
allows = refl

lists-AgreesAllowed : AgreesAllowed tables lists
lists-AgreesAllowed d = refl

-- A table that is a row or none, and configurations that are stored by their address.
abbrev pub row : Settings
row = record {
  Pool = Option Str;
  ensure_table = λ p. ok p;
  select_config = λ p. ok p;
  upsert_config = λ s p. ok (some s);
}

row-KeepsRow : KeepsRow row
row-KeepsRow = record {
  select_after = λ s before after again found stored made selected. cc (stored, made, selected);
}

abbrev pub mode_number : BlockingMode → ℕ
mode_number nx_domain = 0
mode_number refused = 1
mode_number zero_ip = 2

abbrev pub mode_of : ℕ → BlockingMode
mode_of n = if n == 0 then nx_domain else if n == 1 then refused else zero_ip

abbrev pub encode : RuntimeConfig → Str
encode c =
    mode_number c.blocking_mode
    ∷ c.upstream_timeout_ms
    ∷ c.cache_min_ttl
    ∷ c.cache_max_ttl
    ∷ c.neg_ttl
    ∷ c.upstreams

abbrev pub decode : Str → Option RuntimeConfig
decode (m ∷ timeout ∷ lo ∷ hi ∷ neg ∷ servers) = some (record {
  upstreams = servers;
  upstream_timeout_ms = timeout;
  blocking_mode = mode_of m;
  cache_min_ttl = lo;
  cache_max_ttl = hi;
  neg_ttl = neg;
})
decode _ = none

pub mode_of-number : (m : BlockingMode) → mode_of (mode_number m) ≡ m
mode_of-number nx_domain = refl
mode_of-number refused = refl
mode_of-number zero_ip = refl

abbrev pub json : Serde
json = record {
  to_string = encode;
  from_str = decode;
  from_str-to_string =
      λ c. ap (λ m. some (record c { blocking_mode = m })) (mode_of-number c.blocking_mode);
}

abbrev patch : RuntimeConfigPatch
patch = record {
  upstreams = none;
  upstream_timeout_ms = some 250;
  blocking_mode = some zero_ip;
  cache_min_ttl = none;
  cache_max_ttl = none;
  neg_ttl = some 10;
}

abbrev shared : Shared row json
shared = record { config = config; pool = none }

patches : (patch_config row json patch shared).0 ≡ ok (ok_response (apply_to patch config))
unfolding patch_config persist
patches = refl

patch_config-load_or_init_example :
    ((patch_config row json patch shared).1.config ≡ apply_to patch config)
    × (load_or_init row json (patch_config row json patch shared).1.pool config
        ≡ ok (apply_to patch config, (patch_config row json patch shared).1.pool))
unfolding patch_config persist
patch_config-load_or_init_example =
    patch_config-load_or_init row row-KeepsRow json patch shared
      (ok_response (apply_to patch config)) config (patch_config row json patch shared).1.pool
      (some (json.to_string (apply_to patch config))) patches refl refl

-- The same table on a disk that is full.
abbrev full_row : Settings
full_row = record row { upsert_config = λ s p. err (codes "disk full") }

abbrev full_shared : Shared full_row json
full_shared = record { config = config; pool = none }

patch_fails : (patch_config full_row json patch full_shared).0 ≡ err (internal (codes "disk full"))
unfolding patch_config persist
patch_fails = refl
