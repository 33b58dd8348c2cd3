-- ===== src/Api/Settings.antt =====
-- backend/src/api/mod.rs and backend/src/config.rs: the configuration in memory and in the
-- database.
pub mod Kept
use denis.Api.{ApiError, ApiResponse, ok_response, internal}
use denis.Base.{Option, none, some, Result, ok, err, ◌≡◌}
use denis.Config.{RuntimeConfig, RuntimeConfigPatch, apply_to}
use denis.Text.{Str}

-- The table `settings`, which has one row at most; `err` is an error of `sqlx` with its message.
pub record Settings : Type 1 where
  pub Pool : Type 0
  pub ensure_table : Pool → Result Str Pool
  pub select_config : Pool → Result Str (Option Str)
  pub upsert_config : Str → Pool → Result Str Pool

-- What the program relies on: a query that succeeds finds the row that was written, also once the
-- table has been created again where it is missing.
pub record KeepsRow (table : Settings) : Type 0 where
  pub select_after :
      (s : Str) (before after again : table.Pool) (row : Option Str)
      → table.upsert_config s before ≡ ok after
      → table.ensure_table after ≡ ok again
      → table.select_config again ≡ ok row
      → row ≡ some s

-- `serde_json` on `RuntimeConfig`.
pub record Serde : Type 0 where
  pub to_string : RuntimeConfig → Str
  pub from_str : Str → Option RuntimeConfig
  pub from_str-to_string : (c : RuntimeConfig) → from_str (to_string c) ≡ some c

module _ (table : Settings) (json : Serde) where
  unfoldable pub persist : table.Pool → RuntimeConfig → Result Str table.Pool
  persist pool config = table.upsert_config (json.to_string config) pool

  abbrev readable : Option Str → Option RuntimeConfig
  readable none = none
  readable (some s) = json.from_str s

  -- The stored configuration if there is one that can be read, else the defaults, which are stored.
  abbrev pub load_from :
      table.Pool → RuntimeConfig → Option RuntimeConfig → Result Str (RuntimeConfig × table.Pool)
  load_from pool defaults (some cfg) = ok (cfg, pool)
  load_from pool defaults none = elim (persist pool defaults) [
    | ok pool' ↦ ok (defaults, pool')
    | err e ↦ err e
  ]

  unfoldable pub load_or_init : table.Pool → RuntimeConfig → Result Str (RuntimeConfig × table.Pool)
  load_or_init pool defaults = elim (table.ensure_table pool) [
    | err e ↦ err e
    | ok pool' ↦ elim (table.select_config pool') [
      | err e ↦ err e
      | ok existing ↦ load_from pool' defaults (readable existing)
    ]
  ]

  -- The shared configuration and the pool behind the handler.
  pub record Shared : Type 0 where
    pub config : RuntimeConfig
    pub pool : table.Pool

  unfoldable pub patch_config :
      RuntimeConfigPatch → Shared → Result ApiError (ApiResponse RuntimeConfig) × Shared
  patch_config patch s =
      let merged = apply_to patch s.config in
      elim (persist s.pool merged) [
        | err e ↦ (err (internal e), s)
        | ok pool' ↦ (ok (ok_response merged), record { config = merged; pool = pool' })
      ]
