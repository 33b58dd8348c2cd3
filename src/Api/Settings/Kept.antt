-- ===== src/Api/Settings/Kept.antt =====
-- A patched configuration survives a restart, and a failed patch changes nothing.
use denis.Api.Settings.{Settings, KeepsRow, Serde, Shared, persist, load_or_init, patch_config}
use denis.Api.{ApiError, ApiResponse}
use denis.Base.{Option, ok, err, inl, inr, ◌≡◌, refl, Result-cases}
use denis.Config.{RuntimeConfig, RuntimeConfigPatch, apply_to}
use denis.Text.{Str}

module _ (table : Settings) (laws : KeepsRow table) (json : Serde) where
  patched :
      (patch : RuntimeConfigPatch) (s : Shared table json) (a : ApiResponse RuntimeConfig)
      → (patch_config table json patch s).0 ≡ ok a
      → let after = (patch_config table json patch s).1 in
        (after.config ≡ apply_to patch s.config)
        × (table.upsert_config (json.to_string (apply_to patch s.config)) s.pool ≡ ok after.pool)
  unfolding patch_config persist
  patched patch s a h =
      elim (Result-cases (table.upsert_config (json.to_string (apply_to patch s.config)) s.pool)) [
        | inl (e, failed) ↦ let got = rw (patch_config, persist, failed) at h in absurd (cc got)
        | inr (pool, stored) ↦ rw (patch_config, persist, stored) (refl, refl)
      ]

  -- After a patch that succeeded, the configuration in memory is the merged one, and a restart
  -- with any defaults loads the same one from the database and writes nothing, provided that the
  -- table is still found and the query for the row succeeds.
  pub patch_config-load_or_init :
      (patch : RuntimeConfigPatch) (s : Shared table json) (a : ApiResponse RuntimeConfig)
      (defaults : RuntimeConfig) (again : table.Pool) (row : Option Str)
      → (patch_config table json patch s).0 ≡ ok a
      → table.ensure_table (patch_config table json patch s).1.pool ≡ ok again
      → table.select_config again ≡ ok row
      → ((patch_config table json patch s).1.config ≡ apply_to patch s.config)
        × (load_or_init table json (patch_config table json patch s).1.pool defaults
            ≡ ok (apply_to patch s.config, again))
  unfolding load_or_init
  patch_config-load_or_init patch s a defaults again row h found selected =
      let (merged, stored) = patched patch s a h in
      let kept = laws.select_after _ s.pool _ again row stored found selected in
      let read = json.from_str-to_string (apply_to patch s.config) in
      (merged, rw (load_or_init, found, selected, kept, read) refl)

module _ (table : Settings) (json : Serde) where
  -- A patch that fails changes neither the configuration nor the pool.
  pub patch_config-err :
      (patch : RuntimeConfigPatch) (s : Shared table json) (e : ApiError)
      → (patch_config table json patch s).0 ≡ err e
      → (patch_config table json patch s).1 ≡ s
  unfolding patch_config
  patch_config-err patch s e h =
      elim (Result-cases (persist table json s.pool (apply_to patch s.config))) [
        | inl (u, failed) ↦ rw (patch_config, failed) refl
        | inr (pool, stored) ↦ let got = rw (patch_config, stored) at h in absurd (cc got)
      ]
