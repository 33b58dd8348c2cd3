-- ===== src/Api/Pages.antt =====
-- backend/src/api/mod.rs: the handlers that read, the pages of the lists, the health and the
-- metrics.
pub mod Walk
use denis.Analytics.Metrics.{Metrics, render}
use denis.Api.Lists.{ApiResult, Pagination, resolve_page}
use denis.Api.{ApiError, ApiResponse, StatusCode, ok_response, internal, service_unavailable}
use denis.Base.Int.{ℤ, as_signed}
use denis.Base.{ℕ, Option, none, some, List, Result, ok, err, ◌>>=◌}
use denis.Config.{RuntimeConfig}
use denis.Repo.Cache.{CacheError, Lists, CacheStats}
use denis.Repo.Pages.{
  Paging, list_block_domains, count_block_domains, list_allow_domains, count_allow_domains,
}
use denis.Text.{Str, codes}

pub record Page (T : Type 0) : Type 0 where
  pub items : List T
  pub total : ℕ
  pub limit : ℕ
  pub offset : ℕ

pub record HealthData : Type 0 where
  pub status : Str
  pub block_list_size : ℕ
  pub allow_list_size : ℕ
  pub l1_cache_entries : ℕ

-- `as i64`
abbrev pub as_i64 : ℕ → ℤ
as_i64 = as_signed 64

-- `.map_err(ApiError::internal)`
abbrev pub to_internal {ℓ} :
    {A : Type ℓ} → (CacheError → Str) → Result CacheError A → Result ApiError A
to_internal show (ok a) = ok a
to_internal show (err e) = err (internal (show e))

module _ {Pool : Type 0} (pages : Paging Pool) (show : CacheError → Str) where
  unfoldable pub list_blocked : Pagination → Lists Pool → ApiResult (Page Str)
  list_blocked p c =
      let (limit, offset) = resolve_page p in
      do
        items ← to_internal show (list_block_domains pages (as_i64 limit) (as_i64 offset) c)
        total ← to_internal show (count_block_domains pages c)
        ok (ok_response (record { items = items; total = total; limit = limit; offset = offset }))

  unfoldable pub list_allowed : Pagination → Lists Pool → ApiResult (Page Str)
  list_allowed p c =
      let (limit, offset) = resolve_page p in
      do
        items ← to_internal show (list_allow_domains pages (as_i64 limit) (as_i64 offset) c)
        total ← to_internal show (count_allow_domains pages c)
        ok (ok_response (record { items = items; total = total; limit = limit; offset = offset }))

unfoldable pub health : CacheStats → ApiResponse HealthData
health stats = ok_response (record {
  status = codes "ok";
  block_list_size = stats.block_list_size;
  allow_list_size = stats.allow_list_size;
  l1_cache_entries = stats.l1_entry_count;
})

-- The text of the metrics, or the answer where they are off; `encode` is the printer of
-- `prometheus`.
abbrev pub metrics_text :
    (Metrics → Str) → CacheStats → Option Metrics → Result (StatusCode × Str) Str × Option Metrics
metrics_text encode stats none = (err (service_unavailable, codes "prometheus disabled"), none)
metrics_text encode stats (some m) =
    let (body, m') =
      render encode stats.block_list_size stats.allow_list_size stats.l1_entry_count m in
    (ok body, some m')

unfoldable pub get_config : RuntimeConfig → ApiResult RuntimeConfig
get_config config = ok (ok_response config)
