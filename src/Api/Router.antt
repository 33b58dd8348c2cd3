-- ===== src/Api/Router.antt =====
-- backend/src/api/mod.rs: the routes, their handlers, and the state that they share. `axum`
-- matches paths and reads bodies; a request here is one that it has matched, with the parts that
-- its handler takes.
pub mod Passing
pub mod Effect
use denis.Analytics.Metrics.{Metrics}
use denis.Analytics.Stats.{Kafka, Query, AllStats, get_stats}
use denis.Api.Auth.Handlers.{
  LoginReq, LoginResp, CreateUserReq, PasswordReq, CreateTokenReq, TokenCreated, Changed, Answer,
  unauthorized_error, bearer, admit, login_handler, list_users_handler, create_user_handler,
  set_password_handler, delete_user_handler, create_token_handler, list_tokens_handler,
  revoke_token_handler,
}
use denis.Api.Auth.Rows.{Accounts, Argon2, UserInfo, TokenInfo}
use denis.Api.Auth.{Auth, Now}
use denis.Api.Lists.{
  ApiResult, AddResult, AddUrlReq, BulkResult, Pagination, Removed, block_add_one, block_add_bulk,
  block_add_url, allow_add_one, allow_add_bulk, remove_bulk, remove_one,
}
use denis.Api.Pages.{Page, HealthData, list_blocked, list_allowed, health, metrics_text, get_config}
use denis.Api.Settings.{Settings, Serde, Shared, patch_config}
use denis.Api.{ApiError, ApiResponse, StatusCode, ok_response, service_unavailable}
use denis.Base.Int.{ℤ}
use denis.Base.{ℕ, Bool, true, false, Option, none, some, List, Result, ok, err, if◌then◌else◌}
use denis.Config.{RuntimeConfig, RuntimeConfigPatch}
use denis.Repo.Cache.{CacheError, Lists, CacheStats, stats}
use denis.Repo.Database.{Database}
use denis.Repo.Pages.{Paging}
use denis.Text.{Str, codes}

-- What is not in the repository: the databases and servers, and the crates.
pub record Outside : Type 1 where
  pub db : Database
  pub pages : Paging db.Pool
  pub show : CacheError → Str
  pub unicode : Str → Str
  pub fetch_url : Str → Result Str Str
  pub is_ip : Str → Bool
  pub table : Settings
  pub json : Serde
  pub accounts : Accounts
  pub argon : Argon2
  pub sha256 : Str → List ℕ
  pub encode : Metrics → Str
  pub query : Query
  pub kafka : Kafka

-- What a request meets: the time, what the generators yield, the number of entries in the cache of
-- answers, and whether the blocking task of the statistics ends.
pub record Moment : Type 0 where
  pub now : Now
  pub bytes : List ℕ
  pub salt : Str
  pub entries : ℕ
  pub finished : Bool

-- The routes, with what their handlers take.
pub data Request : Type 0 where
  get_health : Request
  get_metrics : Request
  post_login : LoginReq → Request
  get_blocklist : Pagination → Request
  post_blocklist : Str → Request
  post_blocklist_bulk : List Str → Request
  post_blocklist_url : AddUrlReq → Request
  post_blocklist_remove : List Str → Request
  delete_blocklist : Str → Request
  get_allowlist : Pagination → Request
  post_allowlist : Str → Request
  post_allowlist_bulk : List Str → Request
  get_configuration : Request
  patch_configuration : RuntimeConfigPatch → Request
  get_users : Request
  post_users : CreateUserReq → Request
  delete_users : Str → Request
  patch_user_password : Str → PasswordReq → Request
  get_tokens : Request
  post_tokens : CreateTokenReq → Request
  delete_tokens : ℤ → Request
  get_statistics : Request

-- The routes of `public`; those of `protected` lie behind `require_auth`.
abbrev pub is_public : Request → Bool
is_public get_health = true
is_public get_metrics = true
is_public (post_login req) = true
is_public _ = false

module _ (o : Outside) where
  -- `ApiState`; `brokers` is there where the analytics are on.
  pub record ApiState : Type 0 where
    pub cache : Lists o.db.Pool
    pub brokers : Option Str
    pub metrics : Option Metrics
    pub settings : Shared o.table o.json
    pub auth : Auth o.accounts.Pool

  pub data Reply : Type 0 where
    refusal : ApiError → Reply
    health_reply : ApiResponse HealthData → Reply
    metrics_reply : Result (StatusCode × Str) Str → Reply
    login_reply : Answer LoginResp → Reply
    page_reply : ApiResult (Page Str) → Reply
    add_reply : ApiResult AddResult → Reply
    bulk_reply : ApiResult BulkResult → Reply
    removed_reply : ApiResult Removed → Reply
    config_reply : ApiResult RuntimeConfig → Reply
    users_reply : Answer (List UserInfo) → Reply
    changed_reply : Answer Changed → Reply
    tokens_reply : Answer (List TokenInfo) → Reply
    token_reply : Answer TokenCreated → Reply
    stats_reply : ApiResult (AllStats o.query) → Reply

  -- An answer with the new lists, or the new users, sessions and tokens.
  abbrev pub with_lists :
      {A : Type 0} → (A → Reply) → ApiState → A × Lists o.db.Pool → Reply × ApiState
  with_lists reply s (a, cache) = (reply a, record s { cache = cache })

  abbrev pub with_auth :
      {A : Type 0} → (A → Reply) → ApiState → A × Auth o.accounts.Pool → Reply × ApiState
  with_auth reply s (a, auth) = (reply a, record s { auth = auth })

  abbrev pub with_metrics :
      ApiState → Result (StatusCode × Str) Str × Option Metrics → Reply × ApiState
  with_metrics s (text, metrics) = (metrics_reply text, record s { metrics = metrics })

  abbrev pub with_settings :
      ApiState → ApiResult RuntimeConfig × Shared o.table o.json → Reply × ApiState
  with_settings s (a, settings) = (config_reply a, record s { settings = settings })

  -- The handler `stats`
  abbrev pub statistics : Bool → Option Str → ApiResult (AllStats o.query)
  statistics finished none =
      err (record { status = service_unavailable; message = codes "analytics disabled" })
  statistics finished (some brokers) = ok (ok_response (get_stats o.query o.kafka finished brokers))

  abbrev pub cache_stats : Moment → ApiState → CacheStats
  cache_stats m s = stats o.db s.cache m.entries

  -- The handler of each route.
  unfoldable pub handle : Request → Moment → ApiState → Reply × ApiState
  handle get_health m s = (health_reply (health (cache_stats m s)), s)
  handle get_metrics m s = with_metrics s (metrics_text o.encode (cache_stats m s) s.metrics)
  handle (post_login req) m s =
      with_auth login_reply s (login_handler o.accounts o.argon o.sha256 m.now m.bytes req s.auth)
  handle (get_blocklist p) m s = (page_reply (list_blocked o.pages o.show p s.cache), s)
  handle (post_blocklist domain) m s =
      with_lists add_reply s (block_add_one o.show o.db o.unicode domain s.cache)
  handle (post_blocklist_bulk domains) m s =
      with_lists add_reply s (block_add_bulk o.show o.db o.unicode domains s.cache)
  handle (post_blocklist_url req) m s =
      with_lists add_reply s (block_add_url o.show o.db o.unicode o.fetch_url o.is_ip req s.cache)
  handle (post_blocklist_remove domains) m s =
      with_lists bulk_reply s (remove_bulk o.show o.db o.unicode domains s.cache)
  handle (delete_blocklist domain) m s =
      with_lists removed_reply s (remove_one o.show o.db o.unicode domain s.cache)
  handle (get_allowlist p) m s = (page_reply (list_allowed o.pages o.show p s.cache), s)
  handle (post_allowlist domain) m s =
      with_lists add_reply s (allow_add_one o.show o.db o.unicode domain s.cache)
  handle (post_allowlist_bulk domains) m s =
      with_lists add_reply s (allow_add_bulk o.show o.db o.unicode domains s.cache)
  handle get_configuration m s = (config_reply (get_config s.settings.config), s)
  handle (patch_configuration patch) m s =
      with_settings s (patch_config o.table o.json patch s.settings)
  handle get_users m s =
      with_auth users_reply s (list_users_handler o.accounts o.argon o.sha256 s.auth)
  handle (post_users req) m s =
      with_auth changed_reply s
        (create_user_handler o.accounts o.argon o.sha256 m.now m.salt req s.auth)
  handle (delete_users username) m s =
      with_auth changed_reply s (delete_user_handler o.accounts o.argon o.sha256 username s.auth)
  handle (patch_user_password username req) m s =
      with_auth changed_reply s
        (set_password_handler o.accounts o.argon o.sha256 m.salt username req s.auth)
  handle get_tokens m s =
      with_auth tokens_reply s (list_tokens_handler o.accounts o.argon o.sha256 s.auth)
  handle (post_tokens req) m s =
      with_auth token_reply s
        (create_token_handler o.accounts o.argon o.sha256 m.now m.bytes req s.auth)
  handle (delete_tokens id) m s =
      with_auth changed_reply s (revoke_token_handler o.accounts o.argon o.sha256 id s.auth)
  handle get_statistics m s = (stats_reply (statistics m.finished s.brokers), s)

  -- `require_auth`, in front of the handler `next`.
  unfoldable pub require_auth :
      Option Str → Moment → (ApiState → Reply × ApiState) → ApiState → Reply × ApiState
  require_auth header m next s =
      let (passed, auth) = admit o.accounts o.argon o.sha256 m.now (bearer header) s.auth in
      let s' = record s { auth = auth } in
      if passed then next s' else (refusal unauthorized_error, s')

  -- `router`, on a request and its header `Authorization`.
  unfoldable pub router : Option Str → Moment → Request → ApiState → Reply × ApiState
  router header m request s =
      if is_public request then handle request m s else require_auth header m (handle request m) s
