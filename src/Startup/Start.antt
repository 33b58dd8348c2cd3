-- ===== src/Startup/Start.antt =====
-- `run` of backend/src/main.rs, up to the servers: what is loaded and shared. The sockets of the
-- resolvers and the tasks are left out.
pub mod Ready
use denis.Acl.{Networks, AclEntry, Row, load}
use denis.Analytics.Clients.{
  Rdkafka, ChClient, StatsClient, AnalyticsConsumer, kafka_of, new_stats_client, new_consumer,
}
use denis.Analytics.Metrics.{Metrics, new_metrics}
use denis.Analytics.Producer.{Producing, spawn}
use denis.Api.Auth.Rows.{Sqlx}
use denis.Api.Auth.{Auth, new_auth}
use denis.Api.Router.{Outside, Moment, ApiState}
use denis.Api.Settings.{Shared, load_or_init}
use denis.Base.{
  ℕ, Bool, true, false, ◌&&◌, Option, none, some, List, [], ◌∷◌, map, Result, ok, err, ◌>>=◌,
  >>=-eq_ok, if◌then◌else◌, ok_or, expect, ◌≡◌, refl, sym, ap, ◌∙◌,
}
use denis.Config.{RuntimeConfig, from_cli}
use denis.Repo.Cache.Durable.{Agrees}
use denis.Repo.Cache.Reload.{loaded}
use denis.Repo.Cache.{CacheError, Lists, read_blocklist_db_memory, read_allowlist_db_memory}
use denis.Repo.Database.{Database}
use denis.Repo.Pages.{ensure_tables}
use denis.Startup.{Cli, AnalyticsArgs}
use denis.Text.{Str, codes}

-- `Cache::new`, of the lists.
unfoldable pub new_cache : {Pool : Type 0} → Pool → Lists Pool
new_cache pool = record { block_list = []; allow_list = []; pool = pool }

-- `b.then(…)`
abbrev pub when {ℓ} : {A : Type ℓ} → Bool → A → Option A
when b a = if b then some a else none

-- The `analytics` feature and the argument.
abbrev clickhouse_on : Bool → Cli → Bool
clickhouse_on analytics cli = cli.analytics.clickhouse && analytics

abbrev brokers_of : Bool → Cli → Option Str
brokers_of analytics cli = when (clickhouse_on analytics cli) cli.kafka.kafka_brokers

module _ (o : Outside) (nets : Networks) (kafka : Rdkafka) (clickhouse : ChClient) where
  -- The clients of Kafka and ClickHouse, which are there where the analytics are on.
  pub record Clients : Type 0 where
    pub producer : Option kafka.Producer
    pub consumer : Option (AnalyticsConsumer kafka clickhouse)
    pub stats : Option (StatsClient clickhouse)

  -- The task that takes the events from Kafka.
  abbrev pub consumer_of : Bool → Cli → Result Str (Option (AnalyticsConsumer kafka clickhouse))
  consumer_of false cli = ok none
  consumer_of true cli = do
    consumer ←
        new_consumer kafka clickhouse cli.kafka.kafka_brokers (codes "denis-analytics")
          cli.clickhouse.clickhouse_url cli.clickhouse.clickhouse_user
          cli.clickhouse.clickhouse_password
    ok (some consumer)

  abbrev stats_of : Bool → Cli → Option (StatsClient clickhouse)
  stats_of on cli = when on (
      new_stats_client clickhouse cli.kafka.kafka_brokers cli.clickhouse.clickhouse_url
        cli.clickhouse.clickhouse_user cli.clickhouse.clickhouse_password)

  -- What the connection to the database gives access to. Of the access list it tells
  -- whether the table can be made, and the rows of the query; `none` is an error of the query.
  pub record Connected : Type 0 where
    pub lists_pool : o.db.Pool
    pub access_table : Bool
    pub access : Option (List Row)
    pub settings_pool : o.table.Pool
    pub accounts_pool : o.accounts.Pool

  pub record Started : Type 0 where
    pub state : ApiState o
    pub acl : List (AclEntry nets.Net)
    pub producing : Producing
    pub clients : Clients

  -- The lists as they are once both have been read.
  unfoldable pub read_lists : Lists o.db.Pool → Lists o.db.Pool
  read_lists c = read_allowlist_db_memory o.db (read_blocklist_db_memory o.db c)

  -- The state behind the servers; `analytics` is the feature that the program is built with.
  unfoldable pub assemble :
      Bool
      → Cli
      → o.db.Pool
      → List (AclEntry nets.Net)
      → RuntimeConfig × o.table.Pool
      → Option kafka.Producer
      → Option (AnalyticsConsumer kafka clickhouse)
      → Auth o.accounts.Pool
      → Started
  assemble analytics cli lists_pool acl (config, settings_pool) producer consumer auth =
      let metrics = when cli.analytics.prometheus new_metrics in
      let brokers = brokers_of analytics cli in
      record {
        state = record {
          cache = read_lists (new_cache lists_pool);
          brokers = brokers;
          metrics = metrics;
          settings = record { config = config; pool = settings_pool };
          auth = auth;
        };
        acl = acl;
        producing = spawn metrics brokers;
        clients = record {
          producer = producer;
          consumer = consumer;
          stats = stats_of (clickhouse_on analytics cli) cli;
        };
      }

  -- `run`; the `redis` feature is off.
  unfoldable pub start : Bool → Cli → Moment → Option Connected → Result Str Started
  start analytics cli m connected = do
    pools ← ok_or connected (codes "cannot connect to database")
    lists_pool ←
        expect (codes "failed to create blocklist/allowlist tables")
          (ensure_tables o.pages pools.lists_pool)
    acl ←
        ok_or (load nets pools.access_table pools.access)
          (codes "failed to load access control list")
    settings ← expect (codes "failed to load runtime config") (
        load_or_init o.table o.json pools.settings_pool
          (from_cli cli.upstream.servers cli.upstream.timeout_ms))
    producer ← kafka_of kafka (brokers_of analytics cli)
    consumer ← consumer_of (clickhouse_on analytics cli) cli
    auth ←
        expect (codes "failed to init auth")
          (new_auth o.accounts o.argon o.sha256 m.salt m.now.unix pools.accounts_pool)
    ok (assemble analytics cli lists_pool acl settings producer consumer auth)
