-- ===== src/Tests/Starting.antt =====
-- Examples of the theorems on the start, the router and the pages.
use denis.Acl.{fetch, load}
use denis.Analytics.Clients.{new_consumer, build_kafka}
use denis.Api.Auth.Handlers.{unauthorized_error, bearer, session_answer}
use denis.Api.Auth.Hex.{random_token}
use denis.Api.Auth.{hash_password, session_ttl, new_auth, ensure_schema}
use denis.Api.Router.Passing.{router-refused}
use denis.Api.Router.{refusal, login_reply, router, get_users, post_login}
use denis.Api.Settings.{load_or_init, persist}
use denis.Base.Int.{pos}
use denis.Base.{
  take, get_elem?, length, ◌-◌, ◌+◌, ℕ, true, Option, none, some, List, [], ◌∷◌, ok, map, length,
  take, ◌≡◌, refl, arith,
}
use denis.Config.{from_cli}
use denis.Repo.Cache.Durable.{Agrees}
use denis.Repo.Cache.{read_allowlist_db_memory, read_blocklist_db_memory}
use denis.Repo.Pages.{ensure_tables}
use denis.Startup.Start.Ready.{start-Agrees, start-login}
use denis.Startup.Start.{Connected, Started, start, assemble, read_lists, new_cache}
use denis.Startup.Launch.{launch, thread_core}
use denis.Startup.Launch.Pinned.{launch-cores}
use denis.Startup.{Cli, monoio, dp_pins, tk_pins, tokio_workers}
use denis.Tests.Accounting.{accounts-Sql, plain, plain-Verifies, find_user_row}
use denis.Tests.Admitting.{hosts}
use denis.Tests.Managing.{json}
use denis.Tests.Outside.{outside, moment, api, rdkafka, clickhouse, plain_sockets, no_digits}
use denis.Tests.Samples.{tables}
use denis.Text.{codes, str_eq}

router-refused_example :
    let after = router outside none (moment 5) get_users api in
    (after.0 ≡ refusal unauthorized_error)
    × (after.1.cache ≡ api.cache)
    × (after.1.settings ≡ api.settings)
    × (after.1.metrics ≡ api.metrics)
    × (after.1.auth.pool ≡ api.auth.pool)
unfolding bearer
router-refused_example = router-refused outside none (moment 5) get_users api refl (λ never. never)

abbrev pub cli : Cli
cli = record {
  dns = record { dns_bind = 53; runtime = monoio; dns_workers = none; other_workers = 2 };
  api = record { api_bind = 8080 };
  upstream = record { servers = 9 ∷ []; timeout_ms = 5000 };
  redis = record { redis_url = []; cache_capacity = 10_000 };
  database = record { database_url = []; max_connections = 16 };
  kafka = record { kafka_brokers = [] };
  clickhouse = record { clickhouse_url = []; clickhouse_user = []; clickhouse_password = [] };
  analytics = record { clickhouse = true; prometheus = true };
  verbose = 0;
}

abbrev pub pools : Connected outside hosts rdkafka clickhouse
pools = record {
  lists_pool = (codes "ads.io" ∷ [], []);
  access_table = true;
  access = some [];
  settings_pool = none;
  accounts_pool = ([], []);
}

abbrev started : Started outside hosts rdkafka clickhouse
started =
    assemble outside hosts rdkafka clickhouse true cli (codes "ads.io" ∷ [], []) []
      (from_cli (9 ∷ []) 5000, some (json.to_string (from_cli (9 ∷ []) 5000))) (some 0)
      (some (record { consumer = 0; ch = 0 }))
      (record {
        pool = (
          record {
            id = pos 0;
            username = codes "admin";
            password_hash = hash_password plain [] (codes "admin");
          }
              ∷ [],
          [],
        );
        sessions = [];
      })

starts : start outside hosts rdkafka clickhouse true cli (moment 0) (some pools) ≡ ok started
unfolding start build_kafka new_consumer ensure_tables load fetch load_or_init persist new_auth
    ensure_schema
starts = refl

start-Agrees_example : Agrees tables started.state.cache × (started.state.auth.sessions ≡ [])
unfolding assemble read_lists read_allowlist_db_memory read_blocklist_db_memory new_cache
start-Agrees_example =
    start-Agrees outside hosts rdkafka clickhouse true cli (moment 0) (some pools) started starts
      refl

start-login_example :
    (router outside none
      (moment 9)
      (post_login (record { username = codes "admin"; password = codes "admin" }))
      started.state).0
    ≡ login_reply (session_answer (some (random_token (1 ∷ 171 ∷ []), session_ttl)))
unfolding assemble ensure_schema hash_password find_user_row str_eq
start-login_example =
    start-login outside hosts rdkafka clickhouse accounts-Sql plain-Verifies true cli (moment 0)
      (moment 9) pools started none ([], []) (some (pos 0, codes "admin")) starts refl refl refl

launch-cores_example :
    (dp : List (Option ℕ)) × (tk : List (Option ℕ)) × (dp_pins cli.dns
        (some (10 ∷ 11 ∷ 12 ∷ 13 ∷ []))
        none
      ≡ some dp)
    × (tk_pins cli.dns (some (10 ∷ 11 ∷ 12 ∷ 13 ∷ [])) none ≡ some tk)
    × (map (λ w. w.core) (launch plain_sockets no_digits cli dp).workers
        ≡ map some (take (4 - tokio_workers cli.dns) (10 ∷ 11 ∷ 12 ∷ 13 ∷ [])))
    × (thread_core tk 1 ≡ some (get_elem? (10 ∷ 11 ∷ 12 ∷ 13 ∷ []) (4 - tokio_workers cli.dns + 1)))
    × ((launch plain_sockets no_digits cli dp).cold_paths
        ≡ length (launch plain_sockets no_digits cli dp).workers)
unfolding tokio_workers
launch-cores_example =
    launch-cores plain_sockets no_digits cli (10 ∷ 11 ∷ 12 ∷ 13 ∷ []) none 1 refl refl (omega arith)
      (omega arith)
