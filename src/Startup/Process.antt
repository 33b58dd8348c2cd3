-- ===== src/Startup/Process.antt =====
-- backend/src/main.rs from its first line to its last: how the program comes to serve, and with
-- what it ends.
pub mod Pins
pub mod Aborts
pub mod Datapath
pub mod Lasting
use denis.Acl.{Networks}
use denis.Analytics.Clients.{Rdkafka, ChClient}
use denis.Api.Router.{Outside, Moment}
use denis.Base.{Bool, ℕ, Option, none, some, List, [], ◌∷◌, ◌++◌, map, Result, ok, err}
use denis.Config.{RuntimeConfig, SocketAddr}
use denis.Dns.Server.{ServerError, Event, Incoming, Running, new_server, run, serve_tcp}
use denis.Dns.Udp.{ServerConfig, Capacities, udp_buffer_size, udp_buffer_count}
use denis.Handler.Parser.{Query}
use denis.Handler.Serve.{Moka, Proxy, UpstreamError}
use denis.Handler.Upstream.{ResponseCode, UpstreamResponse}
use denis.Repo.Database.{Database}
use denis.Repo.Key.{Heapless, TypeNames}
use denis.Startup.Exits.{
  Exit, returned, panicked, ApiTask, api_task, ended_by, spawn_ends, api_ends, thread_ends, Panics,
}
use denis.Startup.Launch.{Socket2, Fate, Monoio, run_thread, launch}
use denis.Startup.Opening.{Db, SqlxPool, connect}
use denis.Startup.Start.{Connected, Started, start}
use denis.Startup.{Cli, Runtime, tokio, monoio, dp_pins, tk_pins}
use denis.Text.{Str, codes}

-- What ends the process and what becomes of its tasks. `ends` are the ends that the main thread,
-- the tasks and the threads come to; the first in time is the process's, and without one it goes
-- on to serve. `api` is there once its task was spawned; `tcp` is the error of the listener
-- beside the workers of monoio, which is logged; `workers` is what becomes of their threads.
pub record Process : Type 0 where
  pub ends : List Exit
  pub api : Option ApiTask
  pub tcp : Option ServerError
  pub workers : List Fate

-- The build, and the errors of the crates and of the system, if there are any, with the cores that
-- are listed.
pub record Host (Sock Core : Type 0) : Type 0 where
  pub panics : Panics
  pub logger : Option Str
  pub cores : Option (List Core)
  pub parallelism : Option ℕ
  pub runtime : Option Str
  pub api_bind : Option Str
  pub api_serve : Option Str
  pub udp_bind : Option Str
  pub tcp_bind : Option Str
  pub rt : Monoio Sock
  pub spawn : Option Str

-- What arrives at the servers of either runtime.
pub record Traffic (Addr Pool : Type 0) : Type 0 where
  pub events : List (Event Addr Pool)
  pub accepted : List (Incoming Addr)

abbrev pub remainder_by_zero : Str
remainder_by_zero = codes "attempt to calculate the remainder with a divisor of zero"

-- An end before any task was spawned.
abbrev pub stopped : Exit → Process
stopped exit = record { ends = exit ∷ []; api = none; tcp = none; workers = [] }

-- The pins of the threads: of those for queries, and on monoio of tokio's.
unfoldable pub pins : {Sock Core : Type 0} → Cli → Host Sock Core → Result Str (List (Option Core))
pins cli host = elim (dp_pins cli.dns host.cores host.parallelism) [
  | none ↦ err remainder_by_zero
  | some dp ↦ elim cli.dns.runtime [
    | tokio ↦ ok dp
    | monoio ↦ elim (tk_pins cli.dns host.cores host.parallelism) [
      | none ↦ err remainder_by_zero
      | some tk ↦ ok dp
    ]
  ]
]

abbrev pub server_config : Cli → ServerConfig SocketAddr
server_config cli = record {
  bind_addr = cli.dns.dns_bind;
  buffer_size = udp_buffer_size;
  buffer_count = udp_buffer_count;
}

module _ (o : Outside) (nets : Networks) (kafka : Rdkafka) (clickhouse : ChClient)
    (moka : Moka) where
  -- `Cache::new` and `QueryHandler::new`: what a handler reaches. `build` is the builder of moka,
  -- given a capacity.
  unfoldable pub new_handler :
      (ℕ → moka.Store) → Cli → Started o nets kafka clickhouse → Proxy o.db.Pool moka.Store
  new_handler build cli st = record {
    lists = st.state.cache;
    l1 = build cli.redis.cache_capacity;
    config = st.state.settings.config;
    sent = [];
  }

module _ (calls : Socket2) (digits : ℕ → Str) where
  -- What becomes of the threads, once all are spawned.
  abbrev pub fates : {Core : Type 0} → Cli → List (Option Core) → Host calls.Sock Core → List Fate
  fates cli dp host = map (λ w. run_thread host.rt w.std_sock) (launch calls digits cli dp).workers

module _ (db : Database) (caps : Capacities) (moka : Moka) (h : Heapless) (names : TypeNames)
    (number : ResponseCode → ℕ)
    (resolve : ℕ → RuntimeConfig → Query → Result UpstreamError UpstreamResponse)
    (show : SocketAddr → Str) (calls : Socket2) (digits : ℕ → Str) where
  -- The end of `run`, from the task of the management API on: on tokio the server's error ends the
  -- process; on monoio `main` waits for ever beside `serve_tcp` once the threads are spawned.
  unfoldable pub run_datapath :
      {Core : Type 0}
      → Cli
      → List (Option Core)
      → Host calls.Sock Core
      → Traffic SocketAddr db.Pool
      → Proxy db.Pool moka.Store
      → Process
  run_datapath cli dp host traffic p =
      let s = new_server caps (server_config cli) p in
      elim cli.dns.runtime [
        | tokio ↦ record {
          ends =
              ended_by
                (run caps db moka h names number resolve show (server_config cli) host.udp_bind
                  host.tcp_bind traffic.events s).0
              ++ api_ends host.panics (api_task host.api_bind host.api_serve);
          api = some (api_task host.api_bind host.api_serve);
          tcp = none;
          workers = [];
        }
        | monoio ↦ elim host.spawn [
          | some e ↦ record {
            ends =
                spawn_ends (some e) ++ api_ends host.panics (api_task host.api_bind host.api_serve);
            api = some (api_task host.api_bind host.api_serve);
            tcp = none;
            workers = [];
          }
          | none ↦ record {
            ends =
                thread_ends host.panics (fates calls digits cli dp host)
                ++ api_ends host.panics (api_task host.api_bind host.api_serve);
            api = some (api_task host.api_bind host.api_serve);
            tcp =
                (serve_tcp caps db moka h names number resolve show cli.dns.dns_bind host.tcp_bind
                  traffic.accepted s).0;
            workers = fates calls digits cli dp host;
          }
        ]
      ]

module _ (o : Outside) (nets : Networks) (kafka : Rdkafka) (clickhouse : ChClient) (sqlx : SqlxPool)
    (backend : Db) where
  -- The connection to the database, and what it gives access to.
  abbrev pub reached :
      Cli
      → (sqlx.Pool → Connected o nets kafka clickhouse)
      → Option (Connected o nets kafka clickhouse)
  reached cli access =
      elim (connect sqlx backend cli.database.database_url cli.database.max_connections) [
        | ok pool ↦ some (access pool)
        | err e ↦ none
      ]

module _ (o : Outside) (nets : Networks) (kafka : Rdkafka) (clickhouse : ChClient) (sqlx : SqlxPool)
    (backend : Db) (caps : Capacities) (moka : Moka) (h : Heapless) (names : TypeNames)
    (number : ResponseCode → ℕ)
    (resolve : ℕ → RuntimeConfig → Query → Result UpstreamError UpstreamResponse)
    (show : SocketAddr → Str) (calls : Socket2) (digits : ℕ → Str) where
  -- `main`, with `run` behind it.
  unfoldable pub main :
      {Core : Type 0}
      → (ℕ → moka.Store)
      → Bool
      → Cli
      → Host calls.Sock Core
      → Moment
      → (sqlx.Pool → Connected o nets kafka clickhouse)
      → Traffic SocketAddr o.db.Pool
      → Process
  main build analytics cli host m access traffic = elim host.logger [
    | some e ↦ stopped (panicked (codes "failed to init logger"))
    | none ↦ elim (pins cli host) [
      | err e ↦ stopped (panicked e)
      | ok dp ↦ elim host.runtime [
        | some e ↦ stopped (returned e)
        | none ↦
            elim (start o nets kafka clickhouse analytics cli m
              (reached o nets kafka clickhouse sqlx backend cli access)) [
                | err e ↦ stopped (panicked e)
                | ok st ↦
                    run_datapath o.db caps moka h names number resolve show calls digits cli dp host
                      traffic (new_handler o nets kafka clickhouse moka build cli st)
              ]
      ]
    ]
  ]
