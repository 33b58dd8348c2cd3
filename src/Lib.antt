-- ===== src/Lib.antt =====
-- denis is a DNS proxy in Rust (backend/). A packet is parsed to a query; a query for a name on the
-- block list is answered by the server itself; other answers come from a cache or from upstream
-- resolvers, and every answer is reported to the analytics. The lists and the configuration live in
-- memory and in a database, and a management API changes them. This library models the parts below
-- by functions on values and explicit states.
--
--   Base: shared names, lists over the native numbers, words, `Result`.
--   Text: Rust's texts as their UTF-8 bytes (split, trim, from_utf8_lossy, …).
--   Acl (backend/src/acl.rs): Action::parse (`parse_action`), fetch, reload, decide.
--   Analytics (backend/src/analytics): Metrics, the counters (`record_event`, `render`); Producer,
--   the channel with its two ends (spawn, send, `collect`); Consumer, the batches (flush_batch,
--   `on_round` for a round of run, `ensure_loop` for the one that makes the table); Stats, the
--   figures of StatsClient; Clients, how the clients of Kafka and ClickHouse are made; Pipeline, the
--   way of an event through them; Traffic, the counters against the queries that the handler served.
--   Api (backend/src/api/mod.rs): the answers of the handlers; Api/Lists, the handlers of the lists;
--   Api/Pages, those that read; Api/Settings, patch_config with load_or_init and persist of
--   backend/src/config.rs; Api/Router, all routes over one state, behind require_auth, and in Effect
--   what they do to later queries.
--   Api/Auth (backend/src/api/auth.rs): Auth with login, validate and the operations on users and
--   tokens; Api/Auth/Rows, the tables that they need; Api/Auth/Hex, the texts of tokens;
--   Api/Auth/Handlers, the handlers and the guard.
--   Config (backend/src/config.rs): RuntimeConfig, RuntimeConfigPatch::apply_to, clamp_ttl.
--   Dns/Mono (backend/src/dns/mono.rs): a round of Worker::run, classify, refuse, serve_miss;
--   Dns/Cold, the workers with the queue and the tasks of cold_path, one step (`step`) at a time.
--   Dns/Tcp (backend/src/dns/server.rs): handle_tcp_conn on the bytes of a connection.
--   Dns/Udp (backend/src/dns/server.rs): BufferPool, a round of serve_udp and the end of its task;
--   Dns/Server, Server::run and serve_tcp with the query handler behind them.
--   Handler/Parser (backend/src/handler/parser.rs): parse_udp, with the loop of parse_question one
--   round at a time (`round`, `question_loop`).
--   Handler/Upstream (backend/src/handler/upstream.rs): the answers that UpstreamResponse builds;
--   Handler/Pool, the resolvers: resolve, query_dns, exchange, and in Sockets UpstreamPool::new.
--   Handler/Serve (backend/src/handler/query.rs): cache_ttl, handle_parsed, handle, with l1_get,
--   check_and_get and add_dns_query_moka of backend/src/repo/cache.rs; Handler/Redis, the same with
--   the optional feature `redis` (`handle_both`, add_dns_query_redis).
--   Repo/Decide, Repo/Domains, Repo/ListFile, Repo/Cache, Repo/Key (backend/src/repo/cache.rs): the
--   decision on a name, the validation of domains, downloaded lists, the lists in memory and in the
--   database, the cache's keys; Repo/Pages, the queries for a page.
--   Repo/Database: the SQL statements of cache.rs, whose effects are named hypotheses (`Sql`).
--   Loadgen (backend/examples/loadgen.rs): build_query, which encodes a query; Loadgen/Totals,
--   what worker and main count.
--   Startup (backend/src/main.rs, backend/src/cli.rs): the arguments, the cores of the workers;
--   Startup/Opening, the connection to the database (backend/src/db.rs); Startup/Start, the part of
--   run before the servers; Startup/Launch, the threads and servers that it then starts, with
--   spawn_workers of backend/src/dns/mono.rs; Startup/Process, main as a whole; Startup/Exits, what
--   ends it, where panics unwind or abort (Cargo.toml has the latter for the release build).
--   Clock: now_unix (backend/src/db.rs) and now_ms (backend/src/dns/mono.rs).
--   Tests: the repository's test cases, and the theorems at concrete inputs.
--
-- The parts meet in two records: `Lists` is what the list handlers change and what `is_blocked`
-- reads; `Proxy` adds the cache of answers, the configuration and the events sent, and is what a
-- query changes. The handler takes the resolvers as a function, which Handler/Pool supplies; it is
-- given the number of the call (`Clock.call`), which tells what the network does during the call and
-- which sockets the pool holds then, so that two calls for one query may end differently. The
-- events that it reports are what Analytics/Producer sends. Dns/Cold and Dns/Server put one `Proxy`
-- behind all their tasks, and let the management change its lists between two steps. A request to
-- the management interface changes `ApiState`, which holds `Lists`, the settings, the metrics and
-- `Auth`; Startup/Start makes it.
--
-- Bounds and fuel: numbers are natural numbers, bytes are not bounded unless a statement says so.
-- The loop of parse_question has one round of fuel more than the packet has bytes, since each round
-- moves on; slice::chunks, str::trim and str::split_whitespace have the length of their input, and
-- so has the loop of handle_tcp_conn. A resolver's attempts are as many as the servers; its
-- receiving loop ends with the arrivals. The loop that makes the table of the analytics has as much
-- fuel as tries.
--
-- Parameters: the database with its tables, `moka` (`Expires` says when it may return an entry),
-- `heapless::String`, `serde_json`, `ipnet`, `reqwest`, `argon2`, `sha2`, `rdkafka`, `clickhouse`,
-- `prometheus`, `bytes`, `redis`, `socket2`, `monoio`, `sqlx`, hickory's names of record types and
-- of response codes, the lower case of texts beyond ASCII, and whether a word of a downloaded list
-- is an IP address. The tables of the lists, the settings and the accounts are taken as pools of
-- their own. Time is given to a function as the instants that it reads, and so are the bytes that
-- a random generator yields. Numbers of type i64 are integers, whose sums are taken not to
-- overflow. Asynchronous calls are ordinary calls: each function is modelled between two other
-- tasks' steps, and where tasks run side by side (the producer, the workers with the tasks of
-- cold_path, the server on tokio) the steps come in any order; there a call of the handler is one
-- step, and so is a connection over TCP, with what its client sends until it closes it: a client
-- that falls silent inside a message holds its task until then. The records for
-- Kafka are those handed to its client, whose failures the program drops.
--
-- Not modelled: what is logged, matching of paths and reading of bodies by `axum`, clap's reading
-- of arguments, and the warming up and the output of the load generator: all of it calls of crates
-- and of the system. Of the logger, of the runtimes and of the listener of the management API the
-- model has only their errors (`Host`).
pub mod Analytics
pub mod Api
pub mod Base
pub mod Acl
pub mod Text
pub mod Clock
pub mod Config
pub mod Dns
pub mod Repo
pub mod Handler
pub mod Loadgen
pub mod Startup
mod Tests
