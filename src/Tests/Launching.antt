-- ===== src/Tests/Launching.antt =====
-- Examples of the theorems on the whole program.
use denis.Base.{ℕ, none, some, ok, [], ◌∷◌}
use denis.Dns.Server
use denis.Startup.Opening.{SqlxPool}
use denis.Startup.Exits.{aborts}
use denis.Startup.Process.{Host, Traffic}
use denis.Startup.{Cli, tokio}
use denis.Tests.Samples.{Tables}
use denis.Tests.Serving.{clock, packet}
use denis.Tests.Starting.{cli}
use denis.Text.{codes}

-- A release build on a machine on which all succeeds but the listener of the management API.
abbrev host : Host ℕ ℕ
host = record {
  panics = aborts;
  logger = none;
  cores = some (10 ∷ 11 ∷ 12 ∷ 13 ∷ []);
  parallelism = none;
  runtime = none;
  api_bind = some (codes "in use");
  api_serve = none;
  udp_bind = none;
  tcp_bind = none;
  rt = record { build = none; from_std = λ s. none };
  spawn = none;
}

abbrev on_tokio : Cli
on_tokio = record cli { dns = record cli.dns { runtime = tokio } }

abbrev datagrams : Traffic ℕ Tables
datagrams = record { events = Server.arrives packet 1 ∷ Server.returns clock 0 ∷ []; accepted = [] }

-- A database that always opens.
abbrev one_pool : SqlxPool
one_pool = record {
  Options = ℕ;
  PoolOptions = ℕ;
  Pool = ℕ;
  from_str = λ url. ok 0;
  create_if_missing = λ create options. options;
  new = 0;
  max_connections = λ n options. n;
  connect_with = λ options n. ok n;
  connect = λ url n. ok n;
}
