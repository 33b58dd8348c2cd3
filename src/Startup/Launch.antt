-- ===== src/Startup/Launch.antt =====
-- backend/src/main.rs with `spawn_workers` of backend/src/dns/mono.rs: the level of the log, and
-- the threads and servers that take queries.
pub mod Pinned
use denis.Base.{
  ℕ, suc, ◌%◌, Option, none, some, List, [], ◌∷◌, ◌++◌, Result, ok, err, ◌>>=◌, length, get_elem?,
  ◌==◌, if◌then◌else◌,
}
use denis.Config.{SocketAddr}
use denis.Dns.Udp.{ServerConfig, udp_buffer_size, udp_buffer_count}
use denis.Startup.{Cli, Runtime, tokio, monoio}
use denis.Text.{Str, codes}

pub data LevelFilter : Type 0 where
  info debug trace : LevelFilter

unfoldable pub level : ℕ → LevelFilter
level verbose = if verbose == 0 then info else if verbose == 1 then debug else trace

-- The crate `socket2`: each call may fail.
pub record Socket2 : Type 1 where
  pub Sock : Type 0
  pub new : SocketAddr → Result Str Sock
  pub set_reuse_address : Sock → Result Str Sock
  pub set_reuse_port : Sock → Result Str Sock
  pub set_nonblocking : Sock → Result Str Sock
  pub bind : SocketAddr → Sock → Result Str Sock

unfoldable pub bind_reuseport : (calls : Socket2) → SocketAddr → Result Str calls.Sock
bind_reuseport calls addr = do
  made ← calls.new addr
  shared ← calls.set_reuse_address made
  balanced ← calls.set_reuse_port shared
  ready ← calls.set_nonblocking balanced
  calls.bind addr ready

module _ {Core : Type 0} where
  abbrev flatten : Option (Option Core) → Option Core
  flatten none = none
  flatten (some core) = core

  -- `on_thread_start` of the thread numbered i: the core that it is put on. The outer `none` is the
  -- panic of `% 0`.
  unfoldable pub thread_core : List (Option Core) → ℕ → Option (Option Core)
  thread_core [] i = none
  thread_core (pin ∷ pins) i = some (flatten (get_elem? (pin ∷ pins) (i % length (pin ∷ pins))))

-- A thread of `spawn_workers`: it runs a worker where its socket could be bound, else it ends.
pub record WorkerThread (calls : Socket2) (Core : Type 0) : Type 0 where
  pub name : Str
  pub core : Option Core
  pub std_sock : Result Str calls.Sock

-- What becomes of a thread: its socket is not bound, it panics as the runtime of monoio cannot be
-- built, monoio does not take the socket, or the worker runs.
pub data Fate : Type 0 where
  unbound : Str → Fate
  panicked : Str → Fate
  not_taken : Str → Fate
  working : Fate

-- The crate `monoio`: errors of building its runtime and of `UdpSocket::from_std`, if there are
-- any.
pub record Monoio (Sock : Type 0) : Type 0 where
  pub build : Option Str
  pub from_std : Sock → Option Str

-- `Worker::run`, up to its loop.
unfoldable pub enter : {Sock : Type 0} → Monoio Sock → Sock → Fate
enter rt std_sock = elim (rt.from_std std_sock) [ some e ↦ not_taken e | none ↦ working ]

-- The closure of a thread of `spawn_workers`.
unfoldable pub run_thread : {Sock : Type 0} → Monoio Sock → Result Str Sock → Fate
run_thread rt (err e) = unbound e
run_thread rt (ok std_sock) = elim rt.build [
  | some e ↦ panicked (codes "build monoio runtime")
  | none ↦ enter rt std_sock
]

-- What takes queries: the loops of `cold_path`, the threads of the workers, and on tokio the
-- listener over TCP or the server.
pub record Datapath (calls : Socket2) (Core : Type 0) : Type 0 where
  pub cold_paths : ℕ
  pub workers : List (WorkerThread calls Core)
  pub tcp_bind : Option SocketAddr
  pub server : Option (ServerConfig SocketAddr)

-- `show` writes a number.
module _ (calls : Socket2) (show : ℕ → Str) {Core : Type 0} where
  -- The loop of `spawn_workers`, from a number on.
  unfoldable pub spawn_from : SocketAddr → ℕ → List (Option Core) → List (WorkerThread calls Core)
  spawn_from addr id [] = []
  spawn_from addr id (core ∷ cores) =
      (record {
        name = codes "monoio-" ++ show id;
        core = core;
        std_sock = bind_reuseport calls addr;
      })
      ∷ spawn_from addr (suc id) cores

  unfoldable pub spawn_workers : SocketAddr → List (Option Core) → List (WorkerThread calls Core)
  spawn_workers addr cores = spawn_from addr 0 cores

  -- The `match` on the runtime at the end of `run`.
  unfoldable pub launch : Cli → List (Option Core) → Datapath calls Core
  launch cli dp_pins = elim cli.dns.runtime [
    | tokio ↦ record {
      cold_paths = 0;
      workers = [];
      tcp_bind = none;
      server = some (record {
        bind_addr = cli.dns.dns_bind;
        buffer_size = udp_buffer_size;
        buffer_count = udp_buffer_count;
      });
    }
    | monoio ↦ record {
      cold_paths = length dp_pins;
      workers = spawn_workers cli.dns.dns_bind dp_pins;
      tcp_bind = some cli.dns.dns_bind;
      server = none;
    }
  ]
