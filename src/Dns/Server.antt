-- ===== src/Dns/Server.antt =====
-- backend/src/dns/server.rs: the server on tokio, with the query handler behind its two loops.
pub mod Number
pub mod Correct
pub mod Ends
pub mod Upstreams
pub mod Owed
use denis.Base.{ℕ, Bool, Option, none, some, List, [], ◌∷◌, ◌++◌, Bytes, Result, ok, err, pick}
use denis.Config.{RuntimeConfig}
use denis.Dns.Tcp.{End, handle_tcp_conn}
use denis.Dns.Udp.{ServerConfig, Buffer, Capacities, Serving, new_pool, receive, finish}
use denis.Handler.Parser.{Query}
use denis.Handler.Serve.{Moka, Clock, Proxy, UpstreamError, handle}
use denis.Handler.Upstream.{ResponseCode, UpstreamResponse}
use denis.Repo.Cache.{Lists}
use denis.Repo.Database.{Database}
use denis.Repo.Key.{Heapless, TypeNames}
use denis.Text.{Str, codes}

-- The errors of the operating system are texts.
pub data ServerError : Type 0 where
  bind_udp : Str → Str → ServerError
  bind_tcp : Str → Str → ServerError
  socket : Str → ServerError

-- `Display`
unfoldable pub error_text : ServerError → Str
error_text (bind_udp addr e) = codes "failed to bind udp (addr: " ++ addr ++ codes "): " ++ e
error_text (bind_tcp addr e) = codes "failed to bind tcp (addr: " ++ addr ++ codes "): " ++ e
error_text (socket e) = codes "socket error: " ++ e

-- What happens to the server: a datagram arrives or cannot be received; the handler of the UDP
-- task numbered i returns; a connection is made, with all that its client sends before it closes
-- it, or cannot be accepted; the management changes the lists and the configuration.
pub data Event (Addr Pool : Type 0) : Type 0 where
  arrives : Bytes → Addr → Event Addr Pool
  recv_fails : Str → Event Addr Pool
  returns : Clock → ℕ → Event Addr Pool
  connects : Clock → Bytes → Addr → Event Addr Pool
  accept_fails : Str → Event Addr Pool
  managed : Lists Pool → RuntimeConfig → Event Addr Pool

-- What the listener of the free function `serve_tcp` hands over: a connection with all that its
-- client sends before it closes it, or an error.
pub data Incoming (Addr : Type 0) : Type 0 where
  stream : Clock → Bytes → Addr → Incoming Addr
  refused_by : Str → Incoming Addr

-- The state of the two loops, and what a handler reaches. `streams` are the connections with what
-- was written to each.
pub record Running (Addr Pool Store : Type 0) : Type 0 where
  pub udp : Serving Addr
  pub streams : List (Addr × End × Bytes)
  pub proxy : Proxy Pool Store

module _ (caps : Capacities) where
  -- `Server::new`: the buffers; no task runs.
  unfoldable pub new_server :
      {Addr Pool Store : Type 0} → ServerConfig Addr → Proxy Pool Store → Running Addr Pool Store
  new_server config p = record {
    udp = record {
      buffers = new_pool caps config.buffer_size config.buffer_count;
      tasks = [];
      sent = [];
    };
    streams = [];
    proxy = p;
  }

module _ (caps : Capacities) (db : Database) (moka : Moka) (h : Heapless) (names : TypeNames)
    (number : ResponseCode → ℕ)
    (resolve : ℕ → RuntimeConfig → Query → Result UpstreamError UpstreamResponse)
    {Addr : Type 0} where
  -- The end of the task numbered i: its bytes go to the handler.
  abbrev pub ended :
      Clock
      → ℕ
      → Option (Buffer × Addr)
      → Running Addr db.Pool moka.Store
      → Running Addr db.Pool moka.Store
  ended clock i none s = s
  ended clock i (some (buf, src)) s =
      let (result, p) = handle db moka h names number resolve clock buf.bytes s.proxy in
      record s { udp = finish caps i result s.udp; proxy = p }

  -- A connection to its end.
  abbrev pub connected :
      Clock → Bytes → Addr → Running Addr db.Pool moka.Store → Running Addr db.Pool moka.Store
  connected clock input src s =
      let (end, out, p) =
        handle_tcp_conn (handle db moka h names number resolve clock) input s.proxy in
      record s { streams = s.streams ++ (src, end, out) ∷ []; proxy = p }

  -- `select!` on `serve_udp` and `serve_tcp`: the events up to the first error of either socket.
  -- Without one the server goes on.
  unfoldable pub serve :
      ServerConfig Addr
      → List (Event Addr db.Pool)
      → Running Addr db.Pool moka.Store
      → Option ServerError × Running Addr db.Pool moka.Store
  serve config [] s = (none, s)
  serve config (arrives datagram src ∷ events) s =
      serve config events (record s { udp = (receive caps config datagram src s.udp).1 })
  serve config (recv_fails e ∷ events) s = (some (socket e), s)
  serve config (returns clock i ∷ events) s =
      serve config events (ended clock i (pick i s.udp.tasks).0 s)
  serve config (connects clock input src ∷ events) s =
      serve config events (connected clock input src s)
  serve config (accept_fails e ∷ events) s = (some (socket e), s)
  serve config (managed lists config' ∷ events) s =
      serve config events (record s { proxy = record s.proxy { lists = lists; config = config' } })

  -- `Server::run`, of the errors of the two bindings, if there are any: the error with which
  -- the server ends. `show` writes an address.
  unfoldable pub run :
      (Addr → Str)
      → ServerConfig Addr
      → Option Str
      → Option Str
      → List (Event Addr db.Pool)
      → Running Addr db.Pool moka.Store
      → Option ServerError × Running Addr db.Pool moka.Store
  run show config udp tcp events s = elim udp [
    | some e ↦ (some (bind_udp (show config.bind_addr) e), s)
    | none ↦ elim tcp [
      | some e ↦ (some (bind_tcp (show config.bind_addr) e), s)
      | none ↦ serve config events s
    ]
  ]

  unfoldable pub accept_loop :
      List (Incoming Addr)
      → Running Addr db.Pool moka.Store
      → Option ServerError × Running Addr db.Pool moka.Store
  accept_loop [] s = (none, s)
  accept_loop (stream clock input src ∷ more) s = accept_loop more (connected clock input src s)
  accept_loop (refused_by e ∷ more) s = (some (socket e), s)

  -- `serve_tcp`, which runs beside the workers of monoio.
  unfoldable pub serve_tcp :
      (Addr → Str)
      → Addr
      → Option Str
      → List (Incoming Addr)
      → Running Addr db.Pool moka.Store
      → Option ServerError × Running Addr db.Pool moka.Store
  serve_tcp show bind_addr tcp accepted s = elim tcp [
    | some e ↦ (some (bind_tcp (show bind_addr) e), s)
    | none ↦ accept_loop accepted s
  ]
