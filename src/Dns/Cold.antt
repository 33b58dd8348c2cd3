-- ===== src/Dns/Cold.antt =====
-- backend/src/dns/mono.rs: the workers and the tasks of `cold_path`, one step of one of them at a
-- time.
pub mod Keeps
pub mod Owed
use denis.Acl.{Action, Networks, AclEntry, allow, deny, refuse, decide}
use denis.Base.{
  ℕ, Option, none, some, List, [], ◌∷◌, ◌++◌, Bytes, Result, ok, err, length, get_elem?, take, pick,
}
use denis.Config.{RuntimeConfig}
use denis.Dns.Mono.{Outcome, recv_buf, reply, miss, dropped, classify, refuse_packet}
use denis.Handler.Parser.{Query}
use denis.Handler.Serve.{Moka, Clock, Proxy, UpstreamError, HandlerError, handle_parsed}
use denis.Handler.Upstream.{ResponseCode, UpstreamResponse}
use denis.Repo.Cache.{Lists}
use denis.Repo.Database.{Database}
use denis.Repo.Key.{Heapless, TypeNames}

-- The channel of the reply is a number; `total` is read only for the latency, which a clock has.
pub record ColdRequest : Type 0 where
  pub query : Query
  pub timestamp_ms : ℕ
  pub reply : ℕ

-- What the threads share: the requests in `cold`, those that tasks of `cold_path` work on, the
-- clients to whom the tasks of `serve_miss` send what comes from their channels, by the number of
-- the channel, and all that has been sent.
pub record Machine (Addr Pool Store : Type 0) : Type 0 where
  pub proxy : Proxy Pool Store
  pub cold : List ColdRequest
  pub running : List ColdRequest
  pub clients : List Addr
  pub sent : List (Bytes × Addr)

abbrev pub idle : {Addr Pool Store : Type 0} → Proxy Pool Store → Machine Addr Pool Store
idle p = record { proxy = p; cold = []; running = []; clients = []; sent = [] }

-- A worker receives a datagram; a loop of `cold_path` receives a request; the handler returns in
-- the task numbered i; the management changes the lists and the configuration.
pub data Event (Addr Pool : Type 0) : Type 0 where
  arrives : Clock → Bytes → Addr → Event Addr Pool
  takes : Event Addr Pool
  returns : Clock → ℕ → Event Addr Pool
  managed : Lists Pool → RuntimeConfig → Event Addr Pool

abbrev pub send_to :
    {Addr : Type 0} → Option Bytes → Addr → List (Bytes × Addr) → List (Bytes × Addr)
send_to none src sent = sent
send_to (some resp) src sent = sent ++ (resp, src) ∷ []

-- The reply of a task, through its channel to the client. An error drops the channel.
abbrev pub deliver :
    {Addr : Type 0}
    → Result HandlerError Bytes
    → Option Addr
    → List (Bytes × Addr)
    → List (Bytes × Addr)
deliver (ok resp) (some src) sent = sent ++ (resp, src) ∷ []
deliver (ok resp) none sent = sent
deliver (err e) client sent = sent

-- The loop of `cold_path`, up to the task that it starts.
abbrev pub taken :
    {Addr Pool Store : Type 0}
    → List ColdRequest
    → Machine Addr Pool Store
    → Machine Addr Pool Store
taken [] m = m
taken (req ∷ rest) m = record m { cold = rest; running = m.running ++ req ∷ [] }

-- The `match` on what `classify` returns. For a miss, `serve_miss` makes a channel.
abbrev pub outcome :
    {Addr Pool Store : Type 0}
    → Clock
    → Addr
    → Outcome × Proxy Pool Store
    → Machine Addr Pool Store
    → Machine Addr Pool Store
outcome clock src (reply resp, p) m = record m { proxy = p; sent = send_to (some resp) src m.sent }
outcome clock src (miss query, p) m =
    let request : ColdRequest = record {
      query = query;
      timestamp_ms = clock.timestamp_ms;
      reply = length m.clients;
    } in
    record m { proxy = p; cold = m.cold ++ request ∷ []; clients = m.clients ++ src ∷ [] }
outcome clock src (dropped, p) m = record m { proxy = p }

module _ (db : Database) (moka : Moka) (h : Heapless) (names : TypeNames)
    (number : ResponseCode → ℕ)
    (resolve : ℕ → RuntimeConfig → Query → Result UpstreamError UpstreamResponse) where
  -- The end of a task: the handler's result, and what it left.
  abbrev pub ended :
      {Addr : Type 0}
      → Clock
      → Option ColdRequest
      → List ColdRequest
      → Machine Addr db.Pool moka.Store
      → Machine Addr db.Pool moka.Store
  ended clock none others m = m
  ended clock (some req) others m =
      let (result, p) =
        handle_parsed db moka h names number resolve
          (record clock { timestamp_ms = req.timestamp_ms }) req.query m.proxy in
      record m {
        proxy = p;
        running = others;
        sent = deliver result (get_elem? m.clients req.reply) m.sent;
      }

  module _ (nets : Networks) (entries : List (AclEntry nets.Net)) where
    abbrev admitted :
        Action
        → Clock
        → Bytes
        → nets.Addr
        → Machine nets.Addr db.Pool moka.Store
        → Machine nets.Addr db.Pool moka.Store
    admitted allow clock buf src m =
        outcome clock src (classify db moka h names number resolve clock buf m.proxy) m
    admitted deny clock buf src m = m
    admitted refuse clock buf src m = record m { sent = send_to (refuse_packet buf) src m.sent }

    unfoldable pub step :
        Event nets.Addr db.Pool
        → Machine nets.Addr db.Pool moka.Store
        → Machine nets.Addr db.Pool moka.Store
    step (arrives clock datagram src) m =
        admitted (decide nets entries src) clock (take recv_buf datagram) src m
    step takes m = taken m.cold m
    step (returns clock i) m = let (found, others) = pick i m.running in ended clock found others m
    step (managed lists config) m = record m {
      proxy = record m.proxy { lists = lists; config = config };
    }

    unfoldable pub run_events :
        List (Event nets.Addr db.Pool)
        → Machine nets.Addr db.Pool moka.Store
        → Machine nets.Addr db.Pool moka.Store
    run_events [] m = m
    run_events (event ∷ events) m = run_events events (step event m)
