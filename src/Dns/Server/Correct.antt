-- ===== src/Dns/Server/Correct.antt =====
-- Whom the UDP socket of backend/src/dns/server.rs answers.
use denis.Base.{
  ℕ, zero, suc, ◌≤◌, Option, none, some, List, [], ◌∷◌, Bytes, Result, ok, err, length, take, All,
  All-snoc, pick, picked, pick-All, ◌≡◌, refl, sym, ap, ◌∙◌, arith,
}
use denis.Config.{RuntimeConfig}
use denis.Dns.Cold.Keeps.{Answered}
use denis.Dns.Server.Number.{handle-number, handle-HoldsCacheable, conn_loop-keeps}
use denis.Dns.Server.{
  Event, arrives, recv_fails, returns, connects, accept_fails, managed, Running, new_server, ended,
  connected, serve,
}
use denis.Dns.Tcp.{handle_tcp_conn}
use denis.Dns.Udp.Handed.{receive-take}
use denis.Dns.Udp.{ServerConfig, Buffer, Capacities, receive, finish, reply}
use denis.Handler.Parser.{Query}
use denis.Handler.Serve.Answers.{Resolves}
use denis.Handler.Serve.Cached.{HoldsCacheable}
use denis.Handler.Serve.{Moka, Expires, Clock, Proxy, UpstreamError, handle}
use denis.Handler.Upstream.{ResponseCode, UpstreamResponse}
use denis.Repo.Database.{Database}
use denis.Repo.Key.{Heapless, TypeNames}

-- The datagram is one that the server received from this client.
pub data Arrived {Addr Pool : Type 0} (datagram : Bytes) (src : Addr)
    : List (Event Addr Pool) → Type 0 where
  here : (events : List (Event Addr Pool)) → Arrived datagram src (arrives datagram src ∷ events)
  later :
      (event : Event Addr Pool) (events : List (Event Addr Pool))
      → Arrived datagram src events
      → Arrived datagram src (event ∷ events)

-- The bytes of a task are those of a datagram, as many as a buffer has.
abbrev From : {Addr : Type 0} → (Bytes → Addr → Type 0) → ℕ → Buffer × Addr → Type 0
From Asked size (buf, src) =
    (datagram : Bytes) × Asked datagram src × (buf.bytes ≡ take size datagram)

take-take_number : (n : ℕ) (d : Bytes) → 2 ≤ n → take 2 (take n d) ≡ take 2 d
take-take_number zero d h = absurd (omega arith)
take-take_number (suc zero) d h = absurd (omega arith)
take-take_number (suc (suc n)) [] h = refl
take-take_number (suc (suc n)) (a ∷ []) h = refl
take-take_number (suc (suc n)) (a ∷ b ∷ d) h = refl

module _ (caps : Capacities) (moka : Moka) {Addr Pool : Type 0} (Asked : Bytes → Addr → Type 0)
    (size : ℕ) where
  pub record Inv (s : Running Addr Pool moka.Store) : Type 0 where
    pub held : HoldsCacheable moka s.proxy.l1
    pub tasks_from : All (From Asked size) s.udp.tasks
    pub answered : All (Answered Asked) s.udp.sent

  receive-Inv :
      (config : ServerConfig Addr) (datagram : Bytes) (src : Addr)
      (s : Running Addr Pool moka.Store)
      → size ≡ config.buffer_size
      → Asked datagram src
      → Inv s
      → Inv (record s { udp = (receive caps config datagram src s.udp).1 })
  unfolding receive
  receive-Inv config datagram src s same asked good = record {
    held = good.held;
    tasks_from = All-snoc (From Asked size) s.udp.tasks _ good.tasks_from (
      datagram,
      asked,
      receive-take caps config datagram src s.udp ∙ ap (λ (k : ℕ). take k datagram) (sym same),
    );
    answered = good.answered;
  }

reply-Answered :
    {Addr Failure : Type 0} (Asked : Bytes → Addr → Type 0) (result : Result Failure Bytes)
    (src : Addr) (sent : List (Bytes × Addr))
    → All (Answered Asked) sent
    → ((resp : Bytes) → result ≡ ok resp → Answered Asked (resp, src))
    → All (Answered Asked) (reply result src sent)
reply-Answered Asked (err e) src sent good new = good
reply-Answered Asked (ok resp) src sent good new =
    All-snoc (Answered Asked) sent (resp, src) good (new resp refl)

module _ (caps : Capacities) (db : Database) (moka : Moka) (laws : Expires moka) (h : Heapless)
    (names : TypeNames) (number : ResponseCode → ℕ)
    (resolve : ℕ → RuntimeConfig → Query → Result UpstreamError UpstreamResponse)
    (resolves : Resolves resolve) {Addr : Type 0} where
  module _ (Asked : Bytes → Addr → Type 0) (size : ℕ) (fits : 2 ≤ size) where
    ended-Inv :
        (clock : Clock) (i : ℕ) (found : Option (Buffer × Addr))
        (s : Running Addr db.Pool moka.Store)
        → (pick i s.udp.tasks).0 ≡ found
        → Inv caps moka Asked size s
        → Inv caps moka Asked size (ended caps db moka h names number resolve clock i found s)
    unfolding finish
    ended-Inv clock i none s e good = good
    ended-Inv clock i (some (buf, src)) s e good =
        let (d, asked, bytes) =
          picked (From Asked size) i s.udp.tasks (buf, src) good.tasks_from e in
        let r = handle db moka h names number resolve clock buf.bytes s.proxy in
        rw (finish, e)
          (record {
            held =
                handle-HoldsCacheable db moka laws h names number resolve resolves clock buf.bytes
                  s.proxy good.held;
            tasks_from = pick-All (From Asked size) i s.udp.tasks good.tasks_from;
            answered = reply-Answered Asked r.0 src s.udp.sent good.answered (λ resp same. (
              d,
              asked,
              handle-number db moka laws h names number resolve resolves clock buf.bytes s.proxy
                    resp good.held same
                  ∙ ap (take 2) bytes
                  ∙ take-take_number size d fits,
            ));
          })

    connected-Inv :
        (clock : Clock) (input : Bytes) (src : Addr) (s : Running Addr db.Pool moka.Store)
        → Inv caps moka Asked size s
        → Inv caps moka Asked size (connected caps db moka h names number resolve clock input src s)
    unfolding handle_tcp_conn
    connected-Inv clock input src s good = record {
      held =
          conn_loop-keeps (handle db moka h names number resolve clock)
            (λ p. HoldsCacheable moka p.l1)
            (λ m p held.
              handle-HoldsCacheable db moka laws h names number resolve resolves clock m p held)
            (suc (length input)) input [] s.proxy good.held;
      tasks_from = good.tasks_from;
      answered = good.answered;
    }

  serve-Inv :
      (Asked : Bytes → Addr → Type 0) (config : ServerConfig Addr)
      → 2 ≤ config.buffer_size
      → (events : List (Event Addr db.Pool)) (s : Running Addr db.Pool moka.Store)
      → ((datagram : Bytes) (src : Addr) → Arrived datagram src events → Asked datagram src)
      → Inv caps moka Asked config.buffer_size s
      → Inv caps moka Asked config.buffer_size
          (serve caps db moka h names number resolve config events s).1
  unfolding serve
  serve-Inv Asked config fits [] s asks good = good
  serve-Inv Asked config fits (arrives datagram src ∷ events) s asks good =
      serve-Inv Asked config fits events _
        (λ d a arrived. asks d a (later (arrives datagram src) events arrived))
        (receive-Inv caps moka Asked config.buffer_size config datagram src s refl
          (asks datagram src (here events)) good)
  serve-Inv Asked config fits (recv_fails e ∷ events) s asks good = good
  serve-Inv Asked config fits (returns clock i ∷ events) s asks good =
      serve-Inv Asked config fits events _
        (λ d a arrived. asks d a (later (returns clock i) events arrived))
        (ended-Inv Asked config.buffer_size fits clock i (pick i s.udp.tasks).0 s refl good)
  serve-Inv Asked config fits (connects clock input src ∷ events) s asks good =
      serve-Inv Asked config fits events _
        (λ d a arrived. asks d a (later (connects clock input src) events arrived))
        (connected-Inv Asked config.buffer_size fits clock input src s good)
  serve-Inv Asked config fits (accept_fails e ∷ events) s asks good = good
  serve-Inv Asked config fits (managed lists config' ∷ events) s asks good =
      serve-Inv Asked config fits events _
        (λ d a arrived. asks d a (later (managed lists config') events arrived))
        (record { held = good.held; tasks_from = good.tasks_from; answered = good.answered })

  -- Where moka returns only what was stored: from a new server on whose buffers have two bytes or
  -- more and whose cache holds only answers that may be cached, with resolvers whose answers carry
  -- the query's number, and in whatever order datagrams and connections arrive, handlers return and
  -- the management changes the lists and the configuration, everything that the UDP socket sends
  -- goes to a client from whom a datagram was received, and carries that datagram's number.
  pub serve-Answered :
      (config : ServerConfig Addr) (events : List (Event Addr db.Pool))
      (p : Proxy db.Pool moka.Store)
      → 2 ≤ config.buffer_size
      → HoldsCacheable moka p.l1
      → All
          (Answered (λ datagram src. Arrived datagram src events))
          (serve caps db moka h names number resolve config events
            (new_server caps config p)).1.udp.sent
  unfolding new_server
  serve-Answered config events p fits held =
      let kept =
        serve-Inv (λ datagram src. Arrived datagram src events) config fits events
          (new_server caps config p) (λ d a arrived. arrived)
          (record { held = held; tasks_from = tt; answered = tt }) in
      kept.answered
