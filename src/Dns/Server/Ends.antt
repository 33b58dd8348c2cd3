-- ===== src/Dns/Server/Ends.antt =====
-- When the server of backend/src/dns/server.rs ends.
use denis.Base.{ℕ, Option, none, some, List, [], ◌∷◌, ◌≡◌, refl}
use denis.Config.{RuntimeConfig}
use denis.Dns.Server.{
  Event, arrives, recv_fails, returns, connects, accept_fails, managed, Running, ServerError,
  socket, serve, run, bind_udp, bind_tcp,
}
use denis.Dns.Udp.{ServerConfig, Capacities}
use denis.Handler.Parser.{Query}
use denis.Handler.Serve.{Moka, UpstreamError}
use denis.Handler.Upstream.{ResponseCode, UpstreamResponse}
use denis.Repo.Database.{Database}
use denis.Repo.Key.{Heapless, TypeNames}
use denis.Text.{Str}
use denis.Base.{Result}

module _ {Addr Pool : Type 0} where
  -- The error of the first socket that fails.
  unfoldable pub first_failure : List (Event Addr Pool) → Option ServerError
  first_failure [] = none
  first_failure (recv_fails e ∷ events) = some (socket e)
  first_failure (accept_fails e ∷ events) = some (socket e)
  first_failure (_ ∷ events) = first_failure events

  -- What happens before it.
  unfoldable pub before_failure : List (Event Addr Pool) → List (Event Addr Pool)
  before_failure [] = []
  before_failure (recv_fails e ∷ events) = []
  before_failure (accept_fails e ∷ events) = []
  before_failure (event ∷ events) = event ∷ before_failure events

  -- The bindings come before all else, the one over UDP first.
  abbrev pub first_error :
      (Addr → Str) → Addr → Option Str → Option Str → List (Event Addr Pool) → Option ServerError
  first_error show addr (some e) tcp events = some (bind_udp (show addr) e)
  first_error show addr none (some e) events = some (bind_tcp (show addr) e)
  first_error show addr none none events = first_failure events

  abbrev pub before_error :
      Option Str → Option Str → List (Event Addr Pool) → List (Event Addr Pool)
  before_error (some e) tcp events = []
  before_error none (some e) events = []
  before_error none none events = before_failure events

module _ (caps : Capacities) (db : Database) (moka : Moka) (h : Heapless) (names : TypeNames)
    (number : ResponseCode → ℕ)
    (resolve : ℕ → RuntimeConfig → Query → Result UpstreamError UpstreamResponse)
    {Addr : Type 0} where
  serve-ends :
      (config : ServerConfig Addr) (events : List (Event Addr db.Pool))
      (s : Running Addr db.Pool moka.Store)
      → serve caps db moka h names number resolve config events s ≡ (
        first_failure events,
        (serve caps db moka h names number resolve config (before_failure events) s).1,
      )
  unfolding serve first_failure before_failure
  serve-ends config [] s = refl
  serve-ends config (recv_fails e ∷ events) s = refl
  serve-ends config (accept_fails e ∷ events) s = refl
  serve-ends config (arrives datagram src ∷ events) s = serve-ends config events _
  serve-ends config (returns clock i ∷ events) s = serve-ends config events _
  serve-ends config (connects clock input src ∷ events) s = serve-ends config events _
  serve-ends config (managed lists config' ∷ events) s = serve-ends config events _

  -- The server ends with the first of these errors and with no other: that of binding over UDP,
  -- that of binding over TCP, that of receiving or accepting; no packet, no connection and no error
  -- of the handler ends it. Until then everything that happens is served, in its order.
  pub run-ends :
      (show : Addr → Str) (config : ServerConfig Addr) (udp tcp : Option Str)
      (events : List (Event Addr db.Pool)) (s : Running Addr db.Pool moka.Store)
      → run caps db moka h names number resolve show config udp tcp events s ≡ (
        first_error show config.bind_addr udp tcp events,
        (serve caps db moka h names number resolve config (before_error udp tcp events) s).1,
      )
  unfolding run serve
  run-ends show config (some e) tcp events s = refl
  run-ends show config none (some e) events s = refl
  run-ends show config none none events s = serve-ends config events s
