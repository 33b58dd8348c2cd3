-- ===== src/Dns/Server/Upstreams.antt =====
-- The loops of backend/src/dns/server.rs never take the resolvers out of the configuration; only
-- the management can.
use denis.Base.{
  ◌∙◌, All, not, true, length, ℕ, suc, Bool, Option, none, some, List, [], ◌∷◌, Bytes, Result,
  length, pick, ◌≡◌, ap,
}
use denis.Config.{RuntimeConfig}
use denis.Dns.Server.{
  Event, arrives, recv_fails, returns, connects, accept_fails, managed, Running, ended, connected,
  serve,
}
use denis.Dns.Udp.{ServerConfig, Buffer, Capacities}
use denis.Handler.Parser.{Query}
use denis.Handler.Serve.Always.{Configured, handle-config}
use denis.Dns.Cold.Owed.Upstreams.{not-true}
use denis.Dns.Server.Number.{conn_loop-keeps}
use denis.Dns.Tcp.{handle_tcp_conn}
use denis.Repo.Decide.{is_empty}
use denis.Handler.Serve.{Moka, Clock, UpstreamError, handle}
use denis.Handler.Upstream.{ResponseCode, UpstreamResponse}
use denis.Repo.Database.{Database}
use denis.Repo.Key.{Heapless, TypeNames}

-- A change of the configuration, if the event is one, leaves a resolver in it.
abbrev keeps_upstreams : {Addr Pool : Type 0} → Event Addr Pool → Bool
keeps_upstreams (managed lists config) = not (is_empty config.upstreams)
keeps_upstreams _ = true

abbrev pub KeepsUpstreams : {Addr Pool : Type 0} → Event Addr Pool → Type 0
KeepsUpstreams event = keeps_upstreams event ≡ true

module _ (caps : Capacities) (db : Database) (moka : Moka) (h : Heapless) (names : TypeNames)
    (number : ResponseCode → ℕ)
    (resolve : ℕ → RuntimeConfig → Query → Result UpstreamError UpstreamResponse)
    {Addr : Type 0} where
  pub ended-Configured :
      (clock : Clock) (i : ℕ) (found : Option (Buffer × Addr)) (s : Running Addr db.Pool moka.Store)
      → Configured s.proxy.config
      → Configured (ended caps db moka h names number resolve clock i found s).proxy.config
  ended-Configured clock i none s configured = configured
  ended-Configured clock i (some (buf, src)) s configured =
      ap (λ (c : RuntimeConfig). is_empty c.upstreams)
        (handle-config db moka h names number resolve clock buf.bytes s.proxy)
      ∙ configured

  pub connected-Configured :
      (clock : Clock) (input : Bytes) (src : Addr) (s : Running Addr db.Pool moka.Store)
      → Configured s.proxy.config
      → Configured (connected caps db moka h names number resolve clock input src s).proxy.config
  unfolding handle_tcp_conn
  connected-Configured clock input src s configured =
      conn_loop-keeps (handle db moka h names number resolve clock) (λ p. Configured p.config)
        (λ packet p still.
          ap (λ (c : RuntimeConfig). is_empty c.upstreams)
            (handle-config db moka h names number resolve clock packet p)
          ∙ still)
        (suc (length input)) input [] s.proxy configured

  pub serve-Configured :
      (config : ServerConfig Addr) (events : List (Event Addr db.Pool))
      (s : Running Addr db.Pool moka.Store)
      → All KeepsUpstreams events
      → Configured s.proxy.config
      → Configured (serve caps db moka h names number resolve config events s).1.proxy.config
  unfolding serve
  serve-Configured config [] s keeps configured = configured
  serve-Configured config (arrives datagram src ∷ events) s keeps configured =
      serve-Configured config events _ keeps.1 configured
  serve-Configured config (recv_fails e ∷ events) s keeps configured = configured
  serve-Configured config (returns clock i ∷ events) s keeps configured =
      serve-Configured config events _ keeps.1
        (ended-Configured clock i (pick i s.udp.tasks).0 s configured)
  serve-Configured config (connects clock input src ∷ events) s keeps configured =
      serve-Configured config events _ keeps.1 (connected-Configured clock input src s configured)
  serve-Configured config (accept_fails e ∷ events) s keeps configured = configured
  serve-Configured config (managed lists config' ∷ events) s keeps configured =
      serve-Configured config events _ keeps.1 (not-true (is_empty config'.upstreams) keeps.0)
