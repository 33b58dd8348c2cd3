-- ===== src/Startup/Process/Lasting.antt =====
-- When the program of backend/src/main.rs goes on to serve.
use denis.Acl.{Networks}
use denis.Analytics.Clients.{Rdkafka, ChClient}
use denis.Api.Router.{Outside, Moment}
use denis.Base.{ℕ, Bool, none, some, [], Result, ok, ◌≡◌, ◌≢◌}
use denis.Config.{RuntimeConfig, SocketAddr}
use denis.Dns.Udp.{Capacities}
use denis.Handler.Parser.{Query}
use denis.Handler.Serve.{Moka, UpstreamError}
use denis.Handler.Upstream.{ResponseCode, UpstreamResponse}
use denis.Repo.Key.{Heapless, TypeNames}
use denis.Startup.Process.Datapath.{ServersLast, ApiLasts}
use denis.Startup.Process.{Host, Traffic, reached}
use denis.Startup.Launch.{Socket2}
use denis.Startup.Opening.{Db, SqlxPool}
use denis.Startup.Start.{Connected, Started, start}
use denis.Startup.{Cli}
use denis.Text.{Str}

module _ (o : Outside) (nets : Networks) (kafka : Rdkafka) (clickhouse : ChClient) (sqlx : SqlxPool)
    (backend : Db) (caps : Capacities) (moka : Moka) (h : Heapless) (names : TypeNames)
    (number : ResponseCode → ℕ)
    (resolve : ℕ → RuntimeConfig → Query → Result UpstreamError UpstreamResponse)
    (show : SocketAddr → Str) (calls : Socket2) (digits : ℕ → Str) {Core : Type 0} where
  -- What lets the program go on: log, cores, runtime and start succeed, and the servers and the
  -- management API last.
  pub record Lasts (analytics : Bool) (cli : Cli) (host : Host calls.Sock Core) (m : Moment)
      (access : sqlx.Pool → Connected o nets kafka clickhouse)
      (traffic : Traffic SocketAddr o.db.Pool) : Type 0 where
    pub logging : host.logger ≡ none
    pub listed : host.cores ≢ some []
    pub built : host.runtime ≡ none
    pub started :
        (st : Started o nets kafka clickhouse) × (start o nets kafka clickhouse analytics cli m
            (reached o nets kafka clickhouse sqlx backend cli access)
          ≡ ok st)
    pub servers : ServersLast show calls cli host traffic
    pub api : ApiLasts show calls host
