-- ===== src/Startup/Process/Datapath.antt =====
-- When the servers that backend/src/main.rs starts last.
use denis.Base.{
  ℕ, Option, none, some, List, [], ◌∷◌, ◌++◌, Result, ◌≡◌, ◌↔◌, ◌⊎◌, inl, inr, refl, sym, ap, ◌∙◌,
  Option-cases,
}
use denis.Config.{RuntimeConfig, SocketAddr}
use denis.Dns.Server.Ends.{first_error, run-ends}
use denis.Dns.Udp.{Capacities}
use denis.Handler.Parser.{Query}
use denis.Handler.Serve.{Moka, Proxy, UpstreamError}
use denis.Handler.Upstream.{ResponseCode, UpstreamResponse}
use denis.Repo.Database.{Database}
use denis.Repo.Key.{Heapless, TypeNames}
use denis.Dns.Server.{ServerError, Running, new_server, run}
use denis.Startup.Process.Aborts.{Sound, append-none, api_ends-none, fates-none}
use denis.Startup.Exits.{Exit, unwinds, ended_by, api_task, api_ends, thread_ends}
use denis.Startup.Process.{server_config, fates, Host, Traffic, run_datapath}
use denis.Startup.Launch.{Socket2, bind_reuseport}
use denis.Startup.{Cli, Runtime, tokio, monoio}
use denis.Text.{Str}

ended_by-none : (e : Option ServerError) → (ended_by e ≡ []) ↔ (e ≡ none)
ended_by-none none = (λ h. refl, λ g. refl)
ended_by-none (some e) = (λ h. absurd (cc h), λ g. absurd (cc g))

-- Two lists of ends are empty together exactly if each is.
both :
    {P Q : Type 0} (xs ys : List Exit) → (xs ≡ []) ↔ P → (ys ≡ []) ↔ Q → (xs ++ ys ≡ []) ↔ (P × Q)
both xs ys p q = (
  λ e. let (x, y) = append-none xs ys e in (p.0 x, q.0 y),
  λ g. ap (λ (zs : List Exit). zs ++ ys) (p.1 g.0) ∙ q.1 g.1,
)

module _ (show : SocketAddr → Str) (calls : Socket2) {Core : Type 0} where
  -- What lets the servers of either runtime last: on monoio the threads are spawned, and none of
  -- them ends the process; on tokio none of the server's sockets fails.
  abbrev pub ServersLast :
      {Pool : Type 0} → Cli → Host calls.Sock Core → Traffic SocketAddr Pool → Type 0
  ServersLast cli host traffic =
      ((cli.dns.runtime ≡ monoio)
        × (host.spawn ≡ none)
        × Sound host.panics host.rt (bind_reuseport calls cli.dns.dns_bind))
      ⊎ ((cli.dns.runtime ≡ tokio)
          × (first_error show cli.dns.dns_bind host.udp_bind host.tcp_bind traffic.events ≡ none))

  -- Nothing panics in the task of the management API, or the build unwinds.
  abbrev pub ApiLasts : Host calls.Sock Core → Type 0
  ApiLasts host = (host.panics ≡ unwinds) ⊎ ((host.api_bind ≡ none) × (host.api_serve ≡ none))

module _ (db : Database) (caps : Capacities) (moka : Moka) (h : Heapless) (names : TypeNames)
    (number : ResponseCode → ℕ)
    (resolve : ℕ → RuntimeConfig → Query → Result UpstreamError UpstreamResponse)
    (show : SocketAddr → Str) (calls : Socket2) (digits : ℕ → Str) {Core : Type 0} where
  pub run_datapath-none :
      (cli : Cli) (pin : Option Core) (rest : List (Option Core)) (host : Host calls.Sock Core)
      (traffic : Traffic SocketAddr db.Pool) (p : Proxy db.Pool moka.Store)
      → ((run_datapath db caps moka h names number resolve show calls digits cli
            (pin ∷ rest)
            host
            traffic
            p).ends
          ≡ [])
        ↔ (ServersLast show calls cli host traffic × ApiLasts show calls host)
  unfolding run_datapath
  run_datapath-none cli pin rest host traffic p = on_runtime cli.dns.runtime refl
    where
      failure : Option ServerError
      failure = first_error show cli.dns.dns_bind host.udp_bind host.tcp_bind traffic.events

      state : Running SocketAddr db.Pool moka.Store
      state = new_server caps (server_config cli) p

      ended : Option ServerError
      ended =
          (run caps db moka h names number resolve show (server_config cli) host.udp_bind
            host.tcp_bind traffic.events state).0

      all_ends : List Exit
      all_ends =
          (run_datapath db caps moka h names number resolve show calls digits cli (pin ∷ rest) host
            traffic p).ends

      api : List Exit
      api = api_ends host.panics (api_task host.api_bind host.api_serve)

      api_lasts : (api ≡ []) ↔ ApiLasts show calls host
      api_lasts = api_ends-none host.panics host.api_bind host.api_serve

      same_error : ended ≡ failure
      same_error =
          ap (λ r. r.0)
            (run-ends caps db moka h names number resolve show (server_config cli) host.udp_bind
              host.tcp_bind traffic.events state)

      Goal : Type 0
      Goal = (all_ends ≡ []) ↔ (ServersLast show calls cli host traffic × ApiLasts show calls host)

      on_runtime : (r : Runtime) → cli.dns.runtime ≡ r → Goal
      on_runtime tokio e =
          let parts : all_ends ≡ ended_by ended ++ api = rw (run_datapath, e) refl in
          let empty =
            both {P = failure ≡ none} (ended_by ended) api
              (
                λ x. (ended_by-none failure).0 (ap ended_by (sym same_error) ∙ x),
                λ y. ap ended_by same_error ∙ (ended_by-none failure).1 y,
              )
              api_lasts in
          (
            λ x. let (safe, lasts) = empty.0 (sym parts ∙ x) in (inr (e, safe), lasts),
            λ g. elim g.0 [
              | inl (other, spawned, sound) ↦ absurd (cc (other, e))
              | inr (is, safe) ↦ parts ∙ empty.1 (safe, g.1)
            ],
          )
      on_runtime monoio e = elim (Option-cases host.spawn) [
        | inr (text, failed) ↦ (
          λ x. absurd (cc (rw (run_datapath, e, failed) at x)),
          λ g. elim g.0 [
            | inl (is, spawned, sound) ↦ absurd (cc (spawned, failed))
            | inr (other, safe) ↦ absurd (cc (other, e))
          ],
        )
        | inl spawned ↦
            let threads = thread_ends host.panics (fates calls digits cli (pin ∷ rest) host) in
            let parts : all_ends ≡ threads ++ api = rw (run_datapath, e, spawned) refl in
            let empty = both threads api (fates-none calls digits cli pin rest host e) api_lasts in
            (
              λ x. let (sound, lasts) = empty.0 (sym parts ∙ x) in (inl (e, spawned, sound), lasts),
              λ g. elim g.0 [
                | inl (is, other, sound) ↦ parts ∙ empty.1 (sound, g.1)
                | inr (other, safe) ↦ absurd (cc (other, e))
              ],
            )
      ]
