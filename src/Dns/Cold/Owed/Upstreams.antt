-- ===== src/Dns/Cold/Owed/Upstreams.antt =====
-- The steps of backend/src/dns/mono.rs never take the resolvers out of the configuration; only the
-- management can.
use denis.Acl.{Action, Networks, AclEntry, allow, deny, refuse, decide}
use denis.Base.{
  ℕ, Bool, true, false, not, Option, none, some, List, [], ◌∷◌, Bytes, Result, All, take, pick, inl,
  inr, ◌≡◌, refl, ap, ◌∙◌, Bool-cases, Option-cases, Result-cases,
}
use denis.Config.{RuntimeConfig}
use denis.Dns.Cold.{
  ColdRequest, Machine, Event, arrives, takes, returns, managed, taken, outcome, ended, admitted,
  step, run_events,
}
use denis.Dns.Mono.{Outcome, recv_buf, reply, miss, dropped, classify, classify_query}
use denis.Handler.Parser.{Query, parse_udp}
use denis.Handler.Serve.Always.{Configured, handle_parsed-config}
use denis.Handler.Serve.{Moka, Clock, Proxy, UpstreamError, l1_get}
use denis.Handler.Upstream.{ResponseCode, UpstreamResponse}
use denis.Repo.Cache.{is_blocked}
use denis.Repo.Database.{Database}
use denis.Repo.Decide.{is_empty}
use denis.Repo.Key.{Heapless, TypeNames}

-- A change of the configuration, if the event is one, leaves a resolver in it.
abbrev pub keeps_upstreams : {Addr Pool : Type 0} → Event Addr Pool → Bool
keeps_upstreams (managed lists config) = not (is_empty config.upstreams)
keeps_upstreams _ = true

abbrev pub KeepsUpstreams : {Addr Pool : Type 0} → Event Addr Pool → Type 0
KeepsUpstreams event = keeps_upstreams event ≡ true

pub not-true : (b : Bool) → not b ≡ true → b ≡ false
not-true true h = absurd (cc h)
not-true false h = refl

outcome-config :
    {Addr Pool Store : Type 0} (clock : Clock) (src : Addr) (r : Outcome × Proxy Pool Store)
    (m : Machine Addr Pool Store)
    → (outcome clock src r m).proxy.config ≡ r.1.config
outcome-config clock src (reply resp, p) m = refl
outcome-config clock src (miss query, p) m = refl
outcome-config clock src (dropped, p) m = refl

taken-config :
    {Addr Pool Store : Type 0} (cold : List ColdRequest) (m : Machine Addr Pool Store)
    → (taken cold m).proxy.config ≡ m.proxy.config
taken-config [] m = refl
taken-config (req ∷ rest) m = refl

module _ (db : Database) (moka : Moka) (h : Heapless) (names : TypeNames)
    (number : ResponseCode → ℕ)
    (resolve : ℕ → RuntimeConfig → Query → Result UpstreamError UpstreamResponse) where
  classify_query-config :
      (clock : Clock) (q : Query) (p : Proxy db.Pool moka.Store)
      → (classify_query db moka h names number resolve clock q p).1.config ≡ p.config
  unfolding classify_query
  classify_query-config clock q p = elim (Bool-cases (is_blocked db p.lists q.name)) [
    | inl b ↦ rw b refl
    | inr b ↦ elim (Option-cases (l1_get db moka h names clock.lookup q p.l1)) [
      | inr (raw, found) ↦ rw (b, found) refl
      | inl missed ↦ rw (b, missed) refl
    ]
  ]

  classify-config :
      (clock : Clock) (packet : Bytes) (p : Proxy db.Pool moka.Store)
      → (classify db moka h names number resolve clock packet p).1.config ≡ p.config
  unfolding classify
  classify-config clock packet p = elim (Result-cases (parse_udp packet)) [
    | inl (e, failed) ↦ rw (classify, failed) refl
    | inr (q, parsed) ↦ rw (classify, parsed) (classify_query-config clock q p)
  ]

  ended-config :
      {Addr : Type 0} (clock : Clock) (found : Option ColdRequest) (others : List ColdRequest)
      (m : Machine Addr db.Pool moka.Store)
      → (ended db moka h names number resolve clock found others m).proxy.config ≡ m.proxy.config
  ended-config clock none others m = refl
  ended-config clock (some req) others m =
      handle_parsed-config db moka h names number resolve _ req.query m.proxy

  module _ (nets : Networks) (entries : List (AclEntry nets.Net)) where
    admitted-config :
        (action : Action) (clock : Clock) (packet : Bytes) (src : nets.Addr)
        (m : Machine nets.Addr db.Pool moka.Store)
        → (admitted db moka h names number resolve nets entries action clock packet src
            m).proxy.config
          ≡ m.proxy.config
    admitted-config allow clock packet src m =
        outcome-config clock src (classify db moka h names number resolve clock packet m.proxy) m
        ∙ classify-config clock packet m.proxy
    admitted-config deny clock packet src m = refl
    admitted-config refuse clock packet src m = refl

    pub step-Configured :
        (event : Event nets.Addr db.Pool) (m : Machine nets.Addr db.Pool moka.Store)
        → KeepsUpstreams event
        → Configured m.proxy.config
        → Configured (step db moka h names number resolve nets entries event m).proxy.config
    unfolding step
    step-Configured (arrives clock datagram src) m keeps configured =
        ap (λ (c : RuntimeConfig). is_empty c.upstreams)
          (admitted-config (decide nets entries src) clock (take recv_buf datagram) src m)
        ∙ configured
    step-Configured takes m keeps configured =
        ap (λ (c : RuntimeConfig). is_empty c.upstreams) (taken-config m.cold m) ∙ configured
    step-Configured (returns clock i) m keeps configured =
        ap (λ (c : RuntimeConfig). is_empty c.upstreams)
          (ended-config clock (pick i m.running).0 (pick i m.running).1 m)
        ∙ configured
    step-Configured (managed lists config) m keeps configured =
        not-true (is_empty config.upstreams) keeps

    pub run_events-Configured :
        (events : List (Event nets.Addr db.Pool)) (m : Machine nets.Addr db.Pool moka.Store)
        → All KeepsUpstreams events
        → Configured m.proxy.config
        → Configured (run_events db moka h names number resolve nets entries events m).proxy.config
    unfolding run_events
    run_events-Configured [] m keeps configured = configured
    run_events-Configured (event ∷ events) m keeps configured =
        run_events-Configured events _ keeps.1 (step-Configured event m keeps.0 configured)
