-- ===== src/Dns/Cold/Owed/Ledger.antt =====
-- Every reply of backend/src/dns/mono.rs that is owed is sent, still to come or given up.
use denis.Acl.{Action, Networks, AclEntry, allow, deny, refuse, decide}
use denis.Base.{
  ℕ, ◌+◌, Bool, ◌&&◌, List, [], ◌∷◌, Bytes, Result, take, pick, pick-All, pick-count, one, ◌≡◌,
  refl, ap, ◌∙◌, arith,
}
use denis.Config.{RuntimeConfig}
use denis.Dns.Cold.Owed.Handled.{
  is_query, lost_by, ended-due, ended-Sane, classify-adds, refuse_packet-count,
}
use denis.Dns.Cold.Owed.{
  Sane, due, asked_by, Known, outcome-due, outcome-Sane, taken-due, taken-Sane,
}
use denis.Dns.Cold.{
  Machine, Event, arrives, takes, returns, managed, admitted, step, run_events, idle,
}
use denis.Dns.Mono.{recv_buf, classify}
use denis.Handler.Parser.{Query}
use denis.Handler.Serve.{Moka, Clock, Proxy, UpstreamError}
use denis.Handler.Upstream.{ResponseCode, UpstreamResponse}
use denis.Repo.Database.{Database}
use denis.Repo.Key.{Heapless, TypeNames}

module _ (db : Database) (moka : Moka) (h : Heapless) (names : TypeNames)
    (number : ResponseCode → ℕ)
    (resolve : ℕ → RuntimeConfig → Query → Result UpstreamError UpstreamResponse) (nets : Networks)
    (entries : List (AclEntry nets.Net)) (group : nets.Addr → Bool) where
  abbrev State : Type 0
  State = Machine nets.Addr db.Pool moka.Store

  abbrev pub owed_for : Action → Bytes → nets.Addr → ℕ
  owed_for allow packet src = one (is_query packet && group src)
  owed_for deny packet src = 0
  owed_for refuse packet src = one (is_query packet && group src)

  -- How many datagrams of a group of clients ask for a reply: those that are queries, of clients
  -- that are not denied.
  unfoldable pub owed : List (Event nets.Addr db.Pool) → ℕ
  owed [] = 0
  owed (arrives clock datagram src ∷ events) =
      owed_for (decide nets entries src) (take recv_buf datagram) src + owed events
  owed (takes ∷ events) = owed events
  owed (returns clock i ∷ events) = owed events
  owed (managed lists config ∷ events) = owed events

  -- How many replies to the group the handler's errors leave out.
  unfoldable pub given_up : List (Event nets.Addr db.Pool) → State → ℕ
  given_up [] m = 0
  given_up (arrives clock datagram src ∷ events) m =
      given_up events
        (step db moka h names number resolve nets entries (arrives clock datagram src) m)
  given_up (takes ∷ events) m =
      given_up events (step db moka h names number resolve nets entries takes m)
  given_up (returns clock i ∷ events) m =
      lost_by db moka h names number resolve group clock (pick i m.running).0 m
      + given_up events (step db moka h names number resolve nets entries (returns clock i) m)
  given_up (managed lists config ∷ events) m =
      given_up events (step db moka h names number resolve nets entries (managed lists config) m)

  admitted-due :
      (action : Action) (clock : Clock) (packet : Bytes) (src : nets.Addr) (m : State)
      → Sane group m
      → due group (admitted db moka h names number resolve nets entries action clock packet src m)
        ≡ due group m + owed_for action packet src
  admitted-due deny clock packet src m sane = omega arith
  admitted-due allow clock packet src m sane =
      outcome-due group clock src (classify db moka h names number resolve clock packet m.proxy) m
        sane
      ∙ ap (λ (k : ℕ). due group m + k)
          (classify-adds db moka h names number resolve group clock src packet m.proxy)
  admitted-due refuse clock packet src m sane =
      omega (arith, refuse_packet-count db moka h names number resolve group packet src m.sent)

  admitted-Sane :
      (action : Action) (clock : Clock) (packet : Bytes) (src : nets.Addr) (m : State)
      → Sane group m
      → Sane group (admitted db moka h names number resolve nets entries action clock packet src m)
  admitted-Sane deny clock packet src m sane = sane
  admitted-Sane allow clock packet src m sane =
      outcome-Sane group clock src (classify db moka h names number resolve clock packet m.proxy) m
        sane
  admitted-Sane refuse clock packet src m sane = record {
    cold_known = sane.cold_known;
    running_known = sane.running_known;
  }

  pub step-Sane :
      (event : Event nets.Addr db.Pool) (m : State)
      → Sane group m
      → Sane group (step db moka h names number resolve nets entries event m)
  unfolding step
  step-Sane (arrives clock datagram src) m sane =
      admitted-Sane (decide nets entries src) clock (take recv_buf datagram) src m sane
  step-Sane takes m sane = taken-Sane group m.cold m refl sane
  step-Sane (returns clock i) m sane =
      ended-Sane db moka h names number resolve group clock (pick i m.running).0
        (pick i m.running).1 m (pick-All (Known group m.clients) i m.running sane.running_known)
        sane
  step-Sane (managed lists config) m sane = record {
    cold_known = sane.cold_known;
    running_known = sane.running_known;
  }

  pub run_events-due :
      (events : List (Event nets.Addr db.Pool)) (m : State)
      → Sane group m
      → due group (run_events db moka h names number resolve nets entries events m)
          + given_up events m
        ≡ due group m + owed events
  unfolding run_events step given_up owed
  run_events-due [] m sane = omega arith
  run_events-due (arrives clock datagram src ∷ events) m sane = omega (
    arith,
    run_events-due events _ (step-Sane (arrives clock datagram src) m sane),
    admitted-due (decide nets entries src) clock (take recv_buf datagram) src m sane,
  )
  run_events-due (takes ∷ events) m sane =
      omega (arith, run_events-due events _ (step-Sane takes m sane), taken-due group m.cold m refl)
  run_events-due (returns clock i ∷ events) m sane = omega (
    arith,
    run_events-due events _ (step-Sane (returns clock i) m sane),
    ended-due db moka h names number resolve group clock (pick i m.running).0 (pick i m.running).1 m
        (λ req. pick-count (asked_by group m.clients) i m.running req),
  )
  run_events-due (managed lists config ∷ events) m sane =
      run_events-due events _ (step-Sane (managed lists config) m sane)

  -- From an idle program on, and in whatever order datagrams arrive, the tasks of `cold_path` start
  -- and end and the management changes the lists and the configuration: for any group of clients,
  -- the replies that have been sent to them, those that wait in the queue or that a task works on,
  -- and those that the handler's errors left out are together as many as the queries that were
  -- received from them, clients that are denied aside.
  pub run_events-owed :
      (events : List (Event nets.Addr db.Pool)) (p : Proxy db.Pool moka.Store)
      → due group (run_events db moka h names number resolve nets entries events (idle p))
          + given_up events (idle p)
        ≡ owed events
  run_events-owed events p =
      omega (arith, run_events-due events (idle p) (record { cold_known = tt; running_known = tt }))
