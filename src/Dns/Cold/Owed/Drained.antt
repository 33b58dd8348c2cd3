-- ===== src/Dns/Cold/Owed/Drained.antt =====
-- Once the tasks of backend/src/dns/mono.rs have come to their end, every query has its reply.
use denis.Acl.{Networks, AclEntry}
use denis.Base.{
  ℕ, zero, suc, All, Bool, Option, none, some, List, [], ◌∷◌, Result, length, length-append,
  get_elem?, pick, count, ◌≡◌, refl, ap, ◌∙◌, arith,
}
use denis.Config.{RuntimeConfig}
use denis.Dns.Cold.Owed.Ledger.{owed, given_up, step-Sane, run_events-due, run_events-owed}
use denis.Dns.Cold.Owed.Handled.{lost_by}
use denis.Dns.Cold.Owed.{Sane, due, sent_to, asked_by, withheld}
use denis.Dns.Cold.{
  ColdRequest, Machine, Event, arrives, takes, returns, managed, taken, ended, step, run_events,
  idle,
}
use denis.Handler.Parser.{Query}
use denis.Handler.Serve.Always.{Answering, Configured, handle_parsed-ok}
use denis.Dns.Cold.Owed.Upstreams.{KeepsUpstreams, step-Configured, run_events-Configured}
use denis.Handler.Serve.{Moka, Clock, Proxy, UpstreamError}
use denis.Handler.Upstream.{ResponseCode, UpstreamResponse}
use denis.Repo.Database.{Database}
use denis.Repo.Key.{Heapless, TypeNames}

no_pending :
    {Addr Pool Store : Type 0} (group : Addr → Bool) (m : Machine Addr Pool Store)
    → m.cold ≡ []
    → m.running ≡ []
    → due group m ≡ count (sent_to group) m.sent
no_pending group m e f =
    omega (arith, ap (count (asked_by group m.clients)) e, ap (count (asked_by group m.clients)) f)

module _ (db : Database) (moka : Moka) (h : Heapless) (names : TypeNames)
    (number : ResponseCode → ℕ)
    (resolve : ℕ → RuntimeConfig → Query → Result UpstreamError UpstreamResponse)
    (answering : Answering resolve) (nets : Networks) (entries : List (AclEntry nets.Net))
    (group : nets.Addr → Bool) where
  abbrev State : Type 0
  State = Machine nets.Addr db.Pool moka.Store

  abbrev run : List (Event nets.Addr db.Pool) → State → State
  run = run_events db moka h names number resolve nets entries

  never_lost :
      (clock : Clock) (found : Option ColdRequest) (m : State)
      → Configured m.proxy.config
      → lost_by db moka h names number resolve group clock found m ≡ 0
  never_lost clock none m configured = refl
  never_lost clock (some req) m configured =
      let (resp, e) =
        handle_parsed-ok db moka h names number resolve answering
          (record clock { timestamp_ms = req.timestamp_ms }) req.query m.proxy configured in
      ap (λ r. withheld group r (get_elem? m.clients req.reply)) e

  after_step :
      (event : Event nets.Addr db.Pool) (m : State)
      → KeepsUpstreams event
      → Configured m.proxy.config
      → Configured (step db moka h names number resolve nets entries event m).proxy.config
  after_step = step-Configured db moka h names number resolve nets entries

  given_up-none :
      (events : List (Event nets.Addr db.Pool)) (m : State)
      → All KeepsUpstreams events
      → Configured m.proxy.config
      → given_up db moka h names number resolve nets entries group events m ≡ 0
  unfolding given_up
  given_up-none [] m keeps configured = refl
  given_up-none (arrives clock datagram src ∷ events) m keeps configured =
      given_up-none events _ keeps.1 (after_step (arrives clock datagram src) m keeps.0 configured)
  given_up-none (takes ∷ events) m keeps configured =
      given_up-none events _ keeps.1 (after_step takes m keeps.0 configured)
  given_up-none (returns clock i ∷ events) m keeps configured =
      let next = step db moka h names number resolve nets entries (returns clock i) m in
      let still = after_step (returns clock i) m keeps.0 configured in
      omega (
        arith,
        never_lost clock (pick i m.running).0 m configured,
        given_up-none events next keeps.1 still,
      )
  given_up-none (managed lists config ∷ events) m keeps configured =
      given_up-none events _ keeps.1 (after_step (managed lists config) m keeps.0 configured)

  length-zero : {A : Type 0} (xs : List A) → length xs ≡ 0 → xs ≡ []
  length-zero [] e = refl
  length-zero (x ∷ xs) e = absurd (omega (arith, e))

  -- Every request is taken, and every task of `cold_path` comes to its end: of so many requests in
  -- the queue, and so many tasks.
  unfoldable pub end_all : Clock → ℕ → ℕ → List (Event nets.Addr db.Pool)
  end_all clock zero zero = []
  end_all clock zero (suc k) = returns clock 0 ∷ end_all clock zero k
  end_all clock (suc n) k = takes ∷ end_all clock n (suc k)

  owed-end_all :
      (clock : Clock) (n k : ℕ)
      → owed db moka h names number resolve nets entries group (end_all clock n k) ≡ 0
  unfolding owed end_all
  owed-end_all clock zero zero = refl
  owed-end_all clock zero (suc k) = owed-end_all clock zero k
  owed-end_all clock (suc n) k = owed-end_all clock n (suc k)

  end_all-KeepsUpstreams : (clock : Clock) (n k : ℕ) → All KeepsUpstreams (end_all clock n k)
  unfolding end_all
  end_all-KeepsUpstreams clock zero zero = tt
  end_all-KeepsUpstreams clock zero (suc k) = (refl, end_all-KeepsUpstreams clock zero k)
  end_all-KeepsUpstreams clock (suc n) k = (refl, end_all-KeepsUpstreams clock n (suc k))

  abbrev Quiet : State → Type 0
  Quiet m = (m.cold ≡ []) × (m.running ≡ [])

  cold-ended :
      (clock : Clock) (found : Option ColdRequest) (others : List ColdRequest) (m : State)
      → (ended db moka h names number resolve clock found others m).cold ≡ m.cold
  cold-ended clock none others m = refl
  cold-ended clock (some req) others m = refl

  running-ended :
      (clock : Clock) (running : List ColdRequest) (k : ℕ) (m : State)
      → length running ≡ suc k
      → length
          (ended db moka h names number resolve clock
            (pick 0 running).0
            (pick 0 running).1
            m).running
        ≡ k
  running-ended clock [] k m e = absurd (omega (arith, e))
  running-ended clock (req ∷ rest) k m e = omega (arith, e)

  taken-lengths :
      (cold : List ColdRequest) (n k : ℕ) (m : State)
      → length cold ≡ suc n
      → length m.running ≡ k
      → (length (taken cold m).cold ≡ n) × (length (taken cold m).running ≡ suc k)
  taken-lengths [] n k m e f = absurd (omega (arith, e))
  taken-lengths (req ∷ rest) n k m e f =
      (omega (arith, e), omega (arith, f, length-append m.running (req ∷ [])))

  end_all-Quiet :
      (clock : Clock) (n k : ℕ) (m : State)
      → length m.cold ≡ n
      → length m.running ≡ k
      → Quiet (run (end_all clock n k) m)
  unfolding run_events step end_all
  end_all-Quiet clock zero zero m e f = (length-zero m.cold e, length-zero m.running f)
  end_all-Quiet clock zero (suc k) m e f =
      end_all-Quiet clock zero k _
        (ap length (cold-ended clock (pick 0 m.running).0 (pick 0 m.running).1 m) ∙ e)
        (running-ended clock m.running k m f)
  end_all-Quiet clock (suc n) k m e f =
      let (left, more) = taken-lengths m.cold n k m e f in end_all-Quiet clock n (suc k) _ left more

  run_events-Sane :
      (events : List (Event nets.Addr db.Pool)) (m : State)
      → Sane group m
      → Sane group (run events m)
  unfolding run_events
  run_events-Sane [] m sane = sane
  run_events-Sane (event ∷ events) m sane =
      run_events-Sane events _
        (step-Sane db moka h names number resolve nets entries group event m sane)

  -- On the runtime monoio and over UDP, where a configured resolver answers every query: start idle
  -- with a configuration that names a resolver, let any events happen, in whatever order, of which
  -- none changes the configuration to one without resolvers, and then let the waiting requests be
  -- taken and the tasks of `cold_path` end. No request is then left, and any group of clients, also
  -- a single one, has been sent exactly as many replies as queries were received from it, clients
  -- that are denied aside.
  pub end_all-sent :
      (clock : Clock) (events : List (Event nets.Addr db.Pool)) (p : Proxy db.Pool moka.Store)
      → All KeepsUpstreams events
      → Configured p.config
      → let m = run events (idle p) in
        let last = run (end_all clock (length m.cold) (length m.running)) m in
        Quiet last
        × (count (sent_to group) last.sent
            ≡ owed db moka h names number resolve nets entries group events)
  end_all-sent clock events p keeps configured =
      let m = run events (idle p) in
      let n = length m.cold in
      let k = length m.running in
      let quiet = end_all-Quiet clock n k m refl refl in
      let sane = run_events-Sane events (idle p) (record { cold_known = tt; running_known = tt }) in
      let still =
        run_events-Configured db moka h names number resolve nets entries events (idle p) keeps
          configured in
      (
        quiet,
        omega (
          arith,
          no_pending group (run (end_all clock n k) m) quiet.0 quiet.1,
          run_events-due db moka h names number resolve nets entries group (end_all clock n k) m
              sane,
          owed-end_all clock n k,
          given_up-none (end_all clock n k) m (end_all-KeepsUpstreams clock n k) still,
          run_events-owed db moka h names number resolve nets entries group events p,
          given_up-none events (idle p) keeps configured,
        ),
      )
