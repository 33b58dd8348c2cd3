-- ===== src/Dns/Server/Owed.antt =====
-- How many replies the UDP socket of backend/src/dns/server.rs sends.
use denis.Base.{
  All, length, ℕ, zero, suc, ◌+◌, Bool, ◌&&◌, Option, none, some, List, [], ◌∷◌, Bytes, Result,
  length, take, pick, pick-count, one, count, count-snoc, inl, inr, ◌≡◌, refl, ap, arith,
  Result-cases,
}
use denis.Config.{RuntimeConfig}
use denis.Dns.Cold.Owed.Handled.{is_query}
use denis.Dns.Cold.Owed.{sent_to}
use denis.Dns.Server.Upstreams.{
  KeepsUpstreams, ended-Configured, connected-Configured, serve-Configured,
}
use denis.Dns.Server.Ends.{first_failure, before_failure}
use denis.Dns.Server.{
  Event, arrives, recv_fails, returns, connects, accept_fails, managed, Running, new_server, ended,
  connected, serve,
}
use denis.Dns.Udp.Handed.{receive-take}
use denis.Dns.Udp.{ServerConfig, Buffer, Capacities, Serving, repeat, receive, finish, reply}
use denis.Handler.Parser.{Query, parse_udp}
use denis.Handler.Serve.Always.{Answering, Configured, handle_parsed-ok}
use denis.Dns.Cold.Owed.Upstreams.{not-true}
use denis.Repo.Decide.{is_empty}
use denis.Handler.Serve.{Moka, Clock, Proxy, UpstreamError, handle}
use denis.Handler.Upstream.{ResponseCode, UpstreamResponse}
use denis.Repo.Database.{Database}
use denis.Repo.Key.{Heapless, TypeNames}

module _ {Addr : Type 0} (group : Addr → Bool) where
  -- The reply that a task is to send to the group.
  abbrev pub task_owes : Buffer × Addr → Bool
  task_owes (buf, src) = is_query buf.bytes && group src

  -- The replies to the group that have been sent or are still to come.
  abbrev pub due_udp : Serving Addr → ℕ
  due_udp s = count (sent_to group) s.sent + count task_owes s.tasks

  -- How many datagrams of the group are queries, cut to the size of a buffer.
  unfoldable pub queries : {Pool : Type 0} → ℕ → List (Event Addr Pool) → ℕ
  queries size [] = 0
  queries size (arrives datagram src ∷ events) =
      one (is_query (take size datagram) && group src) + queries size events
  queries size (recv_fails e ∷ events) = queries size events
  queries size (returns clock i ∷ events) = queries size events
  queries size (connects clock input src ∷ events) = queries size events
  queries size (accept_fails e ∷ events) = queries size events
  queries size (managed lists config ∷ events) = queries size events

  receive-due :
      (caps : Capacities) (config : ServerConfig Addr) (datagram : Bytes) (src : Addr)
      (s : Serving Addr)
      → due_udp (receive caps config datagram src s).1
        ≡ due_udp s + one (is_query (take config.buffer_size datagram) && group src)
  unfolding receive
  receive-due caps config datagram src s = omega (
    arith,
    count-snoc task_owes s.tasks _,
    ap (λ bytes. one (is_query bytes && group src)) (receive-take caps config datagram src s),
  )

-- Every task that runs comes to its end: of so many.
abbrev pub end_tasks : {Addr Pool : Type 0} → Clock → ℕ → List (Event Addr Pool)
end_tasks clock n = repeat n (returns clock 0)

end_tasks-KeepsUpstreams :
    (Addr Pool : Type 0) (clock : Clock) (n : ℕ)
    → All KeepsUpstreams (end_tasks {Addr = Addr} {Pool = Pool} clock n)
unfolding repeat
end_tasks-KeepsUpstreams Addr Pool clock zero = tt
end_tasks-KeepsUpstreams Addr Pool clock (suc n) =
    (refl, end_tasks-KeepsUpstreams Addr Pool clock n)

queries-end_tasks :
    {Addr : Type 0} (Pool : Type 0) (group : Addr → Bool) (clock : Clock) (size n : ℕ)
    → queries group size (before_failure (end_tasks {Addr = Addr} {Pool = Pool} clock n)) ≡ 0
unfolding queries before_failure repeat
queries-end_tasks Pool group clock size zero = refl
queries-end_tasks Pool group clock size (suc n) = queries-end_tasks Pool group clock size n

count-none : {A : Type 0} (p : A → Bool) (xs : List A) → length xs ≡ 0 → count p xs ≡ 0
count-none p [] l = refl
count-none p (x ∷ xs) l = absurd (omega (arith, l))

before_failure-none :
    {Addr Pool : Type 0} (events : List (Event Addr Pool))
    → first_failure events ≡ none
    → before_failure events ≡ events
unfolding first_failure before_failure
before_failure-none [] h = refl
before_failure-none (recv_fails e ∷ events) h = absurd (cc h)
before_failure-none (accept_fails e ∷ events) h = absurd (cc h)
before_failure-none (arrives datagram src ∷ events) h =
    ap (◌∷◌ (arrives datagram src)) (before_failure-none events h)
before_failure-none (returns clock i ∷ events) h =
    ap (◌∷◌ (returns clock i)) (before_failure-none events h)
before_failure-none (connects clock input src ∷ events) h =
    ap (◌∷◌ (connects clock input src)) (before_failure-none events h)
before_failure-none (managed lists config ∷ events) h =
    ap (◌∷◌ (managed lists config)) (before_failure-none events h)

module _ (caps : Capacities) (db : Database) (moka : Moka) (h : Heapless) (names : TypeNames)
    (number : ResponseCode → ℕ)
    (resolve : ℕ → RuntimeConfig → Query → Result UpstreamError UpstreamResponse)
    (answering : Answering resolve) {Addr : Type 0} (group : Addr → Bool) where
  abbrev State : Type 0
  State = Running Addr db.Pool moka.Store

  -- The handler answers what is a query, and nothing else.
  handle-count :
      (clock : Clock) (packet : Bytes) (p : Proxy db.Pool moka.Store) (src : Addr)
      (sent : List (Bytes × Addr))
      → Configured p.config
      → count
          (sent_to group)
          (reply (handle db moka h names number resolve clock packet p).0 src sent)
        ≡ count (sent_to group) sent + one (is_query packet && group src)
  unfolding handle is_query
  handle-count clock packet p src sent configured = elim (Result-cases (parse_udp packet)) [
    | inl (e, failed) ↦ rw (handle, is_query, failed) (omega arith)
    | inr (q, parsed) ↦
        let (resp, e) =
          handle_parsed-ok db moka h names number resolve answering clock q p configured in
        rw (handle, is_query, parsed, e) (count-snoc (sent_to group) sent (resp, src))
  ]

  ended-due :
      (clock : Clock) (i : ℕ) (found : Option (Buffer × Addr)) (s : State)
      → (pick i s.udp.tasks).0 ≡ found
      → Configured s.proxy.config
      → due_udp group (ended caps db moka h names number resolve clock i found s).udp
        ≡ due_udp group s.udp
  unfolding finish
  ended-due clock i none s e configured = refl
  ended-due clock i (some (buf, src)) s e configured =
      let counts = pick-count (task_owes group) i s.udp.tasks (buf, src) e in
      rw (finish, e)
        (omega (arith, counts, handle-count clock buf.bytes s.proxy src s.udp.sent configured))

  serve-due :
      (config : ServerConfig Addr) (events : List (Event Addr db.Pool)) (s : State)
      → All KeepsUpstreams events
      → Configured s.proxy.config
      → due_udp group (serve caps db moka h names number resolve config events s).1.udp
        ≡ due_udp group s.udp + queries group config.buffer_size (before_failure events)
  unfolding serve before_failure queries
  serve-due config [] s keeps configured = omega arith
  serve-due config (arrives datagram src ∷ events) s keeps configured = omega (
    arith,
    serve-due config events (record s { udp = (receive caps config datagram src s.udp).1 }) keeps.1
        configured,
    receive-due group caps config datagram src s.udp,
  )
  serve-due config (recv_fails e ∷ events) s keeps configured = omega arith
  serve-due config (returns clock i ∷ events) s keeps configured =
      let found = (pick i s.udp.tasks).0 in
      omega (
        arith,
        serve-due config events (ended caps db moka h names number resolve clock i found s) keeps.1
            (ended-Configured caps db moka h names number resolve clock i found s configured),
        ended-due clock i found s refl configured,
      )
  serve-due config (connects clock input src ∷ events) s keeps configured =
      serve-due config events (connected caps db moka h names number resolve clock input src s)
        keeps.1
        (connected-Configured caps db moka h names number resolve clock input src s configured)
  serve-due config (accept_fails e ∷ events) s keeps configured = omega arith
  serve-due config (managed lists config' ∷ events) s keeps configured =
      serve-due config events _ keeps.1 (not-true (is_empty config'.upstreams) keeps.0)

  tasks-ended :
      (clock : Clock) (tasks : List (Buffer × Addr)) (n : ℕ) (s : State)
      → tasks ≡ s.udp.tasks
      → length tasks ≡ suc n
      → length (ended caps db moka h names number resolve clock 0 (pick 0 tasks).0 s).udp.tasks ≡ n
  unfolding finish
  tasks-ended clock [] n s e l = absurd (omega (arith, l))
  tasks-ended clock (task ∷ rest) n s e l =
      let others : length rest ≡ length (pick 0 s.udp.tasks).1 =
        ap (λ (ts : List (Buffer × Addr)). length (pick 0 ts).1) e in
      rw (finish, ← e) (omega (arith, l, others))

  end_tasks-tasks :
      (config : ServerConfig Addr) (clock : Clock) (n : ℕ) (s : State)
      → length s.udp.tasks ≡ n
      → length (serve caps db moka h names number resolve config (end_tasks clock n) s).1.udp.tasks
        ≡ 0
  unfolding serve repeat
  end_tasks-tasks config clock zero s l = l
  end_tasks-tasks config clock (suc n) s l =
      end_tasks-tasks config clock n _ (tasks-ended clock s.udp.tasks n s refl l)

  -- On the runtime tokio, where a configured resolver answers every query: start a new server
  -- with a configuration that names a resolver, let datagrams and connections arrive, handlers
  -- return and the management change the lists and the configuration, in whatever order and never
  -- to one without resolvers, let no socket fail, and then let the tasks of the UDP socket end.
  -- No task is then left, and any group of clients, also a single one, has been sent exactly as
  -- many replies as it sent datagrams that are queries, each cut to the size of a buffer.
  pub serve-sent :
      (clock : Clock) (config : ServerConfig Addr) (events : List (Event Addr db.Pool))
      (p : Proxy db.Pool moka.Store)
      → first_failure events ≡ none
      → All KeepsUpstreams events
      → Configured p.config
      → let s =
          (serve caps db moka h names number resolve config events (new_server caps config p)).1 in
        let last =
          (serve caps db moka h names number resolve config
            (end_tasks clock (length s.udp.tasks))
            s).1 in
        (length last.udp.tasks ≡ 0)
        × (count (sent_to group) last.udp.sent ≡ queries group config.buffer_size events)
  unfolding new_server
  serve-sent clock config events p safe keeps configured =
      let s =
        (serve caps db moka h names number resolve config events (new_server caps config p)).1 in
      let n = length s.udp.tasks in
      let quiet = end_tasks-tasks config clock n s refl in
      (
        quiet,
        omega (
          arith,
          count-none (task_owes group) _ quiet,
          serve-due config events (new_server caps config p) keeps configured,
          serve-due config (end_tasks clock n) s (end_tasks-KeepsUpstreams Addr db.Pool clock n) (
              serve-Configured caps db moka h names number resolve config events
                (new_server caps config p) keeps configured),
          queries-end_tasks db.Pool group clock config.buffer_size n,
          ap (queries group config.buffer_size) (before_failure-none events safe),
        ),
      )
