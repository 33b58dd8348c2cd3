-- ===== src/Tests/Racing.antt =====
-- Examples of the theorems on the servers whose tasks run side by side.
use denis.Base.{ℕ, ◌+◌, Bool, none, List, [], ◌∷◌, ◌==◌, All, count, length, ◌≡◌, refl, arith}
use denis.Dns.Cold.Keeps.{Answered}
use denis.Dns.Cold.Keeps.Run.{run_events-Answered}
use denis.Dns.Cold.Keeps.Run
use denis.Dns.Cold.Owed.Drained.{end_all, end_all-sent}
use denis.Dns.Cold.Owed.Ledger.{owed, given_up, run_events-owed}
use denis.Dns.Cold.Owed.{due, sent_to}
use denis.Dns.Cold.{Event, arrives, takes, returns, managed, idle, run_events}
use denis.Dns.Server.Correct.{serve-Answered}
use denis.Dns.Server.Correct
use denis.Dns.Server.Ends.{first_failure, first_error, before_error, run-ends}
use denis.Dns.Server.Owed.{end_tasks, queries, serve-sent}
use denis.Dns.Server.{new_server, serve, run}
use denis.Dns.Server
use denis.Dns.Udp.{ServerConfig}
use denis.Handler.Pool.Resolve.{resolve-Answers}
use denis.Base.{==_iff, true}
use denis.Acl.{AclEntry, deny, allow, decide, first_match}
use denis.Dns.Cold.Owed.Denied.{sent-denied}
use denis.Tests.Admitting.{hosts}
use denis.Tests.Collecting.{capacities}
use denis.Tests.Echoing.{echo, echo-Answering}
use denis.Tests.Samples.{tables, Tables, buffer, one_name}
use denis.Tests.Serving.{
  one_slot, one_slot-Expires, number, ask, world, clock, proxy, proxy-HoldsCacheable, packet,
  config,
}
use denis.Text.{Str, codes}

-- Two clients ask for the same name; the list is emptied while both requests wait, and the second
-- task ends first.
abbrev race : List (Event ℕ Tables)
race =
    arrives clock packet 1
    ∷ arrives clock packet 2
    ∷ managed (record { block_list = []; allow_list = []; pool = ([], []) }) config
    ∷ takes
    ∷ takes
    ∷ returns clock 1
    ∷ returns clock 0
    ∷ []

run_events-Answered_example :
    All
      (Answered (λ datagram src. Run.Arrived datagram src race))
      (run_events tables one_slot buffer one_name number ask hosts [] race (idle proxy)).sent
run_events-Answered_example =
    run_events-Answered tables one_slot one_slot-Expires buffer one_name number ask
      (λ n. resolve-Answers world []) hosts [] race proxy proxy-HoldsCacheable

abbrev first_client : ℕ → Bool
first_client a = a == 1

run_events-owed_example :
    due first_client
        (run_events tables one_slot buffer one_name number ask hosts [] race (idle proxy))
      + given_up tables one_slot buffer one_name number ask hosts [] first_client race (idle proxy)
    ≡ owed tables one_slot buffer one_name number ask hosts [] first_client race
run_events-owed_example =
    run_events-owed tables one_slot buffer one_name number ask hosts [] first_client race proxy

abbrev two_arrivals : List (Event ℕ Tables)
two_arrivals = arrives clock packet 1 ∷ takes ∷ arrives clock packet 2 ∷ []

end_all-sent_example :
    let m =
      run_events tables one_slot buffer one_name number echo hosts [] two_arrivals (idle proxy) in
    let last =
      run_events tables one_slot buffer one_name number echo hosts []
        (end_all tables one_slot buffer one_name number echo echo-Answering hosts [] first_client
          clock
          (length m.cold)
          (length m.running))
        m in
    ((last.cold ≡ []) × (last.running ≡ []))
    × (count (sent_to first_client) last.sent
        ≡ owed tables one_slot buffer one_name number echo hosts [] first_client two_arrivals)
end_all-sent_example =
    end_all-sent tables one_slot buffer one_name number echo echo-Answering hosts [] first_client
      clock two_arrivals proxy (refl, (refl, (refl, tt))) refl

abbrev setting : ServerConfig ℕ
setting = record { bind_addr = 53; buffer_size = 512; buffer_count = 1 }

abbrev traffic : List (Server.Event ℕ Tables)
traffic =
    Server.arrives packet 5
    ∷ Server.connects clock (0 ∷ 1 ∷ 7 ∷ []) 6
    ∷ Server.arrives (1 ∷ 2 ∷ []) 7
    ∷ Server.returns clock 1
    ∷ Server.returns clock 0
    ∷ Server.recv_fails (codes "closed")
    ∷ Server.arrives packet 8
    ∷ []

serve-Answered_example :
    All
      (Answered (λ datagram src. Correct.Arrived datagram src traffic))
      (serve capacities tables one_slot buffer one_name number ask setting traffic
        (new_server capacities setting proxy)).1.udp.sent
serve-Answered_example =
    serve-Answered capacities tables one_slot one_slot-Expires buffer one_name number ask
      (λ n. resolve-Answers world []) setting traffic proxy (omega arith) proxy-HoldsCacheable

-- Two datagrams, of which one is a query; the task of the query ends, the other works on.
abbrev two_datagrams : List (Server.Event ℕ Tables)
two_datagrams =
    Server.arrives packet 1
    ∷ Server.arrives (1 ∷ 2 ∷ []) 1
    ∷ Server.returns clock 0
    ∷ Server.arrives packet 2
    ∷ []

serve-sent_example :
    let s =
      (serve capacities tables one_slot buffer one_name number echo setting two_datagrams
        (new_server capacities setting proxy)).1 in
    let last =
      (serve capacities tables one_slot buffer one_name number echo setting
        (end_tasks clock (length s.udp.tasks))
        s).1 in
    (length last.udp.tasks ≡ 0)
    × (count (sent_to first_client) last.udp.sent ≡ queries first_client 512 two_datagrams)
unfolding first_failure
serve-sent_example =
    serve-sent capacities tables one_slot buffer one_name number echo echo-Answering first_client
      clock setting two_datagrams proxy refl (refl, (refl, (refl, (refl, tt)))) refl

abbrev pub show_addr : ℕ → Str
show_addr a = codes "localhost:53"

run-ends_example :
    run capacities tables one_slot buffer one_name number ask show_addr setting none none traffic
      (new_server capacities setting proxy)
    ≡ (
      first_error show_addr 53 none none traffic,
      (serve capacities tables one_slot buffer one_name number ask setting
          (before_error none none traffic)
          (new_server capacities setting proxy)).1,
    )
run-ends_example =
    run-ends capacities tables one_slot buffer one_name number ask show_addr setting none none
      traffic (new_server capacities setting proxy)

-- The first client is denied, the second admitted.
abbrev entries : List (AclEntry ℕ)
entries =
    (record { action = deny; networks = 1 ∷ [] })
    ∷ (record { action = allow; networks = 2 ∷ [] })
    ∷ []

first-denied : (src : ℕ) → first_client src ≡ true → decide hosts entries src ≡ deny
unfolding decide first_match
first-denied src e = let same : src ≡ 1 = (==_iff src 1).0 e in rw same refl

sent-denied_example :
    count
      (sent_to first_client)
      (run_events tables one_slot buffer one_name number ask hosts entries race (idle proxy)).sent
    ≡ 0
sent-denied_example =
    sent-denied tables one_slot buffer one_name number ask hosts entries first_client first-denied
      race proxy
