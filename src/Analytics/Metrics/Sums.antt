-- ===== src/Analytics/Metrics/Sums.antt =====
-- The counters of backend/src/analytics/metrics.rs after any events.
use denis.Analytics.Metrics.{Metrics, Outcome, blocked, hit, miss, outcome_label, inc, record_event}
use denis.Base.{
  ℕ, ◌+◌, true, false, Bool, List, [], ◌∷◌, ◌++◌, length, filter, if◌then◌else◌, ◌≡◌, refl, arith,
}
use denis.Handler.Serve.{DnsQueryEvent}

unfoldable pub record_all : List DnsQueryEvent → Metrics → Metrics
record_all [] m = m
record_all (event ∷ events) m = record_all events (record_event event m)

abbrev pub same_outcome : Outcome → Outcome → Bool
same_outcome blocked blocked = true
same_outcome hit hit = true
same_outcome miss miss = true
same_outcome _ _ = false

abbrev pub counter : Outcome → Metrics → ℕ
counter blocked m = m.blocked_queries
counter hit m = m.hit_queries
counter miss m = m.miss_queries

-- The events that are counted under a label.
unfoldable pub counted : Outcome → List DnsQueryEvent → ℕ
counted o events = length (filter (λ e. same_outcome (outcome_label e) o) events)

counter-inc :
    (o p : Outcome) (m : Metrics)
    → counter o (inc p m) ≡ counter o m + (if same_outcome p o then 1 else 0)
counter-inc blocked blocked m = refl
counter-inc blocked hit m = omega arith
counter-inc blocked miss m = omega arith
counter-inc hit blocked m = omega arith
counter-inc hit hit m = refl
counter-inc hit miss m = omega arith
counter-inc miss blocked m = omega arith
counter-inc miss hit m = omega arith
counter-inc miss miss m = refl

counter-record_event :
    (o : Outcome) (e : DnsQueryEvent) (m : Metrics)
    → counter o (record_event e m)
      ≡ counter o m + (if same_outcome (outcome_label e) o then 1 else 0)
unfolding record_event
counter-record_event blocked e m = counter-inc blocked (outcome_label e) m
counter-record_event hit e m = counter-inc hit (outcome_label e) m
counter-record_event miss e m = counter-inc miss (outcome_label e) m

counted-cons :
    (o : Outcome) (e : DnsQueryEvent) (events : List DnsQueryEvent)
    → counted o (e ∷ events)
      ≡ (if same_outcome (outcome_label e) o then 1 else 0) + counted o events
unfolding counted
counted-cons o e events = ground arith

-- After any events each counter has grown by the number of events with its label.
pub record_all-counted :
    (o : Outcome) (events : List DnsQueryEvent) (m : Metrics)
    → counter o (record_all events m) ≡ counter o m + counted o events
unfolding record_all
record_all-counted o [] m = unfold counted in omega arith
record_all-counted o (e ∷ events) m = omega (
  arith,
  record_all-counted o events (record_event e m),
  counter-record_event o e m,
  counted-cons o e events,
)

pub record_all-append :
    (xs ys : List DnsQueryEvent) (m : Metrics)
    → record_all (xs ++ ys) m ≡ record_all ys (record_all xs m)
unfolding record_all
record_all-append [] ys m = refl
record_all-append (e ∷ xs) ys m = record_all-append xs ys (record_event e m)
