-- ===== src/Analytics/Producer/Counted.antt =====
-- What the counters of backend/src/analytics/metrics.rs show of the events that were sent.
use denis.Analytics.Metrics.Sums.{record_all, record_all-counted, counter, counted}
use denis.Analytics.Metrics.{Metrics, Outcome}
use denis.Analytics.Producer.{Producing, channel_size}
use denis.Analytics.Producer.Runs.{Runs, Runs-Ledger, all_measured}
use denis.Base.{
  ◌+◌, ◌≤◌, ◌<◌, Option, some, List, [], ◌++◌, length, ◌≡◌, ◌⊎◌, inl, inr, sym, ap, ◌∙◌, arith,
}
use denis.Handler.Serve.{DnsQueryEvent}
use denis.Text.{Str}
use mathlib.Core.List.{append-nil}

module _ (to_string : DnsQueryEvent → Option Str) where
  -- From an empty channel on, where no more events have been sent than the channel holds and none
  -- waits any more, every counter of the metrics has grown by the number of events sent that have
  -- its label.
  pub Runs-counted :
      (start : Producing) (sent : List DnsQueryEvent) (s : Producing) (o : Outcome)
      (before after : Metrics)
      → start.channel ≡ some []
      → Runs to_string start sent s
      → length sent ≤ channel_size
      → s.channel ≡ some []
      → start.metrics ≡ some before
      → s.metrics ≡ some after
      → counter o after ≡ counter o before + counted o sent
  Runs-counted start sent s o before after fresh r few idle was is =
      let a = Runs-Ledger to_string start sent s fresh r in
      let none_left : a.queue ≡ [] = cc (a.channel_queue, idle) in
      let all_done : a.done ≡ sent =
        sym (append-nil a.done)
        ∙ ap (◌++◌ a.done) (sym none_left)
        ∙ nothing_lost (a.done ++ a.queue) sent few a.lossless in
      let measures : some after ≡ all_measured to_string a.done start.metrics =
        sym is ∙ a.metrics_done in
      let counts : after ≡ record_all a.done before =
        same_some (measures ∙ ap (all_measured to_string a.done) was) in
      ap (counter o) counts
      ∙ record_all-counted o a.done before
      ∙ ap (λ events. counter o before + counted o events) all_done
    where
      nothing_lost :
          (seen all_sent : List DnsQueryEvent)
          → length all_sent ≤ channel_size
          → (seen ≡ all_sent) ⊎ (channel_size < length all_sent)
          → seen ≡ all_sent
      nothing_lost seen all_sent few (inl e) = e
      nothing_lost seen all_sent few (inr many) = absurd (omega (arith, few, many))

      same_some : {a b : Metrics} → Path (Option Metrics) (some a) (some b) → a ≡ b
      same_some e = cc e
