-- ===== src/Analytics/Metrics.antt =====
-- backend/src/analytics/metrics.rs: the counters by outcome and the gauges. The crate
-- `prometheus` keeps the histogram and prints the registry.
pub mod Sums
use denis.Base.{ℕ, ◌+◌, Option, none, some, List, [], ◌∷◌, if◌then◌else◌}
use denis.Handler.Serve.{DnsQueryEvent}
use denis.Text.{Str}

-- The labels "blocked", "hit" and "miss".
pub data Outcome : Type 0 where
  blocked hit miss : Outcome

-- The counter vector by label, the observed latencies in microseconds with the newest first, and
-- the gauges.
pub record Metrics : Type 0 where
  pub blocked_queries : ℕ
  pub hit_queries : ℕ
  pub miss_queries : ℕ
  pub latency : List ℕ
  pub block_size : ℕ
  pub allow_size : ℕ
  pub l1_entries : ℕ

unfoldable pub new_metrics : Metrics
new_metrics = record {
  blocked_queries = 0;
  hit_queries = 0;
  miss_queries = 0;
  latency = [];
  block_size = 0;
  allow_size = 0;
  l1_entries = 0;
}

unfoldable pub outcome_label : DnsQueryEvent → Outcome
outcome_label event = if event.blocked then blocked else if event.cache_hit then hit else miss

-- `with_label_values(…).inc()`
abbrev pub inc : Outcome → Metrics → Metrics
inc blocked m = record m { blocked_queries = m.blocked_queries + 1 }
inc hit m = record m { hit_queries = m.hit_queries + 1 }
inc miss m = record m { miss_queries = m.miss_queries + 1 }

-- `Metrics::record`
unfoldable pub record_event : DnsQueryEvent → Metrics → Metrics
record_event event m =
    let counted = inc (outcome_label event) m in
    record counted { latency = event.latency_us ∷ counted.latency }

-- `encode` is the crate's printer of what the registry gathers.
unfoldable pub render : (Metrics → Str) → ℕ → ℕ → ℕ → Metrics → Str × Metrics
render encode block_size allow_size l1_entries m =
    let gauged = record m {
      block_size = block_size;
      allow_size = allow_size;
      l1_entries = l1_entries;
    } in
    (encode gauged, gauged)
