-- ===== src/Analytics/Stats.antt =====
-- backend/src/analytics/stats.rs: the figures on the topic and on the table. Kafka, ClickHouse
-- and their crates are not in the repository.
pub mod Figures
use denis.Base.Int.{ℤ, pos, negsuc, ◌+ℤ◌, ◌-ℤ◌, max_ℤ, as_signed}
use denis.Base.{
  ℕ, Bool, true, false, ◌&&◌, ◌==◌, Option, none, some, List, [], ◌∷◌, map, length, if◌then◌else◌,
}
use denis.Text.{Str, str_eq, codes}

abbrev pub topic : Str
topic = codes "dns-queries"

-- The metadata of a topic: its name, and the numbers of its partitions.
pub record TopicMeta : Type 0 where
  pub name : Str
  pub partitions : List ℕ

-- A place that a group has committed; `raw` is what `Offset::to_raw` gives for it.
pub record Committed : Type 0 where
  pub topic_name : Str
  pub partition : ℕ
  pub raw : Option ℤ

-- The crate `rdkafka`, with the answers of the brokers.
pub record Kafka : Type 1 where
  pub Consumer : Type 0
  pub create : Str → Option Consumer
  pub fetch_metadata : Consumer → Option (List TopicMeta)
  pub committed : List ℕ → Consumer → Option (List Committed)
  pub fetch_watermarks : ℕ → Consumer → Option (ℤ × ℤ)

pub record KafkaStats : Type 0 where
  pub name : Str
  pub partitions : ℤ
  pub total_messages : ℤ
  pub consumer_lag : ℤ

-- The figures where the brokers cannot be asked.
unfoldable pub unknown_stats : KafkaStats
unknown_stats = record {
  name = topic;
  partitions = pos 0;
  total_messages = negsuc 0;
  consumer_lag = negsuc 0;
}

-- `Iterator::find`
unfoldable pub find {ℓ} : {A : Type ℓ} → (A → Bool) → List A → Option A
find p [] = none
find p (x ∷ xs) = let rest = find p xs in if p x then some x else rest

module _ (kafka : Kafka) where
  abbrev offset_of : ℤ → Option Committed → ℤ
  offset_of low none = max_ℤ low (pos 0)
  offset_of low (some c) = elim c.raw [ some raw ↦ raw | none ↦ max_ℤ low (pos 0) ]

  -- The place up to which the group has read a partition, whose first message is `low`.
  unfoldable pub committed_offset : List Committed → ℤ → ℕ → ℤ
  committed_offset elements low pid =
      offset_of low (find (λ e. str_eq e.topic_name topic && (e.partition == pid)) elements)

  -- The loop over the partitions: one whose marks cannot be read is passed over. A sum of two
  -- `i64` is taken not to overflow.
  unfoldable pub sum_partitions : kafka.Consumer → List Committed → List ℕ → ℤ → ℤ → ℤ × ℤ
  sum_partitions consumer elements [] total lag = (total, lag)
  sum_partitions consumer elements (pid ∷ pids) total lag =
      elim (kafka.fetch_watermarks pid consumer) [
        | none ↦ sum_partitions consumer elements pids total lag
        | some marks ↦
            let (low, high) = marks in
            sum_partitions consumer elements pids (total +ℤ max_ℤ (high -ℤ low) (pos 0))
              (lag +ℤ max_ℤ (high -ℤ committed_offset elements low pid) (pos 0))
      ]

  abbrev known : Option (List Committed) → List Committed
  known none = []
  known (some elements) = elements

  -- The figures of a topic that was found.
  unfoldable pub topic_stats : kafka.Consumer → Option TopicMeta → KafkaStats
  topic_stats consumer none = record {
    name = topic;
    partitions = pos 0;
    total_messages = pos 0;
    consumer_lag = pos 0;
  }
  topic_stats consumer (some found) =
      let (total, lag) =
        sum_partitions consumer (known (kafka.committed found.partitions consumer)) found.partitions
          (pos 0) (pos 0) in
      record {
        name = topic;
        partitions = as_signed 32 (length found.partitions);
        total_messages = total;
        consumer_lag = lag;
      }

  unfoldable pub fetch_kafka_stats_sync : Str → KafkaStats
  fetch_kafka_stats_sync brokers = elim (kafka.create brokers) [
    | none ↦ unknown_stats
    | some consumer ↦ elim (kafka.fetch_metadata consumer) [
      | none ↦ unknown_stats
      | some topics ↦ topic_stats consumer (find (λ t. str_eq t.name topic) topics)
    ]
  ]

  -- `finished` is false where the task of the blocking pool has panicked.
  unfoldable pub kafka_stats : Bool → Str → KafkaStats
  kafka_stats finished brokers = if finished then fetch_kafka_stats_sync brokers else unknown_stats

-- The eight statements of `clickhouse_stats`.
pub data Figure : Type 0 where
  total hit_rate blocked_total average_latency last_hour last_24h top response : Figure

pub record CountRow : Type 0 where
  pub key : Str
  pub count : ℕ

-- The crate `clickhouse`, with floating-point numbers as it yields them. A cursor is its rows,
-- where `none` is a row that cannot be read.
pub record Query : Type 1 where
  pub F64 : Type 0
  pub zero_f64 : F64
  pub is_finite : F64 → Bool
  pub fetch_one_u64 : Figure → Option ℕ
  pub fetch_one_f64 : Figure → Option F64
  pub fetch : Figure → Option (List (Option CountRow))

module _ (q : Query) where
  unfoldable pub u64_query : Figure → ℕ
  u64_query figure = elim (q.fetch_one_u64 figure) [ some value ↦ value | none ↦ 0 ]

  unfoldable pub f64_query : Figure → q.F64
  f64_query figure = elim (q.fetch_one_f64 figure) [
    | some value ↦ if q.is_finite value then value else q.zero_f64
    | none ↦ q.zero_f64
  ]

  -- The loop over a cursor: a row that cannot be read ends it.
  unfoldable pub cursor_rows : List (Option CountRow) → List CountRow
  cursor_rows [] = []
  cursor_rows (none ∷ rest) = []
  cursor_rows (some row ∷ rest) = row ∷ cursor_rows rest

  unfoldable pub multi_query : Figure → List CountRow
  multi_query figure = elim (q.fetch figure) [ some cursor ↦ cursor_rows cursor | none ↦ [] ]

  pub record ClickHouseStats : Type 0 where
    pub total_queries : ℕ
    pub cache_hit_rate_pct : q.F64
    pub blocked_count : ℕ
    pub avg_latency_us : q.F64
    pub queries_last_hour : ℕ
    pub queries_last_24h : ℕ
    pub top_domains : List CountRow
    pub response_codes : List CountRow

  unfoldable pub clickhouse_stats : ClickHouseStats
  clickhouse_stats = record {
    total_queries = u64_query total;
    cache_hit_rate_pct = f64_query hit_rate;
    blocked_count = u64_query blocked_total;
    avg_latency_us = f64_query average_latency;
    queries_last_hour = u64_query last_hour;
    queries_last_24h = u64_query last_24h;
    top_domains = multi_query top;
    response_codes = multi_query response;
  }

  pub record AllStats : Type 0 where
    pub kafka : KafkaStats
    pub clickhouse : ClickHouseStats

  unfoldable pub get_stats : Kafka → Bool → Str → AllStats
  get_stats kafka finished brokers = record {
    kafka = kafka_stats kafka finished brokers;
    clickhouse = clickhouse_stats;
  }
