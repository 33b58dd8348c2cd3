-- ===== src/Analytics/Stats/Figures.antt =====
-- What the figures of backend/src/analytics/stats.rs can be.
use denis.Analytics.Stats.{
  Kafka, TopicMeta, Committed, unknown_stats, sum_partitions, committed_offset, topic_stats,
  fetch_kafka_stats_sync, kafka_stats, find, topic,
}
use denis.Base.Int.{ℤ, pos, ◌+ℤ◌, ◌-ℤ◌, ◌≤ℤ◌, max_ℤ, +ℤ_parts}
use denis.Base.{
  ℕ, Bool, true, false, Option, none, some, List, [], ◌∷◌, ◌≡◌, ◌⊎◌, inl, inr, refl, arith,
  Option-cases,
}
use denis.Text.{Str, str_eq}

-- An integer that is not negative, by its parts.
abbrev Natural : ℤ → Type 0
Natural a = pos 0 ≤ℤ a

max_zero-Natural : (a : ℤ) → Natural (max_ℤ a (pos 0))
max_zero-Natural a = ground arith

add-Natural : (a b : ℤ) → Natural a → Natural b → Natural (a +ℤ b)
add-Natural a b ha hb = omega (arith, +ℤ_parts a b)

module _ (kafka : Kafka) where
  sums-Natural :
      (consumer : kafka.Consumer) (elements : List Committed) (pids : List ℕ) (total lag : ℤ)
      → Natural total
      → Natural lag
      → Natural (sum_partitions kafka consumer elements pids total lag).0
        × Natural (sum_partitions kafka consumer elements pids total lag).1
  unfolding sum_partitions
  sums-Natural consumer elements [] total lag t l = (t, l)
  sums-Natural consumer elements (pid ∷ pids) total lag t l =
      elim (Option-cases (kafka.fetch_watermarks pid consumer)) [
        | inl e ↦ rw (sum_partitions, e) (sums-Natural consumer elements pids total lag t l)
        | inr ((low, high), e) ↦
            rw (sum_partitions, e)
              (sums-Natural consumer elements pids (total +ℤ max_ℤ (high -ℤ low) (pos 0))
                (lag +ℤ max_ℤ (high -ℤ committed_offset kafka elements low pid) (pos 0))
                (add-Natural total _ t (max_zero-Natural (high -ℤ low)))
                (add-Natural lag _ l
                  (max_zero-Natural (high -ℤ committed_offset kafka elements low pid))))
      ]

  topic_stats-Natural :
      (consumer : kafka.Consumer) (found : Option TopicMeta)
      → Natural (topic_stats kafka consumer found).total_messages
        × Natural (topic_stats kafka consumer found).consumer_lag
  unfolding topic_stats
  topic_stats-Natural consumer none = (omega arith, omega arith)
  topic_stats-Natural consumer (some found) =
      sums-Natural consumer _ found.partitions (pos 0) (pos 0) (omega arith) (omega arith)

  -- The figures on the topic say that they are unknown, or neither the number of messages nor the
  -- lag is negative, whatever marks and offsets the brokers give.
  pub kafka_stats-natural :
      (finished : Bool) (brokers : Str)
      → (kafka_stats kafka finished brokers ≡ unknown_stats)
        ⊎ ((pos 0 ≤ℤ (kafka_stats kafka finished brokers).total_messages)
            × (pos 0 ≤ℤ (kafka_stats kafka finished brokers).consumer_lag))
  unfolding kafka_stats fetch_kafka_stats_sync
  kafka_stats-natural false brokers = inl refl
  kafka_stats-natural true brokers = elim (Option-cases (kafka.create brokers)) [
    | inl e ↦ inl (rw (fetch_kafka_stats_sync, e) refl)
    | inr (consumer, e) ↦ elim (Option-cases (kafka.fetch_metadata consumer)) [
      | inl n ↦ inl (rw (fetch_kafka_stats_sync, e, n) refl)
      | inr (topics, y) ↦ inr (
          rw (fetch_kafka_stats_sync, e, y)
            (topic_stats-Natural consumer (find (λ t. str_eq t.name topic) topics)))
    ]
  ]
