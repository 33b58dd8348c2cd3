-- ===== src/Analytics/Clients.antt =====
-- backend/src/analytics: how the clients of Kafka and ClickHouse are made, in producer.rs,
-- consumer.rs and stats.rs.
use denis.Analytics.Stats.{topic}
use denis.Base.{Option, none, some, List, [], ◌∷◌, Result, ok, ◌>>=◌, expect}
use denis.Text.{Str, codes}

-- The crate `rdkafka`: a client is created from its settings, and may refuse them.
pub record Rdkafka : Type 1 where
  pub Producer : Type 0
  pub Consumer : Type 0
  pub create_producer : List (Str × Str) → Result Str Producer
  pub create_consumer : List (Str × Str) → Result Str Consumer
  pub subscribe : List Str → Consumer → Result Str Consumer

-- The client of the crate `clickhouse`.
pub record ChClient : Type 1 where
  pub Client : Type 0
  pub default : Client
  pub with_url : Str → Client → Client
  pub with_user : Str → Client → Client
  pub with_password : Str → Client → Client

module _ (kafka : Rdkafka) where
  unfoldable pub build_kafka : Str → Result Str kafka.Producer
  build_kafka brokers = expect (codes "Failed to create Kafka producer") (
      kafka.create_producer (
        (codes "bootstrap.servers", brokers)
        ∷ (codes "message.timeout.ms", codes "5000")
        ∷ (codes "queue.buffering.max.ms", codes "100")
        ∷ []))

  -- `kafka_brokers.as_deref().map(build_kafka)`
  abbrev pub kafka_of : Option Str → Result Str (Option kafka.Producer)
  kafka_of none = ok none
  kafka_of (some brokers) = do producer ← build_kafka brokers; ok (some producer)

module _ (clickhouse : ChClient) where
  abbrev connect_clickhouse : Str → Str → Str → clickhouse.Client
  connect_clickhouse ch_url ch_user ch_password =
      clickhouse.with_password ch_password
        (clickhouse.with_user ch_user (clickhouse.with_url ch_url clickhouse.default))

  pub record StatsClient : Type 0 where
    pub kafka_brokers : Str
    pub ch : clickhouse.Client

  -- `StatsClient::new`
  unfoldable pub new_stats_client : Str → Str → Str → Str → StatsClient
  new_stats_client brokers ch_url ch_user ch_password = record {
    kafka_brokers = brokers;
    ch = connect_clickhouse ch_url ch_user ch_password;
  }

module _ (kafka : Rdkafka) (clickhouse : ChClient) where
  pub record AnalyticsConsumer : Type 0 where
    pub consumer : kafka.Consumer
    pub ch : clickhouse.Client

  -- `AnalyticsConsumer::new`
  unfoldable pub new_consumer : Str → Str → Str → Str → Str → Result Str AnalyticsConsumer
  new_consumer brokers group_id ch_url ch_user ch_password = do
    created ← expect (codes "Failed to create Kafka consumer") (
        kafka.create_consumer (
          (codes "bootstrap.servers", brokers)
          ∷ (codes "group.id", group_id)
          ∷ (codes "enable.auto.commit", codes "false")
          ∷ (codes "auto.offset.reset", codes "earliest")
          ∷ []))
    consumer ←
        expect (codes "Failed to subscribe to dns-queries topic")
          (kafka.subscribe (topic ∷ []) created)
    ok (record {
      consumer = consumer;
      ch = connect_clickhouse clickhouse ch_url ch_user ch_password;
    })
