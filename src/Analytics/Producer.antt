-- ===== src/Analytics/Producer.antt =====
-- backend/src/analytics/producer.rs: the channel of events and the task that collects them. The
-- channel is of the crate `tokio`; the two ends run side by side.
pub mod Runs
pub mod Counted
use denis.Analytics.Metrics.{Metrics, record_event}
use denis.Base.{ℕ, ◌+◌, Option, none, some, List, [], ◌∷◌, ◌++◌, length, ltb, if◌then◌else◌}
use denis.Handler.Serve.{DnsQueryEvent}
use denis.Text.{Str}

-- The size of the channel.
abbrev pub channel_size : ℕ
channel_size = 10_000

-- A record for Kafka on the topic: its key and its payload.
abbrev pub FutureRecord : Type 0
FutureRecord = Str × Str

-- What the sender and the task hold: the channel where there is one, the metrics and the records
-- that were handed to the client of Kafka, where these are in use.
pub record Producing : Type 0 where
  pub channel : Option (List DnsQueryEvent)
  pub metrics : Option Metrics
  pub kafka : Option (List FutureRecord)

abbrev client_of : Option Str → Option (List FutureRecord)
client_of none = none
client_of (some brokers) = some []

-- `AnalyticsProducer::spawn`
unfoldable pub spawn : Option Metrics → Option Str → Producing
spawn none none = record { channel = none; metrics = none; kafka = none }
spawn (some m) brokers = record { channel = some []; metrics = some m; kafka = client_of brokers }
spawn none (some b) = record { channel = some []; metrics = none; kafka = client_of (some b) }

-- `try_send`: a full channel refuses the event.
abbrev pub try_send : DnsQueryEvent → Option (List DnsQueryEvent) → Option (List DnsQueryEvent)
try_send event none = none
try_send event (some queue) =
    if ltb (length queue) channel_size then some (queue ++ event ∷ []) else some queue

-- `AnalyticsProducer::send`
unfoldable pub send : DnsQueryEvent → Producing → Producing
send event s = record s { channel = try_send event s.channel }

-- `to_string` is `serde_json` on an event. The records are those handed to `producer.send`, in
-- order: its result, a failure to deliver included, is dropped, so that a record of the list need
-- not have reached the topic.
module _ (to_string : DnsQueryEvent → Option Str) where
  unfoldable pub send_kafka : DnsQueryEvent → List FutureRecord → List FutureRecord
  send_kafka event sent = elim (to_string event) [
    | none ↦ sent
    | some payload ↦ sent ++ (event.domain, payload) ∷ []
  ]

  abbrev pub measured : DnsQueryEvent → Option Metrics → Option Metrics
  measured event none = none
  measured event (some m) = some (record_event event m)

  abbrev pub published : DnsQueryEvent → Option (List FutureRecord) → Option (List FutureRecord)
  published event none = none
  published event (some sent) = some (send_kafka event sent)

  -- A round of the task: it waits while the channel is empty.
  abbrev pub collect_from : Option (List DnsQueryEvent) → Producing → Producing
  collect_from none s = s
  collect_from (some []) s = s
  collect_from (some (event ∷ rest)) s = record {
    channel = some rest;
    metrics = measured event s.metrics;
    kafka = published event s.kafka;
  }

  unfoldable pub collect : Producing → Producing
  collect s = collect_from s.channel s
