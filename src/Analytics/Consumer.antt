-- ===== src/Analytics/Consumer.antt =====
-- backend/src/analytics/consumer.rs: the task that puts the events from Kafka into ClickHouse, in
-- batches. Both servers, and their crates, are not in the repository.
pub mod Batches
pub mod Retry
use denis.Base.{
  ℕ, zero, suc, ◌+◌, ◌*◌, ◌/◌, ◌%◌, ◌^◌, min, Bool, true, false, Option, none, some, List, [], ◌∷◌,
  ◌++◌, length, leb, if◌then◌else◌,
}
use denis.Handler.Serve.{DnsQueryEvent}
use denis.Text.{Str}

abbrev pub batch_size : ℕ
batch_size = 1_000

pub record DnsQueryRow : Type 0 where
  pub timestamp_ms : ℕ
  pub domain : Str
  pub query_type : Str
  pub response_code : Str
  pub cache_hit : ℕ
  pub blocked : ℕ
  pub latency_us : ℕ

-- The crate `clickhouse`: an insert is opened, rows are written to it, and its end sends them.
pub record ClickHouse : Type 1 where
  pub Server : Type 0
  pub Insert : Type 0
  pub insert : Server → Option Insert
  pub write : DnsQueryRow → Insert → Bool × Insert
  pub end : Insert → Server → Bool × Server
  -- The rows of `dns_queries`.
  pub rows : Server → List DnsQueryRow

-- A message from Kafka; its place in the topic is what a commit names.
pub record KafkaMessage : Type 0 where
  pub payload : Option Str
  pub offset : ℕ

-- What `tokio::select!` may yield in a round.
pub data Round : Type 0 where
  received : KafkaMessage → Round
  receive_error : Round
  tick : Round

-- `as u8`
abbrev pub bit : Bool → ℕ
bit b = if b then 1 else 0

-- `serde_json` on an event, and hickory's names of types and of response codes; a response code
-- is given by its upper and its lower bits.
pub record Reading : Type 0 where
  pub from_slice : Str → Option DnsQueryEvent
  pub type_name : ℕ → Str
  pub code_name : ℕ → ℕ → Str

-- `DnsQueryRow::from`
unfoldable pub row_of : Reading → DnsQueryEvent → DnsQueryRow
row_of reading e = record {
  timestamp_ms = e.timestamp_ms;
  domain = e.domain;
  query_type = reading.type_name e.query_type;
  response_code = reading.code_name (e.response_code / 2 ^ 4 % 2 ^ 8) (e.response_code % 2 ^ 4);
  cache_hit = bit e.cache_hit;
  blocked = bit e.blocked;
  latency_us = e.latency_us;
}

-- A sleep before the rest of the loop.
abbrev pub slept : ℕ → Option (List ℕ) → Option (List ℕ)
slept backoff none = none
slept backoff (some sleeps) = some (backoff ∷ sleeps)

-- The loop that makes the table: `answers i` tells whether the try numbered i succeeds. The
-- result is the seconds slept after each failure; `none` is a loop that has not ended on this
-- fuel.
unfoldable pub ensure_loop : (ℕ → Bool) → ℕ → ℕ → ℕ → Option (List ℕ)
ensure_loop answers zero tries backoff = none
ensure_loop answers (suc fuel) tries backoff =
    let rest = ensure_loop answers fuel (suc tries) (min (backoff * 2) 30) in
    if answers tries then some [] else slept backoff rest

module _ (ch : ClickHouse) where
  -- An error of a row does not end the loop.
  unfoldable pub write_rows : List DnsQueryRow → ch.Insert → ch.Insert
  write_rows [] insert = insert
  write_rows (row ∷ rows) insert = write_rows rows (ch.write row insert).1

  -- `flush_batch`: what becomes of the server; the batch is empty afterwards.
  unfoldable pub flush_batch : List DnsQueryRow → ch.Server → List DnsQueryRow × ch.Server
  flush_batch batch server = elim (ch.insert server) [
    | none ↦ ([], server)
    | some insert ↦ ([], (ch.end (write_rows batch insert) server).1)
  ]

  -- The batch, the server, and the offsets that were committed, with the newest first.
  pub record Consuming : Type 0 where
    pub batch : List DnsQueryRow
    pub server : ch.Server
    pub commits : List ℕ

  module _ (reading : Reading) where
    -- The row of a message that has a payload which is an event.
    abbrev pub decoded : KafkaMessage → Option DnsQueryRow
    decoded m = elim m.payload [
      | none ↦ none
      | some payload ↦ elim (reading.from_slice payload) [
        | none ↦ none
        | some event ↦ some (row_of reading event)
      ]
    ]

    -- A row at the end of the batch, which is flushed when it is full.
    unfoldable pub push_row : ℕ → DnsQueryRow → Consuming → Consuming
    push_row offset row s =
        let batch = s.batch ++ row ∷ [] in
        let (emptied, server) = flush_batch batch s.server in
        if leb batch_size (length batch)
        then record { batch = emptied; server = server; commits = offset ∷ s.commits }
        else record s { batch = batch }

    -- The tick of the timer: a batch that is not empty is flushed.
    abbrev pub flush_some : List DnsQueryRow → Consuming → Consuming
    flush_some [] s = s
    flush_some (row ∷ rows) s =
        let (emptied, server) = flush_batch s.batch s.server in
        record s { batch = emptied; server = server }

    unfoldable pub flush_rest : Consuming → Consuming
    flush_rest s = flush_some s.batch s

    abbrev pub take_in : ℕ → Option DnsQueryRow → Consuming → Consuming
    take_in offset none s = s
    take_in offset (some row) s = push_row offset row s

    -- A round of the loop.
    unfoldable pub on_round : Round → Consuming → Consuming
    on_round (received m) s = take_in m.offset (decoded m) s
    on_round receive_error s = s
    on_round tick s = flush_rest s

    unfoldable pub run_rounds : List Round → Consuming → Consuming
    run_rounds [] s = s
    run_rounds (r ∷ rounds) s = run_rounds rounds (on_round r s)
