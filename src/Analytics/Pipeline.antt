-- ===== src/Analytics/Pipeline.antt =====
-- The way of an event through backend/src/analytics: from the producer over Kafka to the table.
use denis.Analytics.Consumer.Batches.{
  Healthy, stored_rows, rounds_rows, round_rows, row_list, run_rounds-rows,
}
use denis.Analytics.Consumer.{
  Reading, DnsQueryRow, ClickHouse, Round, received, Consuming, row_of, decoded, run_rounds,
}
use denis.Analytics.Producer.Runs.{Thinned, Runs, Runs-Ledger, publish_all, all_published}
use denis.Analytics.Producer.{Producing, FutureRecord, send_kafka}
use denis.Base.{ℕ, suc, Option, some, List, [], ◌∷◌, ◌++◌, map, ◌≡◌, refl, sym, ap, ◌∙◌}
use denis.Handler.Serve.{DnsQueryEvent}
use denis.Text.{Str}
use mathlib.Core.List.{append_assoc, append-nil}

-- `serde_json` reads back what it has written.
pub record Serde (to_string : DnsQueryEvent → Option Str) (reading : Reading) : Type 0 where
  pub written :
      (e : DnsQueryEvent)
      → (text : Str) × (to_string e ≡ some text) × (reading.from_slice text ≡ some e)

-- The rounds in which Kafka hands over some records, from a place of the topic on.
unfoldable pub deliver_from : ℕ → List FutureRecord → List Round
deliver_from offset [] = []
deliver_from offset ((key, payload) ∷ log) =
    received (record { payload = some payload; offset = offset }) ∷ deliver_from (suc offset) log

same_some : {a b : List FutureRecord} → Path (Option (List FutureRecord)) (some a) (some b) → a ≡ b
same_some e = cc e

module _ (to_string : DnsQueryEvent → Option Str) (ch : ClickHouse) (reading : Reading) where
  rows_from : ℕ → List FutureRecord → List DnsQueryRow
  rows_from offset log = rounds_rows ch reading (deliver_from offset log)

  decoded-event :
      (payload : Str) (offset : ℕ) (e : DnsQueryEvent)
      → reading.from_slice payload ≡ some e
      → decoded ch reading (record { payload = some payload; offset = offset })
        ≡ some (row_of reading e)
  decoded-event payload offset e h = rw (decoded, h) refl

  rows_from-snoc :
      (log : List FutureRecord) (offset : ℕ) (key payload : Str) (e : DnsQueryEvent)
      → reading.from_slice payload ≡ some e
      → rows_from offset (log ++ (key, payload) ∷ [])
        ≡ rows_from offset log ++ row_of reading e ∷ []
  unfolding rows_from deliver_from rounds_rows round_rows
  rows_from-snoc [] offset key payload e h =
      ap (λ row. row_list ch reading row ++ []) (decoded-event payload offset e h)
  rows_from-snoc ((k, p) ∷ log) offset key payload e h =
      let front =
        row_list ch reading (decoded ch reading (record { payload = some p; offset = offset })) in
      ap (◌++◌ front) (rows_from-snoc log (suc offset) key payload e h)
      ∙ sym (append_assoc front (rows_from (suc offset) log) (row_of reading e ∷ []))

  sent_one :
      (e : DnsQueryEvent) (text : Str) (log : List FutureRecord)
      → to_string e ≡ some text
      → send_kafka to_string e log ≡ log ++ (e.domain, text) ∷ []
  unfolding send_kafka
  sent_one e text log h = rw (send_kafka, h) refl

  module _ (json : Serde to_string reading) where
    publish_all-rows :
        (events : List DnsQueryEvent) (log : List FutureRecord)
        → rows_from 0 (publish_all to_string events log)
          ≡ rows_from 0 log ++ map (row_of reading) events
    unfolding publish_all
    publish_all-rows [] log = sym (append-nil (rows_from 0 log))
    publish_all-rows (e ∷ events) log =
        let (text, wrote, reads) = json.written e in
        publish_all-rows events (send_kafka to_string e log)
        ∙ ap (λ rows. rows ++ map (row_of reading) events)
            (ap (rows_from 0) (sent_one e text log wrote)
              ∙ rows_from-snoc log 0 e.domain text e reads)
        ∙ append_assoc (rows_from 0 log) (row_of reading e ∷ []) (map (row_of reading) events)

    from_empty :
        (done : List DnsQueryEvent) (log : List FutureRecord)
        → log ≡ publish_all to_string done []
        → rounds_rows ch reading (deliver_from 0 log) ≡ map (row_of reading) done
    unfolding rows_from deliver_from rounds_rows
    from_empty done log same = ap (rows_from 0) same ∙ publish_all-rows done []

    -- Take events that are sent from an empty channel and an empty log on, whatever the order of
    -- the two ends of the channel, handed over by Kafka in the order of its topic to a server
    -- that never fails, where an event that is written as a text can be read back. The rows of
    -- the table and the batch are then what they were before, with the rows of the events that
    -- went through behind them; these, followed by those that still wait in the channel, are what
    -- was sent, in order, with some events left out.
    pub pipeline-rows :
        (healthy : Healthy ch) (start s : Producing) (sent : List DnsQueryEvent)
        (log : List FutureRecord) (c : Consuming ch)
        → start.channel ≡ some []
        → start.kafka ≡ some []
        → Runs to_string start sent s
        → s.kafka ≡ some log
        → (done : List DnsQueryEvent) × (queue : List DnsQueryEvent) × (s.channel ≡ some queue)
          × Thinned (done ++ queue) sent
          × (stored_rows ch (run_rounds ch reading (deliver_from 0 log) c)
              ≡ stored_rows ch c ++ map (row_of reading) done)
    pipeline-rows healthy start s sent log c fresh unused r logged =
        let a = Runs-Ledger to_string start sent s fresh r in
        let published : some log ≡ all_published to_string a.done start.kafka =
          sym logged ∙ a.kafka_done in
        let same : log ≡ publish_all to_string a.done [] =
          same_some (published ∙ ap (all_published to_string a.done) unused) in
        (
          a.done,
          a.queue,
          a.channel_queue,
          a.thinned,
          run_rounds-rows ch reading healthy (deliver_from 0 log) c
              ∙ ap (◌++◌ (stored_rows ch c)) (from_empty a.done log same),
        )
