-- ===== src/Analytics/Producer/Runs.antt =====
-- What becomes of the events of backend/src/analytics/producer.rs, in any order of the two ends.
use denis.Analytics.Metrics.Sums.{record_all, record_all-append}
use denis.Analytics.Metrics.{Metrics}
use denis.Analytics.Producer.{
  Producing, FutureRecord, channel_size, send, send_kafka, measured, published, collect_from,
  collect,
}
use denis.Base.{
  suc, ◌+◌, ◌≤◌, ◌<◌, Option, none, some, List, [], ◌∷◌, ◌++◌, length, ltb, length-append, ◌≡◌, ◌⊎◌,
  inl, inr, refl, sym, ap, ◌∙◌, arith, Bool-cases,
}
use denis.Handler.Serve.{DnsQueryEvent}
use denis.Text.{Str}
use mathlib.Core.List.{append_assoc}

-- The second list, with some of its events left out, is the first.
pub data Thinned : List DnsQueryEvent → List DnsQueryEvent → Type 0 where
  empty : Thinned [] []
  kept :
      {xs ys : List DnsQueryEvent} (e : DnsQueryEvent)
      → Thinned xs ys
      → Thinned (xs ++ e ∷ []) (ys ++ e ∷ [])
  dropped :
      {xs ys : List DnsQueryEvent} (e : DnsQueryEvent) → Thinned xs ys → Thinned xs (ys ++ e ∷ [])

length-snoc : (xs : List DnsQueryEvent) (e : DnsQueryEvent) → length (xs ++ e ∷ []) ≡ length xs + 1
length-snoc xs e = length-append xs (e ∷ [])

pub Thinned-length : {xs ys : List DnsQueryEvent} → Thinned xs ys → length xs ≤ length ys
Thinned-length empty = omega arith
Thinned-length (kept {xs} {ys} e t) =
    omega (arith, length-snoc xs e, length-snoc ys e, Thinned-length t)
Thinned-length (dropped {xs} {ys} e t) = omega (arith, length-snoc ys e, Thinned-length t)

module _ (to_string : DnsQueryEvent → Option Str) where
  -- The states after some events were sent, with rounds of the task in between.
  pub data Runs (start : Producing) : List DnsQueryEvent → Producing → Type 0 where
    begin : Runs start [] start
    sends :
        {sent : List DnsQueryEvent} {s : Producing} (e : DnsQueryEvent)
        → Runs start sent s
        → Runs start (sent ++ e ∷ []) (send e s)
    collects :
        {sent : List DnsQueryEvent} {s : Producing}
        → Runs start sent s
        → Runs start sent (collect to_string s)

  -- All records for Kafka of some events.
  unfoldable pub publish_all : List DnsQueryEvent → List FutureRecord → List FutureRecord
  publish_all [] log = log
  publish_all (e ∷ events) log = publish_all events (send_kafka to_string e log)

  publish_all-append :
      (xs ys : List DnsQueryEvent) (log : List FutureRecord)
      → publish_all (xs ++ ys) log ≡ publish_all ys (publish_all xs log)
  unfolding publish_all
  publish_all-append [] ys log = refl
  publish_all-append (e ∷ xs) ys log = publish_all-append xs ys (send_kafka to_string e log)

  abbrev pub all_measured : List DnsQueryEvent → Option Metrics → Option Metrics
  all_measured events none = none
  all_measured events (some m) = some (record_all events m)

  abbrev pub all_published :
      List DnsQueryEvent → Option (List FutureRecord) → Option (List FutureRecord)
  all_published events none = none
  all_published events (some log) = some (publish_all events log)

  measured-snoc :
      (done : List DnsQueryEvent) (e : DnsQueryEvent) (m : Option Metrics)
      → measured to_string e (all_measured done m) ≡ all_measured (done ++ e ∷ []) m
  unfolding record_all
  measured-snoc done e none = refl
  measured-snoc done e (some m) = ap some (sym (record_all-append done (e ∷ []) m))

  published-snoc :
      (done : List DnsQueryEvent) (e : DnsQueryEvent) (log : Option (List FutureRecord))
      → published to_string e (all_published done log) ≡ all_published (done ++ e ∷ []) log
  unfolding publish_all
  published-snoc done e none = refl
  published-snoc done e (some log) = ap some (sym (publish_all-append done (e ∷ []) log))

  -- The events `done` have been through the task and the events `queue` wait; where any was lost,
  -- more than the channel holds have been sent.
  pub record Ledger (start : Producing) (sent : List DnsQueryEvent) (s : Producing) : Type 0 where
    pub done : List DnsQueryEvent
    pub queue : List DnsQueryEvent
    pub channel_queue : s.channel ≡ some queue
    pub metrics_done : s.metrics ≡ all_measured done start.metrics
    pub kafka_done : s.kafka ≡ all_published done start.kafka
    pub thinned : Thinned (done ++ queue) sent
    pub queue_bound : length queue ≤ channel_size
    pub lossless : (done ++ queue ≡ sent) ⊎ (channel_size < length sent)

  unmeasured : (m : Option Metrics) → m ≡ all_measured [] m
  unfolding record_all
  unmeasured none = refl
  unmeasured (some m) = refl

  unpublished : (log : Option (List FutureRecord)) → log ≡ all_published [] log
  unfolding publish_all
  unpublished none = refl
  unpublished (some log) = refl

  started : (start : Producing) → start.channel ≡ some [] → Ledger start [] start
  started start e = record {
    done = [];
    queue = [];
    channel_queue = e;
    metrics_done = unmeasured start.metrics;
    kafka_done = unpublished start.kafka;
    thinned = empty;
    queue_bound = omega arith;
    lossless = inl refl;
  }

  -- The queue and what went through, with an event at the end.
  extend :
      (done queue : List DnsQueryEvent) (e : DnsQueryEvent)
      → (done ++ queue) ++ e ∷ [] ≡ done ++ (queue ++ e ∷ [])
  extend done queue e = append_assoc done queue (e ∷ [])

  still_lossless :
      (done queue sent : List DnsQueryEvent) (e : DnsQueryEvent)
      → (done ++ queue ≡ sent) ⊎ (channel_size < length sent)
      → (done ++ (queue ++ e ∷ []) ≡ sent ++ e ∷ []) ⊎ (channel_size < length (sent ++ e ∷ []))
  still_lossless done queue sent e (inl same) =
      inl (sym (extend done queue e) ∙ ap (λ l. l ++ e ∷ []) same)
  still_lossless done queue sent e (inr many) = inr (omega (arith, length-snoc sent e))

  sent_one :
      {start s : Producing} {sent : List DnsQueryEvent} (e : DnsQueryEvent)
      → Ledger start sent s
      → Ledger start (sent ++ e ∷ []) (send e s)
  unfolding send
  sent_one {start} {s} {sent} e a = elim (Bool-cases (ltb (length a.queue) channel_size)) [
    | inl room ↦ record {
      done = a.done;
      queue = a.queue ++ e ∷ [];
      channel_queue = rw (a.channel_queue, room) refl;
      metrics_done = a.metrics_done;
      kafka_done = a.kafka_done;
      thinned = rw (← extend a.done a.queue e) (kept e a.thinned);
      queue_bound = ground (arith, length-snoc a.queue e);
      lossless = still_lossless a.done a.queue sent e a.lossless;
    }
    | inr full ↦ record {
      done = a.done;
      queue = a.queue;
      channel_queue = rw (a.channel_queue, full) refl;
      metrics_done = a.metrics_done;
      kafka_done = a.kafka_done;
      thinned = dropped e a.thinned;
      queue_bound = a.queue_bound;
      lossless =
          inr ground
            (arith, length-snoc sent e, Thinned-length a.thinned, length-append a.done a.queue);
    }
  ]

  collected_from :
      {start s : Producing} {sent : List DnsQueryEvent} (c : Option (List DnsQueryEvent))
      → s.channel ≡ c
      → Ledger start sent s
      → Ledger start sent (collect_from to_string c s)
  collected_from none e a = a
  collected_from (some []) e a = a
  collected_from {start} {s} {sent} (some (event ∷ rest)) e a = record {
    done = a.done ++ event ∷ [];
    queue = rest;
    channel_queue = refl;
    metrics_done = rw a.metrics_done (measured-snoc a.done event start.metrics);
    kafka_done = rw a.kafka_done (published-snoc a.done event start.kafka);
    thinned = rw shift a.thinned;
    queue_bound = omega (arith, waiting, a.queue_bound);
    lossless = rw shift a.lossless;
  }
    where
      first : a.queue ≡ event ∷ rest
      first = cc (a.channel_queue, e)

      waiting : length a.queue ≡ suc (length rest)
      waiting = ap length first

      shift : (a.done ++ event ∷ []) ++ rest ≡ a.done ++ a.queue
      shift = append_assoc a.done (event ∷ []) rest ∙ ap (◌++◌ a.done) (sym first)

  collected_one :
      {start s : Producing} {sent : List DnsQueryEvent}
      → Ledger start sent s
      → Ledger start sent (collect to_string s)
  unfolding collect
  collected_one {start} {s} {sent} a = collected_from s.channel refl a

  -- From an empty channel on, and whatever the order of the two ends: the events that went
  -- through the task and those that wait are what was sent with some events left out, in the
  -- order of sending; the counters and the records for Kafka are those of the events that went
  -- through; at most 10,000 events wait; and none is left out unless more than 10,000 have been
  -- sent.
  pub Runs-Ledger :
      (start : Producing) (sent : List DnsQueryEvent) (s : Producing)
      → start.channel ≡ some []
      → Runs start sent s
      → Ledger start sent s
  Runs-Ledger start _ _ e begin = started start e
  Runs-Ledger start _ _ e (sends {sent} {s} event r) = sent_one event (Runs-Ledger start sent s e r)
  Runs-Ledger start _ _ e (collects {sent} {s} r) = collected_one (Runs-Ledger start sent s e r)
