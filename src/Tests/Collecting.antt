-- ===== src/Tests/Collecting.antt =====
-- Examples of the theorems on the analytics and on the buffers of the server.
use denis.Analytics.Consumer.Batches.{Healthy, stored_rows, rounds_rows, run_rounds-rows}
use denis.Analytics.Consumer.{
  Reading, DnsQueryRow, ClickHouse, Round, received, receive_error, tick, Consuming, run_rounds,
}
use denis.Analytics.Metrics.{Metrics, new_metrics, record_event}
use denis.Analytics.Producer.Runs.{Runs, begin, sends, collects, Ledger, Runs-Ledger}
use denis.Analytics.Producer.{Producing, spawn, send, collect}
use denis.Analytics.Stats.{Kafka, topic}
use denis.Analytics.Pipeline.{Serde, deliver_from, pipeline-rows}
use denis.Analytics.Producer.Runs.{Thinned}
use denis.Analytics.Producer.{FutureRecord, send_kafka}
use denis.Analytics.Consumer.{bit, row_of}
use denis.Base.Int.{pos}
use denis.Base.{
  ◌∙◌, ap, ℕ, if◌then◌else◌, ◌==◌, Bool, true, false, Option, none, some, List, [], ◌∷◌, ◌++◌, ok,
  map, take, ◌≡◌, refl,
}
use denis.Dns.Udp.Handed.{Event, arrives, returns, run_udp, datagrams, run_udp-datagrams}
use denis.Dns.Udp.{Capacities, ServerConfig, Serving}
use denis.Handler.Serve.{DnsQueryEvent}
use denis.Text.{Str, codes}

abbrev seen : Bool → DnsQueryEvent
seen cached = record {
  timestamp_ms = 1;
  domain = codes "a.io";
  query_type = 1;
  response_code = 0;
  cache_hit = cached;
  blocked = false;
  latency_us = 40;
}

abbrev pub to_string : DnsQueryEvent → Option Str
to_string e = some e.domain

-- Two events, with a round of the task between them and one behind.
abbrev begun : Producing
begun = spawn (some new_metrics) none

abbrev ended : Producing
ended = collect to_string (send (seen false) (collect to_string (send (seen true) begun)))

two_events : Runs to_string begun (seen true ∷ seen false ∷ []) ended
two_events = collects (sends (seen false) (collects (sends (seen true) begin)))

Runs-Ledger_example : Ledger to_string begun (seen true ∷ seen false ∷ []) ended
unfolding spawn
Runs-Ledger_example =
    Runs-Ledger to_string begun (seen true ∷ seen false ∷ []) ended refl two_events

abbrev after_two : Metrics
after_two = record_event (seen false) (record_event (seen true) new_metrics)

-- A server that keeps its rows in a list, and one that opens no insert.
abbrev table : ClickHouse
table = record {
  Server = List DnsQueryRow;
  Insert = List DnsQueryRow;
  insert = λ s. some [];
  write = λ row held. (true, held ++ row ∷ []);
  end = λ held s. (true, s ++ held);
  rows = λ s. s;
}

table-Healthy : Healthy table
table-Healthy = record {
  holds = λ held. held;
  insert_some = λ s. ([], refl, refl);
  write_holds = λ row held. refl;
  end_rows = λ held s. refl;
}

abbrev parse : Reading
parse = record {
  from_slice = λ text. some (record (seen false) { domain = text });
  type_name = λ t. codes "A";
  code_name = λ high low. codes "No Error";
}

abbrev empty : Consuming table
empty = record { batch = []; server = []; commits = [] }

abbrev rounds : List Round
rounds =
    received (record { payload = some (codes "b.io"); offset = 1 })
    ∷ receive_error
    ∷ tick
    ∷ received (record { payload = none; offset = 2 })
    ∷ []

run_rounds-rows_example :
    stored_rows table (run_rounds table parse rounds empty)
    ≡ stored_rows table empty ++ rounds_rows table parse rounds
run_rounds-rows_example = run_rounds-rows table parse table-Healthy rounds empty

-- Only the third try succeeds.
abbrev third : ℕ → Bool
third n = n == 2

-- Brokers with one topic of two partitions, of which the second cannot be read.
abbrev brokers : Kafka
brokers = record {
  Consumer = ℕ;
  create = λ s. some 0;
  fetch_metadata = λ c. some (record { name = topic; partitions = 0 ∷ 1 ∷ [] } ∷ []);
  committed = λ pids c. none;
  fetch_watermarks = λ pid c. if pid == 0 then some (pos 3, pos 8) else none;
}

-- A pool with a buffer that an earlier packet has left, and two datagrams.
abbrev pub capacities : Capacities
capacities = record { with_capacity = λ n. n; reserve = λ had n. n }

abbrev config : ServerConfig ℕ
config = record { bind_addr = 0; buffer_size = 2; buffer_count = 1 }

abbrev serving : Serving ℕ
serving = record {
  buffers = record { pool = record { bytes = 9 ∷ 9 ∷ []; capacity = 2 } ∷ []; buffer_size = 2 };
  tasks = [];
  sent = [];
}

abbrev events : List (Event ℕ Str)
events = arrives (1 ∷ []) 5 ∷ arrives (2 ∷ 3 ∷ 4 ∷ []) 6 ∷ returns 0 (ok (7 ∷ [])) ∷ []

run_udp-datagrams_example :
    (run_udp capacities config events serving).0 ≡ map (take 2) (datagrams capacities events)
run_udp-datagrams_example = run_udp-datagrams capacities config events serving

-- Events as texts of numbers, and back.
abbrev write_event : DnsQueryEvent → Option Str
write_event e = some (
    e.timestamp_ms
    ∷ e.query_type
    ∷ e.response_code
    ∷ bit e.cache_hit
    ∷ bit e.blocked
    ∷ e.latency_us
    ∷ e.domain)

abbrev read_event : Str → Option DnsQueryEvent
read_event (t ∷ q ∷ r ∷ c ∷ b ∷ l ∷ name) = some (record {
  timestamp_ms = t;
  domain = name;
  query_type = q;
  response_code = r;
  cache_hit = c == 1;
  blocked = b == 1;
  latency_us = l;
})
read_event _ = none

bit-eq_one : (b : Bool) → (bit b == 1) ≡ b
bit-eq_one true = refl
bit-eq_one false = refl

abbrev wire : Reading
wire = record {
  from_slice = read_event;
  type_name = λ t. codes "A";
  code_name = λ high low. codes "No Error";
}

wire-Serde : Serde write_event wire
wire-Serde = record {
  written = λ e. (
    e.timestamp_ms
        ∷ e.query_type
        ∷ e.response_code
        ∷ bit e.cache_hit
        ∷ bit e.blocked
        ∷ e.latency_us
        ∷ e.domain,
    refl,
    ap (λ c. some (record e { cache_hit = c; blocked = bit e.blocked == 1 }))
          (bit-eq_one e.cache_hit)
        ∙ ap (λ b. some (record e { blocked = b })) (bit-eq_one e.blocked),
  );
}

abbrev wired : Producing
wired = spawn none (some (codes "kafka"))

abbrev one_done : Producing
one_done = send (seen false) (collect write_event (send (seen true) wired))

abbrev one_log : List FutureRecord
one_log = (codes "a.io", 1 ∷ 1 ∷ 0 ∷ 1 ∷ 0 ∷ 40 ∷ codes "a.io") ∷ []

one_left : Runs write_event wired (seen true ∷ seen false ∷ []) one_done
one_left = sends (seen false) (collects (sends (seen true) begin))

pipeline-rows_example :
    (done : List DnsQueryEvent) × (queue : List DnsQueryEvent) × (one_done.channel ≡ some queue)
    × Thinned (done ++ queue) (seen true ∷ seen false ∷ [])
    × (stored_rows table (run_rounds table wire (deliver_from 0 one_log) empty)
        ≡ stored_rows table empty ++ map (row_of wire) done)
unfolding spawn send collect send_kafka
pipeline-rows_example =
    pipeline-rows write_event table wire wire-Serde table-Healthy wired one_done
      (seen true ∷ seen false ∷ []) one_log empty refl refl one_left refl
