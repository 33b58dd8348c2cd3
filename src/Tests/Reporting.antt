-- ===== src/Tests/Reporting.antt =====
-- Examples of the theorems on what queries report, on the pool of sockets and on Redis.
use denis.Analytics.Metrics.Sums.{counter}
use denis.Analytics.Metrics.{Metrics, miss, new_metrics, record_event}
use denis.Analytics.Producer.Runs.{Runs, begin, sends, collects}
use denis.Analytics.Producer.{Producing, spawn, send, collect}
use denis.Analytics.Traffic.{serve_all, answered_as, Runs-answered}
use denis.Base.{
  ℕ, ◌+◌, ◌≤◌, max, false, none, some, List, [], ◌∷◌, Bytes, ok, length, ◌≡◌, refl, arith,
}
use denis.Handler.Parser.{parse_udp, parse_question, parse_qtype}
use denis.Text.Utf8.{from_utf8_lossy}
use mathlib.Core.List.{reverse}
use denis.Handler.Pool.Sockets.{new_sockets, resolve_all, resolve_all-length}
use denis.Handler.Pool.{pool_size}
use denis.Base.{◌⊎◌, err, true}
use denis.Dns.Mono.Agree.{reply_of}
use denis.Handler.Redis.Outage.{client_answer, handle_both-outage}
use denis.Handler.Redis.{Redis, handle_both, redis_error}
use denis.Repo.Cache.{is_blocked}
use denis.Repo.Key.{query_key}
use denis.Handler.Serve.{
  L1Entry, DnsQueryEvent, Clock, handle, handle_parsed, served_of, check_and_get, serve_upstream,
  event_of,
}
use denis.Tests.Collecting.{to_string}
use denis.Tests.Samples.{tables, buffer, one_name}
use denis.Tests.Serving.{
  one_slot, number, ask, world, clock, proxy, packet, question, config, not_blocked, asked,
}
use denis.Text.{codes}

resolve_all-length_example :
    (length (new_sockets (λ i. ok i)) ≤ pool_size)
    × (length (resolve_all ((world, config, question) ∷ []) (new_sockets (λ i. ok i)))
        ≤ max (length (new_sockets (λ i. ok i))) 1)
resolve_all-length_example = resolve_all-length (λ i. ok i) ((world, config, question) ∷ [])

parsed : parse_udp packet ≡ ok question
unfolding parse_udp parse_question parse_qtype from_utf8_lossy
parsed = refl

abbrev event : DnsQueryEvent
event = record {
  timestamp_ms = 1000;
  domain = codes "a.io";
  query_type = 1;
  response_code = 3;
  cache_hit = false;
  blocked = false;
  latency_us = 400;
}

abbrev one_packet : List (Clock × Bytes)
one_packet = (clock, packet) ∷ []

reported :
    reverse (serve_all tables one_slot buffer one_name number ask one_packet proxy).sent
    ≡ event ∷ []
unfolding serve_all handle handle_parsed served_of check_and_get serve_upstream event_of
reported =
    rw (serve_all, handle, parsed, handle_parsed, served_of, check_and_get, not_blocked, asked) refl

abbrev begun : Producing
begun = spawn (some new_metrics) none

abbrev done : Producing
done = collect to_string (send event begun)

one_sent :
    Runs to_string begun
      (reverse (serve_all tables one_slot buffer one_name number ask one_packet proxy).sent)
      done
one_sent = rw reported (collects (sends event begin))

abbrev after_one : Metrics
after_one = record_event event new_metrics

Runs-answered_example :
    counter miss after_one
    ≡ counter miss new_metrics
      + answered_as tables one_slot buffer one_name number ask miss one_packet proxy
unfolding spawn send collect
Runs-answered_example =
    Runs-answered tables one_slot buffer one_name number ask to_string one_packet proxy begun done
      miss new_metrics after_one refl (omega arith) refl one_sent refl refl refl

-- A server that is down.
abbrev no_redis : Redis
no_redis = record { Conn = ℕ; get = λ now key conn. none; setex = λ now key ttl value conn. conn }

handle_both-outage_example :
    ((is_blocked tables proxy.lists question.name ≡ false)
      × (one_slot.get clock.lookup (query_key buffer one_name question) proxy.l1 ≡ none)
      × (handle_both tables one_slot no_redis buffer one_name number ask clock question proxy 0
          ≡ (err redis_error, proxy, 0)))
    ⊎ (((is_blocked tables proxy.lists question.name ≡ true)
          ⊎ ((entry : L1Entry) × (one_slot.get clock.lookup
                  (query_key buffer one_name question)
                  proxy.l1
                ≡ some entry)))
        × (client_answer
              (handle_both tables one_slot no_redis buffer one_name number ask clock question proxy
                0).0
            ≡ reply_of
                (handle_parsed tables one_slot buffer one_name number ask clock question proxy).0)
        × ((handle_both tables one_slot no_redis buffer one_name number ask clock question proxy
              0).1
            ≡ (handle_parsed tables one_slot buffer one_name number ask clock question proxy).1)
        × ((handle_both tables one_slot no_redis buffer one_name number ask clock question proxy
              0).2
            ≡ 0))
handle_both-outage_example =
    handle_both-outage tables one_slot no_redis buffer one_name number ask clock question proxy 0
      refl
