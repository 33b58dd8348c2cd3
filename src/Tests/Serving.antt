-- ===== src/Tests/Serving.antt =====
-- Examples of the theorems on the query handler and the workers.
use denis.Base.{
  ℕ, ◌+◌, ◌<◌, true, false, Option, none, some, [], ◌∷◌, Bytes, Result, ok, err, ltb, ltb→lt,
  if◌then◌else◌, ◌≡◌, refl, arith, Bool-cases, inl, inr,
}
use denis.Config.{RuntimeConfig, nx_domain}
use denis.Handler.Parser.{Query}
use denis.Handler.Pool.Resolve.{walk, resolve-walk, resolve-Answers}
use denis.Handler.Pool.{
  Network, Arrival, datagram, Attempt, exchange, receive_loop, resolve, no_upstreams,
}
use denis.Handler.Serve.Answers.{
  Answers, Reported, handle_parsed-Reported, handle_parsed-HoldsCacheable,
}
use denis.Handler.Serve.Cached.{HoldsCacheable}
use denis.Handler.Serve.{
  Moka, Expires, L1Entry, Clock, Proxy, UpstreamError, timeout, upstream_error, DnsQueryEvent,
  check_and_get, served_of, serve_upstream, handle_parsed,
}
use denis.Handler.Upstream.{ResponseCode, UpstreamResponse, rcode_from_raw}
use denis.Repo.Cache.{is_blocked}
use denis.Tests.Samples.{Tables, tables, buffer, one_name}
use denis.Text.{codes, Str, str_eq, str_eq_iff}

-- A cache of one entry, with the time at which it ends.
abbrev pub Slot : Type 0
Slot = Option (Str × L1Entry × ℕ)

abbrev slot_get : ℕ → Str → Slot → Option L1Entry
slot_get t k none = none
slot_get t k (some (key, e, until)) =
    if str_eq k key then (if ltb t until then some e else none) else none

abbrev pub one_slot : Moka
one_slot = record {
  Store = Slot;
  get = slot_get;
  insert = λ create update now k e s. some (k, e, now + create e);
}

slot_hit :
    (t until : ℕ) (k key : Str) (e f : L1Entry)
    → (if str_eq k key then (if ltb t until then some e else none) else none) ≡ some f
    → (f ≡ e) × (t < until) × (str_eq k key ≡ true)
slot_hit t until k key e f h = elim (Bool-cases (str_eq k key)) [
  | inr other ↦ absurd (cc (rw other at h))
  | inl same ↦ elim (Bool-cases (ltb t until)) [
    | inr late ↦ absurd (cc (rw (same, late) at h))
    | inl soon ↦ let got = rw (same, soon) at h in (cc got, ltb→lt t until soon, same)
  ]
]

pub one_slot-Expires : Expires one_slot
one_slot-Expires = record {
  get_insert = λ create update now t k e f s same h.
      let (x, y, z) = slot_hit t (now + create e) k k e f h in (x, y);
  get_insert_other = λ create update now t k other e f s ne h.
      let (x, y, z) = slot_hit t (now + create e) other k e f h in
      absurd (ne ((str_eq_iff other k).0 z));
}

abbrev pub config : RuntimeConfig
config = record {
  upstreams = 7 ∷ 9 ∷ [];
  upstream_timeout_ms = 100;
  blocking_mode = nx_domain;
  cache_min_ttl = 30;
  cache_max_ttl = 600;
  neg_ttl = 60;
}

-- A query for "a.io" with the number 5, 6.
abbrev pub packet : Bytes
packet =
    5 ∷ 6 ∷ 1 ∷ 0 ∷ 0 ∷ 1 ∷ 0 ∷ 0 ∷ 0 ∷ 0 ∷ 0 ∷ 0 ∷ 1 ∷ b'a' ∷ 2 ∷ b'i' ∷ b'o' ∷ 0 ∷ 0 ∷ 1 ∷ 0 ∷ 1
    ∷ []

abbrev pub question : Query
question = record { name = codes "a.io"; query_type = 1; raw = packet; answer_offset = 22 }

-- The answer that there is no such name.
abbrev pub no_such_name : Bytes
no_such_name = 5 ∷ 6 ∷ 129 ∷ 131 ∷ 0 ∷ 1 ∷ 0 ∷ 0 ∷ 0 ∷ 0 ∷ 0 ∷ 0 ∷ []

abbrev pub proxy : Proxy Tables Slot
proxy = record {
  lists = record { block_list = codes "ads.io" ∷ []; allow_list = []; pool = ([], []) };
  l1 = none;
  config = config;
  sent = [];
}

abbrev pub clock : Clock
clock = record { lookup = 10; store = 20; latency_us = 400; timestamp_ms = 1000; call = 0 }

-- A response code as a number: only the names that occur here.
abbrev pub number : ResponseCode → ℕ
number ResponseCode.nx_domain_code = 3
number _ = 0

-- One answer from the first server, behind a stray datagram and one with another number.
abbrev pub network : Network
network = record {
  send_fails = none;
  arrivals =
      datagram 8 no_such_name
      ∷ datagram 7 (9 ∷ 9 ∷ [])
      ∷ datagram 7 no_such_name
      ∷ datagram 7 []
      ∷ [];
}

abbrev pub world : ℕ → Attempt
world n = record { net = network; bind = ok 1 }

abbrev pub ask : ℕ → RuntimeConfig → Query → Result UpstreamError UpstreamResponse
ask n c q = (resolve world c q []).0

exchanged :
    exchange network 7 question
    ≡ ok (record { code = ResponseCode.nx_domain_code; raw = no_such_name })
unfolding exchange receive_loop rcode_from_raw
exchanged = refl

resolve-walk_example :
    resolve world config question [] ≡ walk world question (7 ∷ 9 ∷ []) 0 no_upstreams []
resolve-walk_example = resolve-walk world question config []

pub asked :
    ask 0 config question ≡ ok (record { code = ResponseCode.nx_domain_code; raw = no_such_name })
unfolding exchange receive_loop rcode_from_raw resolve denis.Handler.Pool.attempts
    denis.Handler.Pool.query_dns
asked = refl

resolve-Answers_example :
    Answers question (record { code = ResponseCode.nx_domain_code; raw = no_such_name })
resolve-Answers_example =
    resolve-Answers world [] config question
      (record { code = ResponseCode.nx_domain_code; raw = no_such_name }) (omega arith) asked

pub proxy-HoldsCacheable : HoldsCacheable one_slot none
proxy-HoldsCacheable t k e h = cc h

pub not_blocked : is_blocked tables proxy.lists (codes "a.io") ≡ false
unfolding is_blocked denis.Repo.Decide.decide denis.Repo.Decide.any_suffix_match
    denis.Repo.Decide.dot_suffixes denis.Repo.Decide.contains str_eq
not_blocked = refl

served :
    (handle_parsed tables one_slot buffer one_name number ask clock question proxy).0
    ≡ ok no_such_name
unfolding handle_parsed served_of check_and_get serve_upstream
served = rw (handle_parsed, served_of, check_and_get, not_blocked, asked) refl

handle_parsed-Reported_example :
    let after = (handle_parsed tables one_slot buffer one_name number ask clock question proxy).1 in
    (event : DnsQueryEvent) × (after.sent ≡ event ∷ [])
    × Reported tables one_slot buffer one_name number ask question
        (is_blocked tables proxy.lists (codes "a.io"))
        no_such_name
        event
handle_parsed-Reported_example =
    handle_parsed-Reported tables one_slot buffer one_name number ask clock question proxy
      no_such_name (omega arith) (omega arith) (λ n. resolve-Answers world []) proxy-HoldsCacheable
      served

-- Resolvers that never answer.
abbrev silent : ℕ → RuntimeConfig → Query → Result UpstreamError UpstreamResponse
silent n c q = err timeout

unserved :
    (handle_parsed tables one_slot buffer one_name number silent clock question proxy).0
    ≡ err (upstream_error timeout)
unfolding handle_parsed served_of check_and_get
unserved = rw (handle_parsed, served_of, check_and_get, not_blocked) refl

handle_parsed-HoldsCacheable_example :
    HoldsCacheable one_slot
      (handle_parsed tables one_slot buffer one_name number ask clock question proxy).1.l1
handle_parsed-HoldsCacheable_example =
    handle_parsed-HoldsCacheable tables one_slot one_slot-Expires buffer one_name number ask clock
      question proxy proxy-HoldsCacheable
