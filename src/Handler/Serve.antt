-- ===== src/Handler/Serve.antt =====
-- backend/src/handler/query.rs, with the cache of answers of backend/src/repo/cache.rs: how a query
-- is answered from the block list, the cache or upstream.

pub mod Ways
pub mod Always
pub mod Cached
pub mod Answers
use denis.Base.{
  ℕ, ◌+◌, ◌*◌, ◌%◌, ◌<◌, Bool, true, false, Option, none, some, List, [], ◌∷◌, Bytes, Result, ok,
  err, ◌&&◌, ◌||◌, ltb, ◌==◌, if◌then◌else◌, length, get_elem?, u16_from_be_bytes, ◌≡◌, ◌≢◌,
}
use denis.Config.{RuntimeConfig, clamp_ttl}
use denis.Handler.Parser.{Query, ParseError, parse_udp, parse_ttl}
use denis.Handler.Upstream.{ResponseCode, UpstreamResponse, cached, blocked}
use denis.Repo.Cache.{CacheError, Lists, is_blocked}
use denis.Repo.Database.{Database}
use denis.Repo.Key.{Heapless, TypeNames, query_key}
use denis.Text.{Str}

pub record L1Entry : Type 0 where
  pub raw : Bytes
  pub ttl : ℕ

-- `TtlExpiry`: lifetimes in milliseconds.
unfoldable pub expire_after_create : L1Entry → ℕ
expire_after_create value = value.ttl * 1000

unfoldable pub expire_after_update : L1Entry → ℕ
expire_after_update value = value.ttl * 1000

-- `moka::future::Cache` with the two functions of its `Expiry`. Times are in milliseconds.
pub record Moka : Type 1 where
  pub Store : Type 0
  pub get : ℕ → Str → Store → Option L1Entry
  pub insert : (L1Entry → ℕ) → (L1Entry → ℕ) → ℕ → Str → L1Entry → Store → Store

-- Moka may drop an entry at any time, so that a hit is all that a caller learns something from: it
-- is what was stored last under the key, within the longer of its lifetimes.
pub record Expires (moka : Moka) : Type 0 where
  pub get_insert :
      (create update : L1Entry → ℕ) (now t : ℕ) (k : Str) (e f : L1Entry) (s : moka.Store)
      → ((v : L1Entry) → create v ≡ update v)
      → moka.get t k (moka.insert create update now k e s) ≡ some f
      → (f ≡ e) × (t < now + create e)
  pub get_insert_other :
      (create update : L1Entry → ℕ) (now t : ℕ) (k other : Str) (e f : L1Entry) (s : moka.Store)
      → other ≢ k
      → moka.get t other (moka.insert create update now k e s) ≡ some f
      → moka.get t other s ≡ some f

-- The error of a resolver; its message is not read.
pub data UpstreamError : Type 0 where
  upstream : Str → UpstreamError
  timeout : UpstreamError

pub data HandlerError : Type 0 where
  parser : ParseError → HandlerError
  cache : CacheError → HandlerError
  upstream_error : UpstreamError → HandlerError

pub record DnsQueryEvent : Type 0 where
  pub timestamp_ms : ℕ
  pub domain : Str
  pub query_type : ℕ
  pub response_code : ℕ
  pub cache_hit : Bool
  pub blocked : Bool
  pub latency_us : ℕ

pub record Served : Type 0 where
  pub raw : Bytes
  pub response_code : ℕ
  pub cache_hit : Bool
  pub blocked : Bool
  pub latency_us : ℕ

-- Bytes 6 and 7 hold the number of answers.
abbrev pub ancount : Bytes → ℕ
ancount raw = elim (get_elem? raw 6) [
  | some hi ↦ elim (get_elem? raw 7) [ some lo ↦ u16_from_be_bytes hi lo | none ↦ 0 ]
  | none ↦ 0
]

unfoldable pub cache_ttl : RuntimeConfig → Bytes → ℕ → Option ℕ
cache_ttl config raw answer_offset = elim (get_elem? raw 3) [
  | some b ↦
      let rcode = b % 16 in
      if rcode == 0 && ltb 0 (ancount raw)
      then some (clamp_ttl config (parse_ttl raw answer_offset))
      else if rcode == 0 || rcode == 3
      then some (clamp_ttl config config.neg_ttl)
      else none
  | none ↦ none
]

-- What a call of the handler meets: when the cache is read and written, what the query took, and
-- the number of the call, which tells what the network does and which sockets the pool holds then.
pub record Clock : Type 0 where
  pub lookup : ℕ
  pub store : ℕ
  pub latency_us : ℕ
  pub timestamp_ms : ℕ
  pub call : ℕ

-- What a handler reaches: the lists, the cache of answers, the configuration, and the events that
-- `AnalyticsProducer::send` was given, the last one first.
pub record Proxy (Pool Store : Type 0) : Type 0 where
  pub lists : Lists Pool
  pub l1 : Store
  pub config : RuntimeConfig
  pub sent : List DnsQueryEvent

module _ (db : Database) (moka : Moka) (h : Heapless) (names : TypeNames) where
  unfoldable pub add_dns_query_moka : ℕ → Query → Bytes → ℕ → moka.Store → moka.Store
  add_dns_query_moka now query response ttl l1 =
      moka.insert expire_after_create expire_after_update now (query_key h names query)
        (record { raw = response; ttl = ttl }) l1

  unfoldable pub l1_get : ℕ → Query → moka.Store → Option Bytes
  l1_get now query l1 = elim (moka.get now (query_key h names query) l1) [
    | some entry ↦ some entry.raw
    | none ↦ none
  ]

  -- Without the `redis` feature, as the program is built by default.
  unfoldable pub check_and_get :
      ℕ → Query → Proxy db.Pool moka.Store → Result CacheError (Bool × Option Bytes)
  check_and_get now query p =
      if is_blocked db p.lists query.name
      then ok (true, none)
      else elim (moka.get now (query_key h names query) p.l1) [
        | some entry ↦ ok (false, some entry.raw)
        | none ↦ ok (false, none)
      ]

  -- The insertion of an answer that `cache_ttl` gives a lifetime.
  unfoldable pub remember : Clock → Query → Bytes → Proxy db.Pool moka.Store → moka.Store
  remember clock query raw p = elim (cache_ttl p.config raw query.answer_offset) [
    | some ttl ↦ add_dns_query_moka clock.store query raw ttl p.l1
    | none ↦ p.l1
  ]

  module _ (number : ResponseCode → ℕ)
      (resolve : ℕ → RuntimeConfig → Query → Result UpstreamError UpstreamResponse) where
    unfoldable pub serve_blocked : Clock → Query → Proxy db.Pool moka.Store → Served
    serve_blocked clock query p =
        let response = blocked query p.config.blocking_mode in
        record {
          raw = response.raw;
          response_code = number response.code;
          cache_hit = false;
          blocked = true;
          latency_us = clock.latency_us;
        }

    unfoldable pub serve_cached : Clock → Query → Bytes → Served
    serve_cached clock query raw =
        let response = cached query raw in
        record {
          raw = response.raw;
          response_code = number response.code;
          cache_hit = true;
          blocked = false;
          latency_us = clock.latency_us;
        }

    unfoldable pub serve_upstream : Clock → UpstreamResponse → Served
    serve_upstream clock res = record {
      raw = res.raw;
      response_code = number res.code;
      cache_hit = false;
      blocked = false;
      latency_us = clock.latency_us;
    }

    -- The `match` of `handle_parsed`: what is served, and the cache behind it.
    unfoldable pub served_of :
        Clock → Query → Proxy db.Pool moka.Store → Result HandlerError (Served × moka.Store)
    served_of clock query p = elim (check_and_get clock.lookup query p) [
      | err e ↦ err (cache e)
      | ok (true, _) ↦ ok (serve_blocked clock query p, p.l1)
      | ok (false, some raw) ↦ ok (serve_cached clock query raw, remember clock query raw p)
      | ok (false, none) ↦ elim (resolve clock.call p.config query) [
        | ok res ↦ ok (serve_upstream clock res, remember clock query res.raw p)
        | err e ↦ err (upstream_error e)
      ]
    ]

    unfoldable pub event_of : Clock → Query → Served → DnsQueryEvent
    event_of clock query served = record {
      timestamp_ms = clock.timestamp_ms;
      domain = query.name;
      query_type = query.query_type;
      response_code = served.response_code;
      cache_hit = served.cache_hit;
      blocked = served.blocked;
      latency_us = served.latency_us;
    }

    unfoldable pub handle_parsed :
        Clock
        → Query
        → Proxy db.Pool moka.Store
        → Result HandlerError Bytes × Proxy db.Pool moka.Store
    handle_parsed clock query p = elim (served_of clock query p) [
      | ok (served, l1') ↦
          (ok served.raw, record p { l1 = l1'; sent = event_of clock query served ∷ p.sent })
      | err e ↦ (err e, p)
    ]

    unfoldable pub handle :
        Clock
        → Bytes
        → Proxy db.Pool moka.Store
        → Result HandlerError Bytes × Proxy db.Pool moka.Store
    handle clock data_ p = elim (parse_udp data_) [
      | ok query ↦ handle_parsed clock query p
      | err e ↦ (err (parser e), p)
    ]
