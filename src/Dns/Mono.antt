-- ===== src/Dns/Mono.antt =====
-- backend/src/dns/mono.rs: a worker that answers from memory and hands the rest to the handler.
pub mod Agree
use denis.Acl.{Action, Networks, AclEntry, allow, deny, refuse, decide}
use denis.Base.{
  ℕ, Bool, true, false, Option, none, some, List, [], ◌∷◌, Bytes, Result, ok, err, leb,
  if◌then◌else◌, length, set, take,
}
use denis.Config.{RuntimeConfig, refused}
use denis.Handler.Parser.{Query, parse_udp}
use denis.Handler.Serve.{
  Moka, Clock, Proxy, UpstreamError, HandlerError, DnsQueryEvent, l1_get, handle_parsed,
}
use denis.Handler.Upstream.{ResponseCode, UpstreamResponse, rcode_from_raw, byte_at, blocked}
use denis.Repo.Cache.{is_blocked}
use denis.Repo.Database.{Database}
use denis.Repo.Key.{Heapless, TypeNames}

abbrev pub recv_buf : ℕ
recv_buf = 512

pub data Outcome : Type 0 where
  reply : Bytes → Outcome
  miss : Query → Outcome
  dropped : Outcome

-- The cached bytes under the number of the query. A query shorter than two bytes would be a panic.
abbrev pub with_txid : Query → Bytes → Bytes
with_txid query cached =
    if leb 2 (length cached)
    then set (set cached 0 (byte_at query.raw 0)) 1 (byte_at query.raw 1)
    else cached

-- `refuse`
unfoldable pub refuse_packet : Bytes → Option Bytes
refuse_packet packet = elim (parse_udp packet) [
  | ok query ↦ some (blocked query refused).raw
  | err e ↦ none
]

module _ (db : Database) (moka : Moka) (h : Heapless) (names : TypeNames)
    (number : ResponseCode → ℕ)
    (resolve : ℕ → RuntimeConfig → Query → Result UpstreamError UpstreamResponse) where
  -- `classify`, of a packet that is a query.
  unfoldable pub classify_query :
      Clock → Query → Proxy db.Pool moka.Store → Outcome × Proxy db.Pool moka.Store
  classify_query clock query p =
      if is_blocked db p.lists query.name
      then (let resp = blocked query p.config.blocking_mode in
          let event : DnsQueryEvent = record {
            timestamp_ms = clock.timestamp_ms;
            domain = query.name;
            query_type = query.query_type;
            response_code = number resp.code;
            cache_hit = false;
            blocked = true;
            latency_us = clock.latency_us;
          } in
          (reply resp.raw, record p { sent = event ∷ p.sent }))
      else elim (l1_get db moka h names clock.lookup query p.l1) [
        | some cached ↦
            let raw = with_txid query cached in
            let event : DnsQueryEvent = record {
              timestamp_ms = clock.timestamp_ms;
              domain = query.name;
              query_type = query.query_type;
              response_code = number (rcode_from_raw raw);
              cache_hit = true;
              blocked = false;
              latency_us = clock.latency_us;
            } in
            (reply raw, record p { sent = event ∷ p.sent })
        | none ↦ (miss query, p)
      ]

  unfoldable pub classify :
      Clock → Bytes → Proxy db.Pool moka.Store → Outcome × Proxy db.Pool moka.Store
  classify clock packet p = elim (parse_udp packet) [
    | ok query ↦ classify_query clock query p
    | err e ↦ (dropped, p)
  ]

  -- `serve_miss` with the task of `cold_path` that takes its request: the reply is sent unless the
  -- handler fails.
  unfoldable pub serve_miss :
      Clock → Query → Proxy db.Pool moka.Store → Option Bytes × Proxy db.Pool moka.Store
  serve_miss clock query p =
      let (res, p') = handle_parsed db moka h names number resolve clock query p in
      elim res [ ok raw ↦ (some raw, p') | err e ↦ (none, p') ]

  abbrev pub finish :
      Clock → Outcome × Proxy db.Pool moka.Store → Option Bytes × Proxy db.Pool moka.Store
  finish clock (reply resp, p) = (some resp, p)
  finish clock (miss query, p) = serve_miss clock query p
  finish clock (dropped, p) = (none, p)

  abbrev pub verdict :
      Action → Clock → Bytes → Proxy db.Pool moka.Store → Option Bytes × Proxy db.Pool moka.Store
  verdict allow clock buf p = finish clock (classify clock buf p)
  verdict deny clock buf p = (none, p)
  verdict refuse clock buf p = (refuse_packet buf, p)

  -- One round of the loop of `run`, to the end of the task that it may start: what is sent back to
  -- the client, if anything. The buffer holds `recv_buf` bytes of the datagram.
  unfoldable pub run_round :
      (nets : Networks)
      → List (AclEntry nets.Net)
      → Clock
      → nets.Addr
      → Bytes
      → Proxy db.Pool moka.Store
      → Option Bytes × Proxy db.Pool moka.Store
  run_round nets entries clock src datagram p =
      verdict (decide nets entries src) clock (take recv_buf datagram) p
