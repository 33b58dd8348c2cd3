-- ===== src/Dns/Mono/Agree.antt =====
-- The worker of backend/src/dns/mono.rs against the query handler of backend/src/handler/query.rs.
use denis.Acl.{Networks, AclEntry, allow, refuse, decide}
use denis.Base.{
  ℕ, ◌≤◌, true, false, Option, none, some, List, [], ◌∷◌, Bytes, Result, ok, err, length, le→leb,
  take, take-all, inl, inr, ◌≡◌, refl, ap, arith, Bool-cases, Option-cases, Result-cases,
}
use denis.Config.{RuntimeConfig, refused}
use denis.Dns.Mono.{
  miss, with_txid, recv_buf, classify_query, classify, serve_miss, run_round, refuse_packet, finish,
}
use denis.Handler.Parser.Bounds.{parse_udp-bounds}
use denis.Handler.Parser.{Query, parse_udp}
use denis.Handler.Serve.Ways.{check-blocked, check-found}
use denis.Handler.Serve.{
  Moka, Clock, Proxy, UpstreamError, HandlerError, l1_get, remember, serve_blocked, serve_cached,
  event_of, served_of, handle_parsed, handle,
}
use denis.Handler.Upstream.Replies.{IsAnswer, blocked-IsAnswer}
use denis.Handler.Upstream.{ResponseCode, UpstreamResponse, rcode_from_raw, cached, blocked}
use denis.Repo.Cache.{is_blocked}
use denis.Repo.Database.{Database}
use denis.Repo.Key.{Heapless, TypeNames}

-- What a server sends for the handler's result.
abbrev pub reply_of : Result HandlerError Bytes → Option Bytes
reply_of (ok raw) = some raw
reply_of (err e) = none

module _ (db : Database) (moka : Moka) (h : Heapless) (names : TypeNames)
    (number : ResponseCode → ℕ)
    (resolve : ℕ → RuntimeConfig → Query → Result UpstreamError UpstreamResponse) where
  abbrev State : Type 0
  State = Proxy db.Pool moka.Store

  -- The same bytes to the client and the same events to the analytics.
  abbrev pub SameService : Option Bytes × State → Result HandlerError Bytes × State → Type 0
  SameService mono other =
      (mono.0 ≡ reply_of other.0) × (mono.1.sent ≡ other.1.sent) × (mono.1.lists ≡ other.1.lists)

  pub handled-block :
      (clock : Clock) (q : Query) (p : State)
      → is_blocked db p.lists q.name ≡ true
      → let s = serve_blocked db moka h names number resolve clock q p in
        handle_parsed db moka h names number resolve clock q p
        ≡ (ok s.raw, record p { sent = event_of db moka h names number resolve clock q s ∷ p.sent })
  unfolding handle_parsed served_of
  handled-block clock q p b =
      rw (handle_parsed, served_of, check-blocked db moka h names number resolve clock.lookup q p b)
        refl

  pub handled-hit :
      (clock : Clock) (q : Query) (p : State) (raw : Bytes)
      → is_blocked db p.lists q.name ≡ false
      → l1_get db moka h names clock.lookup q p.l1 ≡ some raw
      → let s = serve_cached db moka h names number resolve clock q raw in
        handle_parsed db moka h names number resolve clock q p ≡ (
          ok s.raw,
          record p {
            l1 = remember db moka h names clock q raw p;
            sent = event_of db moka h names number resolve clock q s ∷ p.sent;
          },
        )
  unfolding handle_parsed served_of
  handled-hit clock q p raw b found =
      rw
        (
          handle_parsed,
          served_of,
          check-found db moka h names number resolve clock.lookup q p b,
          found,
        )
        refl

  pub cached-raw :
      (q : Query) (raw : Bytes) → 2 ≤ length q.raw → (cached q raw).raw ≡ with_txid q raw
  unfolding cached
  cached-raw q raw asked = rw (cached, le→leb 2 (length q.raw) asked) (ground arith)

  cached-code :
      (q : Query) (raw : Bytes)
      → 2 ≤ length q.raw
      → (cached q raw).code ≡ rcode_from_raw (with_txid q raw)
  unfolding cached
  cached-code q raw asked = ap rcode_from_raw (cached-raw q raw asked)

  pub missed-miss :
      (clock : Clock) (q : Query) (p : State)
      → is_blocked db p.lists q.name ≡ false
      → l1_get db moka h names clock.lookup q p.l1 ≡ none
      → classify_query db moka h names number resolve clock q p ≡ (miss q, p)
  unfolding classify_query
  missed-miss clock q p b missed = rw (classify_query, b, missed) refl

  serve_miss-handle :
      (clock : Clock) (q : Query) (p : State)
      → SameService
          (serve_miss db moka h names number resolve clock q p)
          (handle_parsed db moka h names number resolve clock q p)
  unfolding serve_miss
  serve_miss-handle clock q p =
      elim (Result-cases (handle_parsed db moka h names number resolve clock q p).0) [
        | inl (u, e) ↦ rw (serve_miss, e) (refl, refl, refl)
        | inr (raw, e) ↦ rw (serve_miss, e) (refl, refl, refl)
      ]

  classify_query-handle :
      (clock : Clock) (q : Query) (p : State)
      → 2 ≤ length q.raw
      → SameService
          (finish db moka h names number resolve clock
            (classify_query db moka h names number resolve clock q p))
          (handle_parsed db moka h names number resolve clock q p)
  unfolding classify_query serve_miss serve_blocked serve_cached event_of
  classify_query-handle clock q p asked = elim (Bool-cases (is_blocked db p.lists q.name)) [
    | inl b ↦ rw (handled-block clock q p b, b) (refl, refl, refl)
    | inr b ↦ elim (Option-cases (l1_get db moka h names clock.lookup q p.l1)) [
      | inr (raw, found) ↦
          rw
            (
              handled-hit clock q p raw b found,
              b,
              found,
              cached-raw q raw asked,
              event_of,
              serve_cached,
              cached-code q raw asked,
            )
            (refl, refl, refl)
      | inl missed ↦ rw (missed-miss clock q p b missed) (serve_miss-handle clock q p)
    ]
  ]

  classify-handle :
      (clock : Clock) (packet : Bytes) (p : State)
      → SameService
          (finish db moka h names number resolve clock
            (classify db moka h names number resolve clock packet p))
          (handle db moka h names number resolve clock packet p)
  unfolding classify handle
  classify-handle clock packet p = elim (Result-cases (parse_udp packet)) [
    | inl (e, failed) ↦ rw (classify, handle, failed) (refl, refl, refl)
    | inr (q, parsed) ↦
        let (same, far, near, last) = parse_udp-bounds packet q parsed in
        let asked : 2 ≤ length q.raw = rw same (omega arith) in
        rw (classify, handle, parsed) (classify_query-handle clock q p asked)
  ]

  -- For a client that the access list allows and a datagram that fits the buffer, the worker sends
  -- what the query handler would send on the same packet, the same events reach the analytics, and
  -- both leave the same lists: the short path from memory and the detour over the cold path answer
  -- alike.
  pub run_round-handle :
      (nets : Networks) (entries : List (AclEntry nets.Net)) (clock : Clock) (src : nets.Addr)
      (datagram : Bytes) (p : State)
      → decide nets entries src ≡ allow
      → length datagram ≤ recv_buf
      → SameService
          (run_round db moka h names number resolve nets entries clock src datagram p)
          (handle db moka h names number resolve clock datagram p)
  unfolding run_round
  run_round-handle nets entries clock src datagram p allowed fits =
      rw (run_round, allowed, take-all recv_buf datagram fits) (classify-handle clock datagram p)

  -- A client that is to be refused gets, for a packet that is a query, an answer to that query with
  -- the code Refused and no records, whatever the lists and the cache hold; and no event is sent.
  pub run_round-refuse :
      (nets : Networks) (entries : List (AclEntry nets.Net)) (clock : Clock) (src : nets.Addr)
      (datagram : Bytes) (q : Query) (p : State)
      → decide nets entries src ≡ refuse
      → parse_udp (take recv_buf datagram) ≡ ok q
      → (run_round db moka h names number resolve nets entries clock src datagram p
          ≡ (some (blocked q refused).raw, p))
        × IsAnswer q 0 [] (blocked q refused)
        × (rcode_from_raw (blocked q refused).raw ≡ (blocked q refused).code)
  unfolding run_round refuse_packet
  run_round-refuse nets entries clock src datagram q p refuses parsed =
      let (same, far, near, last) = parse_udp-bounds (take recv_buf datagram) q parsed in
      let good = blocked-IsAnswer q refused (rw same (omega arith)) (omega arith) in
      (rw (run_round, refuse_packet, refuses, parsed) refl, good, good.code_is)
