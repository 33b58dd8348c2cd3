-- ===== src/Analytics/Traffic.antt =====
-- What the counters of backend/src/analytics show of the queries that backend/src/handler/query.rs
-- has served.
use denis.Analytics.Metrics.Sums.{same_outcome, counter, counted}
use denis.Analytics.Metrics.{Metrics, Outcome, blocked, hit, miss, outcome_label}
use denis.Analytics.Producer.Counted.{Runs-counted}
use denis.Analytics.Producer.Runs.{Runs}
use denis.Analytics.Producer.{Producing, channel_size}
use denis.Base.{
  ℕ, ◌+◌, ◌≤◌, Option, none, some, List, [], ◌∷◌, ◌++◌, Bytes, Result, ok, err, one, length,
  length-append, if◌then◌else◌, ◌≡◌, refl, ap, ◌∙◌, arith, inl, inr, Bool-cases, Option-cases,
  Result-cases,
}
use denis.Config.{RuntimeConfig}
use denis.Dns.Mono.Agree.{handled-block, handled-hit}
use denis.Handler.Parser.{Query, parse_udp}
use denis.Handler.Serve.Ways.{check-found, handle_parsed-ok, handle_parsed-err}
use denis.Handler.Serve.{
  Moka, Clock, Proxy, UpstreamError, DnsQueryEvent, l1_get, served_of, serve_blocked, serve_cached,
  serve_upstream, event_of, handle_parsed, handle,
}
use denis.Handler.Upstream.{ResponseCode, UpstreamResponse}
use denis.Repo.Cache.{is_blocked}
use denis.Repo.Database.{Database}
use denis.Repo.Key.{Heapless, TypeNames}
use denis.Text.{Str}
use mathlib.Core.List.{reverse, reverse-cons}

counted-one :
    (o : Outcome) (e : DnsQueryEvent) (events : List DnsQueryEvent)
    → counted o (e ∷ events) ≡ one (same_outcome (outcome_label e) o) + counted o events
unfolding counted
counted-one o e events = ground arith

counted-snoc :
    (o : Outcome) (xs : List DnsQueryEvent) (e : DnsQueryEvent)
    → counted o (xs ++ e ∷ []) ≡ one (same_outcome (outcome_label e) o) + counted o xs
counted-snoc o [] e = counted-one o e []
counted-snoc o (x ∷ xs) e =
    counted-one o x (xs ++ e ∷ []) ∙ omega (arith, counted-snoc o xs e, counted-one o x xs)

counted-reverse :
    (o : Outcome) (events : List DnsQueryEvent) → counted o (reverse events) ≡ counted o events
counted-reverse o [] = refl
counted-reverse o (e ∷ events) =
    ap (counted o) (reverse-cons e events)
    ∙ omega
        (arith, counted-snoc o (reverse events) e, counted-reverse o events, counted-one o e events)

length-reverse : (events : List DnsQueryEvent) → length (reverse events) ≡ length events
length-reverse [] = refl
length-reverse (e ∷ events) =
    ap length (reverse-cons e events)
    ∙ omega (arith, length-append (reverse events) (e ∷ []), length-reverse events)

module _ (db : Database) (moka : Moka) (h : Heapless) (names : TypeNames)
    (number : ResponseCode → ℕ)
    (resolve : ℕ → RuntimeConfig → Query → Result UpstreamError UpstreamResponse) where
  -- The packets that the handler gets one after another, each with its times.
  unfoldable pub serve_all :
      List (Clock × Bytes) → Proxy db.Pool moka.Store → Proxy db.Pool moka.Store
  serve_all [] p = p
  serve_all ((clock, packet) ∷ packets) p =
      serve_all packets (handle db moka h names number resolve clock packet p).1

  abbrev answered_query : Clock → Query → Proxy db.Pool moka.Store → Option Outcome
  answered_query clock q p =
      if is_blocked db p.lists q.name
      then some blocked
      else elim (l1_get db moka h names clock.lookup q p.l1) [
        | some raw ↦ some hit
        | none ↦ elim (resolve clock.call p.config q) [ ok res ↦ some miss | err e ↦ none ]
      ]

  -- How a packet is answered, if it is: by the block list, from the cache or by a resolver.
  unfoldable pub answered_how : Clock → Bytes → Proxy db.Pool moka.Store → Option Outcome
  answered_how clock packet p = elim (parse_udp packet) [
    | ok q ↦ answered_query clock q p
    | err e ↦ none
  ]

  abbrev adds : Outcome → Option Outcome → ℕ
  adds o none = 0
  adds o (some way) = one (same_outcome way o)

  -- How many of the packets are answered in one of these ways.
  unfoldable pub answered_as : Outcome → List (Clock × Bytes) → Proxy db.Pool moka.Store → ℕ
  answered_as o [] p = 0
  answered_as o ((clock, packet) ∷ packets) p =
      adds o (answered_how clock packet p)
      + answered_as o packets (handle db moka h names number resolve clock packet p).1

  handle_parsed-counted :
      (o : Outcome) (clock : Clock) (q : Query) (p : Proxy db.Pool moka.Store)
      → counted o (handle_parsed db moka h names number resolve clock q p).1.sent
        ≡ adds o (answered_query clock q p) + counted o p.sent
  unfolding handle_parsed served_of event_of serve_blocked serve_cached serve_upstream outcome_label
  handle_parsed-counted o clock q p = elim (Bool-cases (is_blocked db p.lists q.name)) [
    | inl b ↦
        rw (handled-block db moka h names number resolve clock q p b, b) (counted-one o _ p.sent)
    | inr b ↦ elim (Option-cases (l1_get db moka h names clock.lookup q p.l1)) [
      | inr (raw, found) ↦
          rw (handled-hit db moka h names number resolve clock q p raw b found, b, found)
            (counted-one o _ p.sent)
      | inl missed ↦ elim (Result-cases (resolve clock.call p.config q)) [
        | inl (e, failed) ↦
            rw
              (
                handle_parsed,
                served_of,
                check-found db moka h names number resolve clock.lookup q p b,
                b,
                missed,
                failed,
              )
              (omega arith)
        | inr (res, resolved) ↦
            rw
              (
                handle_parsed,
                served_of,
                check-found db moka h names number resolve clock.lookup q p b,
                b,
                missed,
                resolved,
              )
              (counted-one o _ p.sent)
      ]
    ]
  ]

  handle-counted :
      (o : Outcome) (clock : Clock) (packet : Bytes) (p : Proxy db.Pool moka.Store)
      → counted o (handle db moka h names number resolve clock packet p).1.sent
        ≡ adds o (answered_how clock packet p) + counted o p.sent
  unfolding handle answered_how
  handle-counted o clock packet p = elim (Result-cases (parse_udp packet)) [
    | inl (e, failed) ↦ rw (handle, answered_how, failed) (omega arith)
    | inr (q, parsed) ↦ rw (handle, answered_how, parsed) (handle_parsed-counted o clock q p)
  ]

  serve_all-counted :
      (o : Outcome) (packets : List (Clock × Bytes)) (p : Proxy db.Pool moka.Store)
      → counted o (serve_all packets p).sent ≡ answered_as o packets p + counted o p.sent
  unfolding serve_all answered_as
  serve_all-counted o [] p = omega arith
  serve_all-counted o ((clock, packet) ∷ packets) p = omega (
    arith,
    serve_all-counted o packets (handle db moka h names number resolve clock packet p).1,
    handle-counted o clock packet p,
  )

  length-handle_parsed :
      (clock : Clock) (q : Query) (p : Proxy db.Pool moka.Store)
      → length (handle_parsed db moka h names number resolve clock q p).1.sent ≤ length p.sent + 1
  length-handle_parsed clock q p =
      elim (Result-cases (handle_parsed db moka h names number resolve clock q p).0) [
        | inl (u, e) ↦
            rw (handle_parsed-err db moka h names number resolve clock q p u e).1 (omega arith)
        | inr (raw, e) ↦
            let (s, l, way, same, after) =
              handle_parsed-ok db moka h names number resolve clock q p raw e in
            rw after (omega arith)
      ]

  length-handle :
      (clock : Clock) (packet : Bytes) (p : Proxy db.Pool moka.Store)
      → length (handle db moka h names number resolve clock packet p).1.sent ≤ length p.sent + 1
  unfolding handle
  length-handle clock packet p = elim (Result-cases (parse_udp packet)) [
    | inl (e, failed) ↦ rw (handle, failed) (omega arith)
    | inr (q, parsed) ↦ rw (handle, parsed) (length-handle_parsed clock q p)
  ]

  length-serve_all :
      (packets : List (Clock × Bytes)) (p : Proxy db.Pool moka.Store)
      → length (serve_all packets p).sent ≤ length p.sent + length packets
  unfolding serve_all
  length-serve_all [] p = omega arith
  length-serve_all ((clock, packet) ∷ packets) p = omega (
    arith,
    length-serve_all packets (handle db moka h names number resolve clock packet p).1,
    length-handle clock packet p,
  )

  -- Packets go to the handler one after another, 10,000 at most and none before them, and the
  -- events that it reports are sent to an empty channel in that order, whatever the order of the
  -- channel's two ends. Once no event waits any more, each counter of the metrics, where they are
  -- kept, has grown by the number of packets that were answered in its way: by the block list, from
  -- the cache or by a resolver.
  pub Runs-answered :
      (to_string : DnsQueryEvent → Option Str) (packets : List (Clock × Bytes))
      (p : Proxy db.Pool moka.Store) (start s : Producing) (o : Outcome) (before after : Metrics)
      → p.sent ≡ []
      → length packets ≤ channel_size
      → start.channel ≡ some []
      → Runs to_string start (reverse (serve_all packets p).sent) s
      → s.channel ≡ some []
      → start.metrics ≡ some before
      → s.metrics ≡ some after
      → counter o after ≡ counter o before + answered_as o packets p
  unfolding counted
  Runs-answered to_string packets p start s o before after unused few fresh r idle was is =
      let events = (serve_all packets p).sent in
      let none_before : counted o p.sent ≡ 0 = ap (counted o) unused in
      let no_events : length p.sent ≡ 0 = ap length unused in
      omega (
        arith,
        Runs-counted to_string start (reverse events) s o before after fresh r
            (omega (arith, few, length-reverse events, length-serve_all packets p, no_events)) idle
            was is,
        counted-reverse o events,
        none_before,
        serve_all-counted o packets p,
      )
