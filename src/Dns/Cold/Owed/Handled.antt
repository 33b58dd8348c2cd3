-- ===== src/Dns/Cold/Owed/Handled.antt =====
-- What the steps of backend/src/dns/mono.rs that call the handler add to the replies, or take away.
use denis.Base.{
  ℕ, ◌+◌, Bool, true, false, ◌&&◌, Option, none, some, List, Bytes, Result, ok, err, get_elem?, All,
  one, count, count-snoc, inl, inr, ◌≡◌, refl, arith, Bool-cases, Option-cases, Result-cases,
}
use denis.Config.{RuntimeConfig, refused}
use denis.Dns.Cold.{ColdRequest, Machine, send_to, ended}
use denis.Dns.Mono.{classify, classify_query, refuse_packet}
use denis.Handler.Parser.{Query, parse_udp}
use denis.Handler.Serve.{Moka, Clock, Proxy, UpstreamError, handle_parsed, l1_get}
use denis.Handler.Upstream.{ResponseCode, UpstreamResponse, blocked}
use denis.Repo.Cache.{is_blocked}
use denis.Repo.Database.{Database}
use denis.Repo.Key.{Heapless, TypeNames}
use denis.Dns.Cold.Owed.{asked_by, sent_to, due, Known, Sane, adds, withheld, deliver-count}

-- Whether a packet is a query.
unfoldable pub is_query : Bytes → Bool
is_query packet = elim (parse_udp packet) [ ok q ↦ true | err e ↦ false ]

module _ (db : Database) (moka : Moka) (h : Heapless) (names : TypeNames)
    (number : ResponseCode → ℕ)
    (resolve : ℕ → RuntimeConfig → Query → Result UpstreamError UpstreamResponse) {Addr : Type 0}
    (group : Addr → Bool) where
  -- The reply that is left out when this task ends.
  abbrev pub lost_by : Clock → Option ColdRequest → Machine Addr db.Pool moka.Store → ℕ
  lost_by clock none m = 0
  lost_by clock (some req) m =
      withheld group
        (handle_parsed db moka h names number resolve
          (record clock { timestamp_ms = req.timestamp_ms }) req.query m.proxy).0
        (get_elem? m.clients req.reply)

  pub ended-due :
      (clock : Clock) (found : Option ColdRequest) (others : List ColdRequest)
      (m : Machine Addr db.Pool moka.Store)
      → ((req : ColdRequest)
          → found ≡ some req
          → count (asked_by group m.clients) m.running
            ≡ one (asked_by group m.clients req) + count (asked_by group m.clients) others)
      → due group (ended db moka h names number resolve clock found others m)
          + lost_by clock found m
        ≡ due group m
  ended-due clock none others m counts = omega arith
  ended-due clock (some req) others m counts = omega (
    arith,
    counts req refl,
    deliver-count group
        (handle_parsed db moka h names number resolve
          (record clock { timestamp_ms = req.timestamp_ms }) req.query m.proxy).0
        (get_elem? m.clients req.reply) m.sent,
  )

  pub ended-Sane :
      (clock : Clock) (found : Option ColdRequest) (others : List ColdRequest)
      (m : Machine Addr db.Pool moka.Store)
      → All (Known group m.clients) others
      → Sane group m
      → Sane group (ended db moka h names number resolve clock found others m)
  ended-Sane clock none others m known sane = sane
  ended-Sane clock (some req) others m known sane = record {
    cold_known = sane.cold_known;
    running_known = known;
  }

  classify_query-adds :
      (clock : Clock) (src : Addr) (q : Query) (p : Proxy db.Pool moka.Store)
      → adds group src (classify_query db moka h names number resolve clock q p) ≡ one (group src)
  unfolding classify_query
  classify_query-adds clock src q p = elim (Bool-cases (is_blocked db p.lists q.name)) [
    | inl b ↦ rw b refl
    | inr b ↦ elim (Option-cases (l1_get db moka h names clock.lookup q p.l1)) [
      | inr (raw, found) ↦ rw (b, found) refl
      | inl missed ↦ rw (b, missed) refl
    ]
  ]

  pub classify-adds :
      (clock : Clock) (src : Addr) (packet : Bytes) (p : Proxy db.Pool moka.Store)
      → adds group src (classify db moka h names number resolve clock packet p)
        ≡ one (is_query packet && group src)
  unfolding classify is_query
  classify-adds clock src packet p = elim (Result-cases (parse_udp packet)) [
    | inl (e, failed) ↦ rw (classify, is_query, failed) refl
    | inr (q, parsed) ↦ rw (classify, is_query, parsed) (classify_query-adds clock src q p)
  ]

  pub refuse_packet-count :
      (packet : Bytes) (src : Addr) (sent : List (Bytes × Addr))
      → count (sent_to group) (send_to (refuse_packet packet) src sent)
        ≡ count (sent_to group) sent + one (is_query packet && group src)
  unfolding refuse_packet is_query
  refuse_packet-count packet src sent = elim (Result-cases (parse_udp packet)) [
    | inl (e, failed) ↦ rw (refuse_packet, is_query, failed) (omega arith)
    | inr (q, parsed) ↦
        rw (refuse_packet, is_query, parsed)
          (count-snoc (sent_to group) sent ((blocked q refused).raw, src))
  ]
