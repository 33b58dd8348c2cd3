-- ===== src/Dns/Cold/Keeps.antt =====
-- Whom the workers and tasks of backend/src/dns/mono.rs answer: an invariant of their steps.
pub mod Run
use denis.Acl.{Action, Networks, AclEntry, allow, deny, refuse, decide}
use denis.Base.{
  ℕ, ◌≤◌, Option, none, some, List, [], ◌∷◌, ◌++◌, Bytes, Result, ok, err, length, get_elem?,
  get_elem?-append, get_elem?-grows, take, All, All-map, All-snoc, pick, picked, pick-All, inl, inr,
  ◌≡◌, refl, sym, ap, ◌∙◌, arith, Bool-cases, Option-cases, Result-cases,
}
use denis.Config.{RuntimeConfig, refused}
use denis.Dns.Mono.Agree.{cached-raw, missed-miss}
use denis.Dns.Cold.{
  ColdRequest, Machine, Event, arrives, takes, returns, managed, send_to, deliver, taken, outcome,
  ended, admitted, step, run_events, idle,
}
use denis.Dns.Mono.{
  Outcome, recv_buf, reply, miss, dropped, classify, classify_query, refuse_packet,
}
use denis.Handler.Parser.Bounds.{parse_udp-bounds}
use denis.Handler.Parser.{Query, parse_udp}
use denis.Handler.Serve.Answers.{
  Resolves, cached-Answers, l1_get-Cacheable, handle_parsed-Reported, handle_parsed-HoldsCacheable,
}
use denis.Handler.Serve.Cached.{HoldsCacheable}
use denis.Handler.Serve.{
  Moka, Expires, Clock, Proxy, UpstreamError, HandlerError, l1_get, handle_parsed,
}
use denis.Handler.Upstream.Replies.{blocked-IsAnswer}
use denis.Handler.Upstream.{ResponseCode, UpstreamResponse, blocked}
use denis.Repo.Cache.{is_blocked}
use denis.Repo.Database.{Database}
use denis.Repo.Key.{Heapless, TypeNames}

take-take_two : (d : Bytes) → take 2 (take recv_buf d) ≡ take 2 d
take-take_two [] = refl
take-take_two (a ∷ []) = refl
take-take_two (a ∷ b ∷ d) = refl

-- What `classify` may return for a query, where the number of the query is all that counts.
abbrev Sound : {Pool Store : Type 0} → Query → Store → Outcome × Proxy Pool Store → Type 0
Sound q l1 (reply resp, p) = (p.l1 ≡ l1) × (take 2 resp ≡ take 2 q.raw)
Sound q l1 (miss query, p) = (p.l1 ≡ l1) × (query ≡ q)
Sound q l1 (dropped, p) = p.l1 ≡ l1

module _ (db : Database) (moka : Moka) (h : Heapless) (names : TypeNames)
    (number : ResponseCode → ℕ)
    (resolve : ℕ → RuntimeConfig → Query → Result UpstreamError UpstreamResponse) where
  classify_query-Sound :
      (clock : Clock) (q : Query) (p : Proxy db.Pool moka.Store)
      → 12 ≤ length q.raw
      → 12 ≤ q.answer_offset
      → HoldsCacheable moka p.l1
      → Sound q p.l1 (classify_query db moka h names number resolve clock q p)
  unfolding classify_query
  classify_query-Sound clock q p long far held = elim (Bool-cases (is_blocked db p.lists q.name)) [
    | inl b ↦ rw b (refl, (blocked-IsAnswer q p.config.blocking_mode long far).same_id)
    | inr b ↦ elim (Option-cases (l1_get db moka h names clock.lookup q p.l1)) [
      | inr (raw, found) ↦
          let fit =
            l1_get-Cacheable db moka h names number resolve clock.lookup q p.l1 raw held found in
          let (id, code) = cached-Answers q raw (omega (arith, fit.0)) (omega arith) in
          let same = cached-raw db moka h names number resolve q raw (omega arith) in
          rw (b, found) (refl, ap (take 2) (sym same) ∙ id)
      | inl missed ↦ rw (missed-miss db moka h names number resolve clock q p b missed) (refl, refl)
    ]
  ]

-- The number of a datagram from this client, among the datagrams that are told by `Asked`.
abbrev pub Answered : {Addr : Type 0} → (Bytes → Addr → Type 0) → Bytes × Addr → Type 0
Answered Asked (resp, src) =
    (datagram : Bytes) × Asked datagram src × (take 2 resp ≡ take 2 datagram)

-- A request that waits for an answer: its channel leads to the client whose datagram it came from.
abbrev pub Waits : {Addr : Type 0} → (Bytes → Addr → Type 0) → List Addr → ColdRequest → Type 0
Waits {Addr} Asked clients req =
    (datagram : Bytes) × (src : Addr) × Asked datagram src
    × (get_elem? clients req.reply ≡ some src)
    × (parse_udp (take recv_buf datagram) ≡ ok req.query)

-- Of a parsed datagram: the packet is kept, and its parts lie behind the header.
parsed_number :
    (datagram : Bytes) (q : Query)
    → parse_udp (take recv_buf datagram) ≡ ok q
    → (take 2 q.raw ≡ take 2 datagram) × (12 ≤ length q.raw) × (12 ≤ q.answer_offset)
parsed_number datagram q e =
    let (same, far, near, last) = parse_udp-bounds (take recv_buf datagram) q e in
    (ap (take 2) same ∙ take-take_two datagram, rw same (omega arith), omega arith)

module _ {Addr : Type 0} (Asked : Bytes → Addr → Type 0) where
  Waits-grows :
      (clients : List Addr) (src : Addr) (req : ColdRequest)
      → Waits Asked clients req
      → Waits Asked (clients ++ src ∷ []) req
  Waits-grows clients src req (d, a, asked, at, parsed) =
      (d, a, asked, get_elem?-grows clients (src ∷ []) req.reply a at, parsed)

  send_to-Answered :
      (o : Option Bytes) (src : Addr) (sent : List (Bytes × Addr))
      → All (Answered Asked) sent
      → ((resp : Bytes) → o ≡ some resp → Answered Asked (resp, src))
      → All (Answered Asked) (send_to o src sent)
  send_to-Answered none src sent good new = good
  send_to-Answered (some resp) src sent good new =
      All-snoc (Answered Asked) sent (resp, src) good (new resp refl)

  deliver-Answered :
      (r : Result HandlerError Bytes) (src : Addr) (sent : List (Bytes × Addr))
      → All (Answered Asked) sent
      → ((resp : Bytes) → r ≡ ok resp → Answered Asked (resp, src))
      → All (Answered Asked) (deliver r (some src) sent)
  deliver-Answered (err e) src sent good new = good
  deliver-Answered (ok resp) src sent good new =
      All-snoc (Answered Asked) sent (resp, src) good (new resp refl)

module _ (moka : Moka) {Addr Pool : Type 0} (Asked : Bytes → Addr → Type 0) where
  pub record Inv (m : Machine Addr Pool moka.Store) : Type 0 where
    pub held : HoldsCacheable moka m.proxy.l1
    pub queued : All (Waits Asked m.clients) m.cold
    pub working : All (Waits Asked m.clients) m.running
    pub answered : All (Answered Asked) m.sent

  outcome-Inv :
      (clock : Clock) (src : Addr) (datagram : Bytes) (q : Query) (m : Machine Addr Pool moka.Store)
      (r : Outcome × Proxy Pool moka.Store)
      → Asked datagram src
      → parse_udp (take recv_buf datagram) ≡ ok q
      → Sound q m.proxy.l1 r
      → Inv m
      → Inv (outcome clock src r m)
  outcome-Inv clock src datagram q m (reply resp, p) asked parsed (same, id) good = record {
    held = rw same good.held;
    queued = good.queued;
    working = good.working;
    answered =
        All-snoc (Answered Asked) m.sent (resp, src) good.answered
          (datagram, asked, id ∙ (parsed_number datagram q parsed).0);
  }
  outcome-Inv clock src datagram q m (miss query, p) asked parsed (same, is) good = record {
    held = rw same good.held;
    queued =
        All-snoc (Waits Asked (m.clients ++ src ∷ [])) m.cold _
          (All-map (Waits-grows Asked m.clients src) m.cold good.queued)
          (datagram, src, asked, get_elem?-append m.clients [] src, rw is parsed);
    working = All-map (Waits-grows Asked m.clients src) m.running good.working;
    answered = good.answered;
  }
  outcome-Inv clock src datagram q m (dropped, p) asked parsed same good = record {
    held = rw same good.held;
    queued = good.queued;
    working = good.working;
    answered = good.answered;
  }

  taken-Inv :
      (cold : List ColdRequest) (m : Machine Addr Pool moka.Store)
      → cold ≡ m.cold
      → Inv m
      → Inv (taken cold m)
  taken-Inv [] m e good = good
  taken-Inv (req ∷ rest) m e good =
      let waits = rw (← e) at good.queued in
      record {
        held = good.held;
        queued = waits.1;
        working = All-snoc (Waits Asked m.clients) m.running req good.working waits.0;
        answered = good.answered;
      }

module _ (db : Database) (moka : Moka) (laws : Expires moka) (h : Heapless) (names : TypeNames)
    (number : ResponseCode → ℕ)
    (resolve : ℕ → RuntimeConfig → Query → Result UpstreamError UpstreamResponse)
    (resolves : Resolves resolve) {Addr : Type 0} (Asked : Bytes → Addr → Type 0) where
  ended-Inv :
      (clock : Clock) (found : Option ColdRequest) (others : List ColdRequest)
      (m : Machine Addr db.Pool moka.Store)
      → ((req : ColdRequest) → found ≡ some req → Waits Asked m.clients req)
      → All (Waits Asked m.clients) others
      → Inv moka Asked m
      → Inv moka Asked (ended db moka h names number resolve clock found others m)
  ended-Inv clock none others m waits rest good = good
  ended-Inv clock (some req) others m waits rest good =
      let (d, src, asked, at, parsed) = waits req refl in
      let (id, long, far) = parsed_number d req.query parsed in
      let c = record clock { timestamp_ms = req.timestamp_ms } in
      let r = handle_parsed db moka h names number resolve c req.query m.proxy in
      record {
        held =
            handle_parsed-HoldsCacheable db moka laws h names number resolve c req.query m.proxy
              good.held;
        queued = good.queued;
        working = rest;
        answered = rw at (
            deliver-Answered Asked r.0 src m.sent good.answered (λ resp same.
              let (event, one, reported) =
                handle_parsed-Reported db moka h names number resolve c req.query m.proxy resp long
                  far resolves good.held same in
              (d, asked, reported.same_id ∙ id)));
      }
