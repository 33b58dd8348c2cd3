-- ===== src/Dns/Cold/Owed.antt =====
-- How many replies the workers and tasks of backend/src/dns/mono.rs owe, whatever their order.
pub mod Handled
pub mod Upstreams
pub mod Ledger
pub mod Drained
pub mod Denied
use denis.Acl.{Action, Networks, AclEntry, allow, deny, refuse, decide}
use denis.Base.{
  ℕ, ◌+◌, ◌<◌, Bool, true, false, ◌&&◌, Option, none, some, List, [], ◌∷◌, ◌++◌, Bytes, Result, ok,
  err, length, length-append, get_elem?, get_elem?-append, get_elem?-before, take, All, All-map,
  All-snoc, pick, picked, pick-All, one, count, count-snoc, count-ext, pick-count, inl, inr, ◌≡◌,
  refl, sym, ap, ◌∙◌, arith, Bool-cases, Option-cases, Result-cases,
}
use denis.Config.{RuntimeConfig, refused}
use denis.Dns.Cold.{
  ColdRequest, Machine, Event, arrives, takes, returns, managed, send_to, deliver, taken, outcome,
  ended, admitted, step, run_events,
}
use denis.Dns.Mono.{
  Outcome, recv_buf, reply, miss, dropped, classify, classify_query, refuse_packet,
}
use denis.Handler.Parser.{Query, parse_udp}
use denis.Handler.Serve.{Moka, Clock, Proxy, UpstreamError, HandlerError, handle_parsed, l1_get}
use denis.Handler.Upstream.{ResponseCode, UpstreamResponse, blocked}
use denis.Repo.Cache.{is_blocked}
use denis.Repo.Database.{Database}
use denis.Repo.Key.{Heapless, TypeNames}

module _ {Addr : Type 0} (group : Addr → Bool) where
  abbrev pub in_group : Option Addr → Bool
  in_group none = false
  in_group (some a) = group a

  -- The client who waits for a request is in the group.
  abbrev pub asked_by : List Addr → ColdRequest → Bool
  asked_by clients req = in_group (get_elem? clients req.reply)

  abbrev pub sent_to : Bytes × Addr → Bool
  sent_to (resp, src) = group src

  -- The replies to the clients of a group that have been sent or are still to come.
  abbrev pub due : {Pool Store : Type 0} → Machine Addr Pool Store → ℕ
  due m =
      count sent_to m.sent
      + count (asked_by m.clients) m.cold
      + count (asked_by m.clients) m.running

  abbrev pub Known : List Addr → ColdRequest → Type 0
  Known clients req = req.reply < length clients

  asked_by-grows :
      (clients : List Addr) (src : Addr) (req : ColdRequest)
      → Known clients req
      → asked_by (clients ++ src ∷ []) req ≡ asked_by clients req
  asked_by-grows clients src req known =
      ap in_group (get_elem?-before clients (src ∷ []) req.reply known)

  Known-grows :
      (clients : List Addr) (src : Addr) (req : ColdRequest)
      → Known clients req
      → Known (clients ++ src ∷ []) req
  Known-grows clients src req known = omega (arith, known, length-append clients (src ∷ []))

  pub record Sane {Pool Store : Type 0} (m : Machine Addr Pool Store) : Type 0 where
    pub cold_known : All (Known m.clients) m.cold
    pub running_known : All (Known m.clients) m.running

  -- What one packet that a worker classifies adds.
  abbrev pub adds : {Pool Store : Type 0} → Addr → Outcome × Proxy Pool Store → ℕ
  adds src (reply resp, p) = one (group src)
  adds src (miss query, p) = one (group src)
  adds src (dropped, p) = 0

  outcome-due :
      {Pool Store : Type 0} (clock : Clock) (src : Addr) (r : Outcome × Proxy Pool Store)
      (m : Machine Addr Pool Store)
      → Sane m
      → due (outcome clock src r m) ≡ due m + adds src r
  outcome-due clock src (reply resp, p) m sane =
      omega (arith, count-snoc sent_to m.sent (resp, src))
  outcome-due clock src (miss query, p) m sane =
      let grown = m.clients ++ src ∷ [] in
      let request : ColdRequest = record {
        query = query;
        timestamp_ms = clock.timestamp_ms;
        reply = length m.clients;
      } in
      let new : asked_by grown request ≡ group src =
        ap in_group (get_elem?-append m.clients [] src) in
      omega (
        arith,
        count-snoc (asked_by grown) m.cold request,
        ap one new,
        count-ext (Known m.clients) (asked_by grown) (asked_by m.clients)
            (asked_by-grows m.clients src) m.cold sane.cold_known,
        count-ext (Known m.clients) (asked_by grown) (asked_by m.clients)
            (asked_by-grows m.clients src) m.running sane.running_known,
      )
  outcome-due clock src (dropped, p) m sane = omega arith

  outcome-Sane :
      {Pool Store : Type 0} (clock : Clock) (src : Addr) (r : Outcome × Proxy Pool Store)
      (m : Machine Addr Pool Store)
      → Sane m
      → Sane (outcome clock src r m)
  outcome-Sane clock src (reply resp, p) m sane = record {
    cold_known = sane.cold_known;
    running_known = sane.running_known;
  }
  outcome-Sane clock src (miss query, p) m sane = record {
    cold_known =
        All-snoc (Known (m.clients ++ src ∷ [])) m.cold _
          (All-map (Known-grows m.clients src) m.cold sane.cold_known)
          (omega (arith, length-append m.clients (src ∷ [])));
    running_known = All-map (Known-grows m.clients src) m.running sane.running_known;
  }
  outcome-Sane clock src (dropped, p) m sane = record {
    cold_known = sane.cold_known;
    running_known = sane.running_known;
  }

  taken-due :
      {Pool Store : Type 0} (cold : List ColdRequest) (m : Machine Addr Pool Store)
      → cold ≡ m.cold
      → due (taken cold m) ≡ due m
  taken-due [] m e = refl
  taken-due (req ∷ rest) m e =
      omega
        (arith, count-snoc (asked_by m.clients) m.running req, ap (count (asked_by m.clients)) e)

  taken-Sane :
      {Pool Store : Type 0} (cold : List ColdRequest) (m : Machine Addr Pool Store)
      → cold ≡ m.cold
      → Sane m
      → Sane (taken cold m)
  taken-Sane [] m e sane = sane
  taken-Sane (req ∷ rest) m e sane =
      let known = rw (← e) at sane.cold_known in
      record {
        cold_known = known.1;
        running_known = All-snoc (Known m.clients) m.running req sane.running_known known.0;
      }

  -- A reply that a failing handler leaves out.
  abbrev pub withheld : Result HandlerError Bytes → Option Addr → ℕ
  withheld (ok resp) client = 0
  withheld (err e) client = one (in_group client)

  pub deliver-count :
      (r : Result HandlerError Bytes) (client : Option Addr) (sent : List (Bytes × Addr))
      → count sent_to (deliver r client sent) + withheld r client
        ≡ count sent_to sent + one (in_group client)
  deliver-count (ok resp) none sent = omega arith
  deliver-count (ok resp) (some src) sent = omega (arith, count-snoc sent_to sent (resp, src))
  deliver-count (err e) client sent = refl
