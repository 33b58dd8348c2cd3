-- ===== src/Dns/Cold/Keeps/Run.antt =====
-- What the workers and tasks of backend/src/dns/mono.rs have sent after any steps.
use denis.Acl.{Action, Networks, AclEntry, allow, deny, refuse, decide}
use denis.Base.{
  ℕ, List, [], ◌∷◌, Bytes, Result, take, All, pick, picked, pick-All, inl, inr, ◌≡◌, refl, sym, ap,
  ◌∙◌, Result-cases,
}
use denis.Config.{RuntimeConfig, refused}
use denis.Dns.Cold.{
  Machine, Event, arrives, takes, returns, managed, admitted, step, run_events, idle,
}
use denis.Dns.Mono.{recv_buf, classify, classify_query, refuse_packet}
use denis.Handler.Parser.{Query, parse_udp}
use denis.Handler.Serve.Answers.{Resolves}
use denis.Handler.Serve.Cached.{HoldsCacheable}
use denis.Handler.Serve.{Moka, Expires, Clock, Proxy, UpstreamError}
use denis.Handler.Upstream.Replies.{blocked-IsAnswer}
use denis.Handler.Upstream.{ResponseCode, UpstreamResponse, blocked}
use denis.Repo.Database.{Database}
use denis.Repo.Key.{Heapless, TypeNames}
use denis.Dns.Cold.Keeps.{
  Answered, Waits, Inv, parsed_number, classify_query-Sound, outcome-Inv, taken-Inv, ended-Inv,
  send_to-Answered,
}

-- The datagram is one that a worker received from this client.
pub data Arrived {Addr Pool : Type 0} (datagram : Bytes) (src : Addr)
    : List (Event Addr Pool) → Type 0 where
  here :
      (clock : Clock) (events : List (Event Addr Pool))
      → Arrived datagram src (arrives clock datagram src ∷ events)
  later :
      (event : Event Addr Pool) (events : List (Event Addr Pool))
      → Arrived datagram src events
      → Arrived datagram src (event ∷ events)

module _ (db : Database) (moka : Moka) (laws : Expires moka) (h : Heapless) (names : TypeNames)
    (number : ResponseCode → ℕ)
    (resolve : ℕ → RuntimeConfig → Query → Result UpstreamError UpstreamResponse)
    (resolves : Resolves resolve) (nets : Networks) (entries : List (AclEntry nets.Net)) where
  abbrev State : Type 0
  State = Machine nets.Addr db.Pool moka.Store

  admitted-Inv :
      (Asked : Bytes → nets.Addr → Type 0) (action : Action) (clock : Clock) (datagram : Bytes)
      (src : nets.Addr) (m : State)
      → Asked datagram src
      → Inv moka Asked m
      → Inv moka Asked (
          admitted db moka h names number resolve nets entries action clock
            (take recv_buf datagram)
            src
            m)
  unfolding classify refuse_packet
  admitted-Inv Asked deny clock datagram src m asked good = good
  admitted-Inv Asked allow clock datagram src m asked good =
      elim (Result-cases (parse_udp (take recv_buf datagram))) [
        | inl (e, failed) ↦
            rw (classify, failed)
              (record {
                held = good.held;
                queued = good.queued;
                working = good.working;
                answered = good.answered;
              })
        | inr (q, parsed) ↦
            let (id, long, far) = parsed_number datagram q parsed in
            rw (classify, parsed)
              (outcome-Inv moka Asked clock src datagram q m
                (classify_query db moka h names number resolve clock q m.proxy) asked parsed
                (classify_query-Sound db moka h names number resolve clock q m.proxy long far
                  good.held)
                good)
      ]
  admitted-Inv Asked refuse clock datagram src m asked good = record {
    held = good.held;
    queued = good.queued;
    working = good.working;
    answered =
        send_to-Answered Asked (refuse_packet (take recv_buf datagram)) src m.sent good.answered
          (elim (Result-cases (parse_udp (take recv_buf datagram))) [
            | inl (e, failed) ↦ λ resp same. absurd (cc (rw (refuse_packet, failed) at same))
            | inr (q, parsed) ↦ λ resp same.
                let (id, long, far) = parsed_number datagram q parsed in
                let is = rw (refuse_packet, parsed) at same in
                let raw_is : (blocked q refused).raw ≡ resp = cc is in
                (
                  datagram,
                  asked,
                  ap (take 2) (sym raw_is) ∙ (blocked-IsAnswer q refused long far).same_id ∙ id,
                )
          ]);
  }

  run_events-Inv :
      (Asked : Bytes → nets.Addr → Type 0) (events : List (Event nets.Addr db.Pool)) (m : State)
      → ((datagram : Bytes) (src : nets.Addr) → Arrived datagram src events → Asked datagram src)
      → Inv moka Asked m
      → Inv moka Asked (run_events db moka h names number resolve nets entries events m)
  unfolding run_events step
  run_events-Inv Asked [] m asks good = good
  run_events-Inv Asked (arrives clock datagram src ∷ events) m asks good =
      run_events-Inv Asked events _
        (λ d a arrived. asks d a (later (arrives clock datagram src) events arrived))
        (admitted-Inv Asked (decide nets entries src) clock datagram src m
          (asks datagram src (here clock events)) good)
  run_events-Inv Asked (takes ∷ events) m asks good =
      run_events-Inv Asked events _ (λ d a arrived. asks d a (later takes events arrived))
        (taken-Inv moka Asked m.cold m refl good)
  run_events-Inv Asked (returns clock i ∷ events) m asks good =
      run_events-Inv Asked events _
        (λ d a arrived. asks d a (later (returns clock i) events arrived))
        (ended-Inv db moka laws h names number resolve resolves Asked clock (pick i m.running).0
          (pick i m.running).1 m
          (λ req. picked (Waits Asked m.clients) i m.running req good.working)
          (pick-All (Waits Asked m.clients) i m.running good.working) good)
  run_events-Inv Asked (managed lists config ∷ events) m asks good =
      run_events-Inv Asked events _
        (λ d a arrived. asks d a (later (managed lists config) events arrived))
        (record {
          held = good.held;
          queued = good.queued;
          working = good.working;
          answered = good.answered;
        })

  -- Where moka returns only what was stored: from an idle program on whose cache holds only answers
  -- that may be cached, with resolvers whose answers carry the query's number, and in whatever
  -- order datagrams arrive, the tasks of `cold_path` start and end and the management changes the
  -- lists and the configuration, everything that is sent goes to a client from whom a datagram was
  -- received, and carries that datagram's number.
  pub run_events-Answered :
      (events : List (Event nets.Addr db.Pool)) (p : Proxy db.Pool moka.Store)
      → HoldsCacheable moka p.l1
      → All
          (Answered (λ datagram src. Arrived datagram src events))
          (run_events db moka h names number resolve nets entries events (idle p)).sent
  run_events-Answered events p held =
      let kept =
        run_events-Inv (λ datagram src. Arrived datagram src events) events (idle p)
          (λ d a arrived. arrived)
          (record { held = held; queued = tt; working = tt; answered = tt }) in
      kept.answered
