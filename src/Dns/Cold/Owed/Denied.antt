-- ===== src/Dns/Cold/Owed/Denied.antt =====
-- Clients that the access list denies get nothing from the workers of backend/src/dns/mono.rs.
use denis.Acl.{Action, Networks, AclEntry, allow, deny, refuse, decide}
use denis.Base.{
  ℕ, Bool, true, false, List, [], ◌∷◌, Bytes, Result, take, count, ◌≡◌, refl, arith, inl, inr,
  Bool-cases,
}
use denis.Config.{RuntimeConfig}
use denis.Dns.Cold.Owed.Ledger.{owed, owed_for, run_events-owed}
use denis.Dns.Cold.Owed.{sent_to}
use denis.Dns.Cold.{Event, arrives, takes, returns, managed, run_events, idle}
use denis.Dns.Mono.{recv_buf}
use denis.Handler.Parser.{Query}
use denis.Handler.Serve.{Moka, Proxy, UpstreamError}
use denis.Handler.Upstream.{ResponseCode, UpstreamResponse}
use denis.Repo.Database.{Database}
use denis.Repo.Key.{Heapless, TypeNames}

module _ (db : Database) (moka : Moka) (h : Heapless) (names : TypeNames)
    (number : ResponseCode → ℕ)
    (resolve : ℕ → RuntimeConfig → Query → Result UpstreamError UpstreamResponse) (nets : Networks)
    (entries : List (AclEntry nets.Net)) (group : nets.Addr → Bool)
    (denied : (src : nets.Addr) → group src ≡ true → decide nets entries src ≡ deny) where
  outside :
      (action : Action) (packet : Bytes) (src : nets.Addr)
      → group src ≡ false
      → owed_for db moka h names number resolve nets entries group action packet src ≡ 0
  outside allow packet src e = ground arith
  outside deny packet src e = refl
  outside refuse packet src e = ground arith

  nothing_owed :
      (packet : Bytes) (src : nets.Addr)
      → owed_for db moka h names number resolve nets entries group
          (decide nets entries src)
          packet
          src
        ≡ 0
  nothing_owed packet src = elim (Bool-cases (group src)) [
    | inl e ↦ rw (denied src e) refl
    | inr e ↦ outside (decide nets entries src) packet src e
  ]

  owed-denied :
      (events : List (Event nets.Addr db.Pool))
      → owed db moka h names number resolve nets entries group events ≡ 0
  unfolding owed
  owed-denied [] = refl
  owed-denied (arrives clock datagram src ∷ events) =
      omega (arith, nothing_owed (take recv_buf datagram) src, owed-denied events)
  owed-denied (takes ∷ events) = owed-denied events
  owed-denied (returns clock i ∷ events) = owed-denied events
  owed-denied (managed lists config ∷ events) = owed-denied events

  -- On the runtime monoio and over UDP, where the access list denies every client of a group: from
  -- an idle program on, and in whatever order datagrams arrive, also theirs, and tasks start and
  -- end, the workers and the tasks of `cold_path` never send any of them a reply. Neither the
  -- server over TCP nor the runtime tokio takes the access list, and nothing is said of them.
  pub sent-denied :
      (events : List (Event nets.Addr db.Pool)) (p : Proxy db.Pool moka.Store)
      → count
          (sent_to group)
          (run_events db moka h names number resolve nets entries events (idle p)).sent
        ≡ 0
  sent-denied events p = omega (
    arith,
    run_events-owed db moka h names number resolve nets entries group events p,
    owed-denied events,
  )
