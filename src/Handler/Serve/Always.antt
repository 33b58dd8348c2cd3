-- ===== src/Handler/Serve/Always.antt =====
-- The query handler of backend/src/handler/query.rs where a configured resolver always answers.
use denis.Base.{ℕ, Bytes, false, Result, ok, inl, inr, ◌≡◌, refl, Result-cases}
use denis.Config.{RuntimeConfig}
use denis.Handler.Parser.{Query, parse_udp}
use denis.Handler.Serve.Answers.{handle_parsed-error}
use denis.Handler.Serve.{Moka, Clock, Proxy, UpstreamError, served_of, handle_parsed, handle}
use denis.Handler.Upstream.{ResponseCode, UpstreamResponse}
use denis.Repo.Database.{Database}
use denis.Repo.Decide.{is_empty}
use denis.Repo.Key.{Heapless, TypeNames}

-- Resolvers of which one answers whatever the query and the moment, where any is configured.
abbrev pub Answering : (ℕ → RuntimeConfig → Query → Result UpstreamError UpstreamResponse) → Type 0
Answering resolve =
    (n : ℕ) (c : RuntimeConfig) (q : Query)
    → is_empty c.upstreams ≡ false
    → (res : UpstreamResponse) × (resolve n c q ≡ ok res)

-- The configuration names a resolver.
abbrev pub Configured : RuntimeConfig → Type 0
Configured c = is_empty c.upstreams ≡ false

module _ (db : Database) (moka : Moka) (h : Heapless) (names : TypeNames)
    (number : ResponseCode → ℕ)
    (resolve : ℕ → RuntimeConfig → Query → Result UpstreamError UpstreamResponse) where
  -- A query leaves the configuration alone.
  pub handle_parsed-config :
      (clock : Clock) (q : Query) (p : Proxy db.Pool moka.Store)
      → (handle_parsed db moka h names number resolve clock q p).1.config ≡ p.config
  unfolding handle_parsed
  handle_parsed-config clock q p =
      elim (Result-cases (served_of db moka h names number resolve clock q p)) [
        | inl (e, failed) ↦ rw (handle_parsed, failed) refl
        | inr (served, got) ↦ rw (handle_parsed, got) refl
      ]

  pub handle-config :
      (clock : Clock) (packet : Bytes) (p : Proxy db.Pool moka.Store)
      → (handle db moka h names number resolve clock packet p).1.config ≡ p.config
  unfolding handle
  handle-config clock packet p = elim (Result-cases (parse_udp packet)) [
    | inl (e, failed) ↦ rw (handle, failed) refl
    | inr (q, parsed) ↦ rw (handle, parsed) (handle_parsed-config clock q p)
  ]

  pub handle_parsed-ok :
      Answering resolve
      → (clock : Clock) (q : Query) (p : Proxy db.Pool moka.Store) → Configured p.config
      → (resp : Bytes) × ((handle_parsed db moka h names number resolve clock q p).0 ≡ ok resp)
  handle_parsed-ok answering clock q p configured =
      elim (Result-cases (handle_parsed db moka h names number resolve clock q p).0) [
        | inr (resp, e) ↦ (resp, e)
        | inl (u, e) ↦
            let (same, free, missed, (v, failed, is)) =
              handle_parsed-error db moka h names number resolve clock q p u e in
            let (res, resolved) = answering clock.call p.config q configured in
            absurd (cc (failed, resolved))
      ]
