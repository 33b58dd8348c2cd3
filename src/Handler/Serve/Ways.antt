-- ===== src/Handler/Serve/Ways.antt =====
-- The ways in which handle_parsed of backend/src/handler/query.rs serves a query.
use denis.Base.{
  ℕ, true, false, none, some, ◌∷◌, Bytes, Result, ok, err, ◌≡◌, refl, inl, inr, Bool-cases,
  Option-cases, Result-cases,
}
use denis.Config.{RuntimeConfig}
use denis.Handler.Parser.{Query}
use denis.Handler.Serve.{
  Moka, Clock, Proxy, Served, UpstreamError, HandlerError, upstream_error, check_and_get, l1_get,
  remember, serve_blocked, serve_cached, serve_upstream, served_of, event_of, handle_parsed,
}
use denis.Handler.Upstream.{ResponseCode, UpstreamResponse}
use denis.Repo.Cache.{is_blocked}
use denis.Repo.Database.{Database}
use denis.Repo.Key.{Heapless, TypeNames, query_key}

ok_pair {ℓ κ μ} :
    {E : Type μ} {A : Type ℓ} {B : Type κ} {a c : A} {b d : B}
    → ◌≡◌ {A = Result E (A × B)} (ok (a, b)) (ok (c, d))
    → (c ≡ a) × (d ≡ b)
ok_pair e = (cc, cc)

module _ (db : Database) (moka : Moka) (h : Heapless) (names : TypeNames)
    (number : ResponseCode → ℕ)
    (resolve : ℕ → RuntimeConfig → Query → Result UpstreamError UpstreamResponse) where
  -- A query was served in one of three ways.
  pub data Way (clock : Clock) (q : Query) (p : Proxy db.Pool moka.Store) (s : Served)
      (l : moka.Store) : Type 0 where
    by_block :
        is_blocked db p.lists q.name ≡ true
        → s ≡ serve_blocked db moka h names number resolve clock q p
        → l ≡ p.l1
        → Way clock q p s l
    by_cache :
        is_blocked db p.lists q.name ≡ false
        → (raw : Bytes) → l1_get db moka h names clock.lookup q p.l1 ≡ some raw
        → s ≡ serve_cached db moka h names number resolve clock q raw
        → l ≡ remember db moka h names clock q raw p
        → Way clock q p s l
    by_upstream :
        is_blocked db p.lists q.name ≡ false
        → l1_get db moka h names clock.lookup q p.l1 ≡ none
        → (res : UpstreamResponse) → resolve clock.call p.config q ≡ ok res
        → s ≡ serve_upstream db moka h names number resolve clock res
        → l ≡ remember db moka h names clock q res.raw p
        → Way clock q p s l

  pub check-blocked :
      (now : ℕ) (q : Query) (p : Proxy db.Pool moka.Store)
      → is_blocked db p.lists q.name ≡ true
      → check_and_get db moka h names now q p ≡ ok (true, none)
  unfolding check_and_get
  check-blocked now q p e = rw e refl

  pub check-found :
      (now : ℕ) (q : Query) (p : Proxy db.Pool moka.Store)
      → is_blocked db p.lists q.name ≡ false
      → check_and_get db moka h names now q p ≡ ok (false, l1_get db moka h names now q p.l1)
  unfolding check_and_get l1_get
  check-found now q p e = elim (Option-cases (moka.get now (query_key h names q) p.l1)) [
    | inl none_e ↦ rw (e, none_e, l1_get) refl
    | inr (entry, some_e) ↦ rw (e, some_e, l1_get) refl
  ]

  pub served_of-Way :
      (clock : Clock) (q : Query) (p : Proxy db.Pool moka.Store) (s : Served) (l : moka.Store)
      → served_of db moka h names number resolve clock q p ≡ ok (s, l)
      → Way clock q p s l
  unfolding served_of
  served_of-Way clock q p s l e = elim (Bool-cases (is_blocked db p.lists q.name)) [
    | inl b ↦
        let got = rw (served_of, check-blocked clock.lookup q p b) at e in
        let (x, y) = ok_pair got in by_block b x y
    | inr b ↦ elim (Option-cases (l1_get db moka h names clock.lookup q p.l1)) [
      | inr (raw, found) ↦
          let got = rw (served_of, check-found clock.lookup q p b, found) at e in
          let (x, y) = ok_pair got in by_cache b raw found x y
      | inl missed ↦ elim (Result-cases (resolve clock.call p.config q)) [
        | inl (u, failed) ↦
            let got = rw (served_of, check-found clock.lookup q p b, missed, failed) at e in
            absurd (cc got)
        | inr (res, resolved) ↦
            let got = rw (served_of, check-found clock.lookup q p b, missed, resolved) at e in
            let (x, y) = ok_pair got in by_upstream b missed res resolved x y
      ]
    ]
  ]

  -- What a successful call served, and the state that it left.
  pub handle_parsed-ok :
      (clock : Clock) (q : Query) (p : Proxy db.Pool moka.Store) (raw : Bytes)
      → (handle_parsed db moka h names number resolve clock q p).0 ≡ ok raw
      → (s : Served) × (l : moka.Store) × Way clock q p s l
        × (raw ≡ s.raw)
        × ((handle_parsed db moka h names number resolve clock q p).1 ≡ record p {
          l1 = l;
          sent = event_of db moka h names number resolve clock q s ∷ p.sent;
        })
  unfolding handle_parsed
  handle_parsed-ok clock q p raw e =
      elim (Result-cases (served_of db moka h names number resolve clock q p)) [
        | inl (u, failed) ↦ let got = rw (handle_parsed, failed) at e in absurd (cc got)
        | inr ((s, l), served) ↦
            let got = rw (handle_parsed, served) at e in
            (s, l, served_of-Way clock q p s l served, cc, rw (handle_parsed, served) refl)
      ]

  pub handle_parsed-err :
      (clock : Clock) (q : Query) (p : Proxy db.Pool moka.Store) (u : HandlerError)
      → (handle_parsed db moka h names number resolve clock q p).0 ≡ err u
      → (served_of db moka h names number resolve clock q p ≡ err u)
        × ((handle_parsed db moka h names number resolve clock q p).1 ≡ p)
  unfolding handle_parsed
  handle_parsed-err clock q p u e =
      elim (Result-cases (served_of db moka h names number resolve clock q p)) [
        | inl (v, failed) ↦
            let got = rw (handle_parsed, failed) at e in
            let same : v ≡ u = cc got in (rw same at failed, rw (handle_parsed, failed) refl)
        | inr (_, served) ↦ let got = rw (handle_parsed, served) at e in absurd (cc got)
      ]

  -- A query is left without an answer only by the resolvers.
  pub served_of-err :
      (clock : Clock) (q : Query) (p : Proxy db.Pool moka.Store) (u : HandlerError)
      → served_of db moka h names number resolve clock q p ≡ err u
      → (is_blocked db p.lists q.name ≡ false)
        × (l1_get db moka h names clock.lookup q p.l1 ≡ none)
        × ((v : UpstreamError) × (resolve clock.call p.config q ≡ err v) × (u ≡ upstream_error v))
  unfolding served_of
  served_of-err clock q p u e = elim (Bool-cases (is_blocked db p.lists q.name)) [
    | inl b ↦ let got = rw (served_of, check-blocked clock.lookup q p b) at e in absurd (cc got)
    | inr b ↦ elim (Option-cases (l1_get db moka h names clock.lookup q p.l1)) [
      | inr (raw, found) ↦
          let got = rw (served_of, check-found clock.lookup q p b, found) at e in absurd (cc got)
      | inl missed ↦ elim (Result-cases (resolve clock.call p.config q)) [
        | inl (v, failed) ↦
            let got = rw (served_of, check-found clock.lookup q p b, missed, failed) at e in
            (b, missed, (v, failed, cc got))
        | inr (res, resolved) ↦
            let got = rw (served_of, check-found clock.lookup q p b, missed, resolved) at e in
            absurd (cc got)
      ]
    ]
  ]
