-- ===== src/Handler/Serve/Answers.antt =====
-- What clients and the analytics get from handle_parsed of backend/src/handler/query.rs.
use denis.Base.{
  ℕ, ◌≤◌, Bool, false, none, some, [], ◌∷◌, Bytes, Result, ok, err, length, take, set, ◌≡◌, refl,
  sym, ap, le→leb, inl, inr, arith, Result-cases, Option-cases,
}
use denis.Config.{RuntimeConfig}
use denis.Handler.Parser.{Query}
use denis.Handler.Serve.Cached.{Cacheable, HoldsCacheable, remember-HoldsCacheable}
use denis.Handler.Serve.Ways.{
  Way, by_block, by_cache, by_upstream, handle_parsed-ok, handle_parsed-err, served_of-err,
}
use denis.Handler.Serve.{
  Moka, Expires, Clock, Proxy, Served, DnsQueryEvent, UpstreamError, upstream_error, HandlerError,
  l1_get, serve_blocked, serve_cached, serve_upstream, event_of, handle_parsed,
}
use denis.Handler.Upstream.Replies.{blocked-IsAnswer}
use denis.Handler.Upstream.{ResponseCode, UpstreamResponse, rcode_from_raw, cached, byte_at}
use denis.Repo.Cache.{is_blocked}
use denis.Repo.Database.{Database}
use denis.Repo.Key.{Heapless, TypeNames, query_key}

-- An answer with the number of the query, whose code is the one in its bytes.
abbrev pub Answers : Query → UpstreamResponse → Type 0
Answers q r = (take 2 r.raw ≡ take 2 q.raw) × (r.code ≡ rcode_from_raw r.raw)

-- What `exchange` lets through.
abbrev pub Resolves : (ℕ → RuntimeConfig → Query → Result UpstreamError UpstreamResponse) → Type 0
Resolves resolve =
    (n : ℕ) (c : RuntimeConfig) (q : Query) (r : UpstreamResponse)
    → 2 ≤ length q.raw
    → resolve n c q ≡ ok r
    → Answers q r

take-set :
    (raw w : Bytes)
    → 2 ≤ length raw
    → 2 ≤ length w
    → take 2 (set (set raw 0 (byte_at w 0)) 1 (byte_at w 1)) ≡ take 2 w
take-set (x ∷ y ∷ raw) (a ∷ b ∷ w) long asked = refl
take-set (x ∷ y ∷ raw) (a ∷ []) long asked = absurd (omega arith)
take-set (x ∷ y ∷ raw) [] long asked = absurd (omega arith)
take-set (x ∷ []) w long asked = absurd (omega arith)
take-set [] w long asked = absurd (omega arith)

pub cached-Answers :
    (q : Query) (raw : Bytes) → 2 ≤ length raw → 2 ≤ length q.raw → Answers q (cached q raw)
unfolding cached
cached-Answers q raw long asked =
    rw (cached, le→leb 2 (length raw) long, le→leb 2 (length q.raw) asked)
      (take-set raw q.raw long asked, refl)

module _ (db : Database) (moka : Moka) (h : Heapless) (names : TypeNames)
    (number : ResponseCode → ℕ)
    (resolve : ℕ → RuntimeConfig → Query → Result UpstreamError UpstreamResponse) where
  -- An answer and the event that reports it: they agree on the code, and the answer has the number
  -- of the query.
  pub record Reported (q : Query) (blocks : Bool) (raw : Bytes) (event : DnsQueryEvent)
      : Type 0 where
    pub same_id : take 2 raw ≡ take 2 q.raw
    pub domain_is : event.domain ≡ q.name
    pub type_is : event.query_type ≡ q.query_type
    pub blocked_is : event.blocked ≡ blocks
    pub code_is : event.response_code ≡ number (rcode_from_raw raw)

  pub l1_get-Cacheable :
      (now : ℕ) (q : Query) (l1 : moka.Store) (raw : Bytes)
      → HoldsCacheable moka l1
      → l1_get db moka h names now q l1 ≡ some raw
      → Cacheable raw
  unfolding l1_get
  l1_get-Cacheable now q l1 raw held found =
      elim (Option-cases (moka.get now (query_key h names q) l1)) [
        | inl none_e ↦ let got = rw (l1_get, none_e) at found in absurd (cc got)
        | inr (entry, some_e) ↦
            let got = rw (l1_get, some_e) at found in
            let same : entry.raw ≡ raw = cc got in
            rw (← same) (held now (query_key h names q) entry some_e)
      ]

  Way-Reported :
      (clock : Clock) (q : Query) (p : Proxy db.Pool moka.Store) (s : Served) (l : moka.Store)
      → 12 ≤ length q.raw
      → 12 ≤ q.answer_offset
      → Resolves resolve
      → HoldsCacheable moka p.l1
      → Way db moka h names number resolve clock q p s l
      → Reported q
          (is_blocked db p.lists q.name)
          s.raw
          (event_of db moka h names number resolve clock q s)
  unfolding event_of serve_blocked serve_cached serve_upstream l1_get
  Way-Reported clock q p s l long far resolves held (by_block b e same) =
      let good = blocked-IsAnswer q p.config.blocking_mode long far in
      rw (e, b)
        (record {
          same_id = good.same_id;
          domain_is = refl;
          type_is = refl;
          blocked_is = refl;
          code_is = ap number (sym good.code_is);
        })
  Way-Reported clock q p s l long far resolves held (by_cache b raw found e same) =
      let fit = l1_get-Cacheable clock.lookup q p.l1 raw held found in
      let (id, code) = cached-Answers q raw (omega (arith, fit.0)) (omega arith) in
      rw (e, b)
        (record {
          same_id = id;
          domain_is = refl;
          type_is = refl;
          blocked_is = refl;
          code_is = ap number code;
        })
  Way-Reported clock q p s l long far resolves held (by_upstream b missed res resolved e same) =
      let (id, code) = resolves clock.call p.config q res (omega arith) resolved in
      rw (e, b)
        (record {
          same_id = id;
          domain_is = refl;
          type_is = refl;
          blocked_is = refl;
          code_is = ap number code;
        })

  -- Where the cache holds only answers that may be cached and the resolvers' answers carry the
  -- query's number, every answer of `handle_parsed` carries the number of its query, whichever way
  -- it was found, and exactly one event is sent for it, with the query's name and type, the code in
  -- the answer's bytes, and whether the lists block the name. The packet has a header and the
  -- question ends behind it.
  pub handle_parsed-Reported :
      (clock : Clock) (q : Query) (p : Proxy db.Pool moka.Store) (raw : Bytes)
      → 12 ≤ length q.raw
      → 12 ≤ q.answer_offset
      → Resolves resolve
      → HoldsCacheable moka p.l1
      → (handle_parsed db moka h names number resolve clock q p).0 ≡ ok raw
      → (event : DnsQueryEvent) × ((handle_parsed db moka h names number resolve clock q p).1.sent
          ≡ event ∷ p.sent)
        × Reported q (is_blocked db p.lists q.name) raw event
  handle_parsed-Reported clock q p raw long far resolves held e =
      let (s, l, way, same, after) =
        handle_parsed-ok db moka h names number resolve clock q p raw e in
      (
        event_of db moka h names number resolve clock q s,
        ap (λ x. x.sent) after,
        rw same (Way-Reported clock q p s l long far resolves held way),
      )

  -- A query that `handle_parsed` does not answer leaves no trace: no event is sent, the cache is
  -- untouched; and its name was not blocked, the cache had no answer and the resolvers failed.
  pub handle_parsed-error :
      (clock : Clock) (q : Query) (p : Proxy db.Pool moka.Store) (u : HandlerError)
      → (handle_parsed db moka h names number resolve clock q p).0 ≡ err u
      → ((handle_parsed db moka h names number resolve clock q p).1 ≡ p)
        × (is_blocked db p.lists q.name ≡ false)
        × (l1_get db moka h names clock.lookup q p.l1 ≡ none)
        × ((v : UpstreamError) × (resolve clock.call p.config q ≡ err v) × (u ≡ upstream_error v))
  handle_parsed-error clock q p u e =
      let (failed, same) = handle_parsed-err db moka h names number resolve clock q p u e in
      let (free, missed, failure) =
        served_of-err db moka h names number resolve clock q p u failed in
      (same, free, missed, failure)

module _ (db : Database) (moka : Moka) (laws : Expires moka) (h : Heapless) (names : TypeNames)
    (number : ResponseCode → ℕ)
    (resolve : ℕ → RuntimeConfig → Query → Result UpstreamError UpstreamResponse) where
  -- Where moka returns only what was stored, and whatever the resolvers answer, the cache still
  -- holds only answers that report success or a missing name if it did before.
  pub handle_parsed-HoldsCacheable :
      (clock : Clock) (q : Query) (p : Proxy db.Pool moka.Store)
      → HoldsCacheable moka p.l1
      → HoldsCacheable moka (handle_parsed db moka h names number resolve clock q p).1.l1
  handle_parsed-HoldsCacheable clock q p held =
      elim (Result-cases (handle_parsed db moka h names number resolve clock q p).0) [
        | inl (u, e) ↦ rw (handle_parsed-err db moka h names number resolve clock q p u e).1 held
        | inr (raw, e) ↦
            let (s, l, way, same, after) =
              handle_parsed-ok db moka h names number resolve clock q p raw e in
            rw after (kept s l way)
      ]
    where
      kept :
          (s : Served) (l : moka.Store)
          → Way db moka h names number resolve clock q p s l
          → HoldsCacheable moka l
      kept s l (by_block b e same) = rw same held
      kept s l (by_cache b raw found e same) =
          rw same (remember-HoldsCacheable db moka laws h names clock q raw p held)
      kept s l (by_upstream b missed res resolved e same) =
          rw same (remember-HoldsCacheable db moka laws h names clock q res.raw p held)
