-- ===== src/Handler/Redis/Outage.antt =====
-- What the optional feature `redis` of backend/src/handler/query.rs adds, and what its failure
-- does.
use denis.Base.{
  ℕ, true, false, Option, none, some, Bytes, Result, ok, err, ◌≡◌, ◌⊎◌, refl, inl, inr, Bool-cases,
  Option-cases, Result-cases,
}
use denis.Config.{RuntimeConfig}
use denis.Dns.Mono.Agree.{reply_of}
use denis.Handler.Parser.{Query}
use denis.Handler.Redis.{Redis, QueryError, redis_error, check_both, served_both, handle_both}
use denis.Handler.Serve.{
  L1Entry, Moka, Clock, Proxy, UpstreamError, check_and_get, served_of, handle_parsed,
}
use denis.Handler.Upstream.{ResponseCode, UpstreamResponse}
use denis.Repo.Cache.{is_blocked}
use denis.Repo.Database.{Database}
use denis.Repo.Key.{Heapless, TypeNames, query_key}

-- The reply to a client, if there is one.
abbrev pub client_answer : Result QueryError Bytes → Option Bytes
client_answer (ok raw) = some raw
client_answer (err e) = none

module _ (db : Database) (moka : Moka) (redis : Redis) (h : Heapless) (names : TypeNames)
    (number : ResponseCode → ℕ)
    (resolve : ℕ → RuntimeConfig → Query → Result UpstreamError UpstreamResponse) where
  -- Where Redis answers that it has nothing under the key of the query: the client is answered, the
  -- cache in memory is changed and events are sent as without Redis.
  pub handle_both-handle_parsed :
      (clock : Clock) (q : Query) (p : Proxy db.Pool moka.Store) (conn : redis.Conn)
      → redis.get clock.lookup (query_key h names q) conn ≡ some none
      → (client_answer (handle_both db moka redis h names number resolve clock q p conn).0
          ≡ reply_of (handle_parsed db moka h names number resolve clock q p).0)
        × ((handle_both db moka redis h names number resolve clock q p conn).1
            ≡ (handle_parsed db moka h names number resolve clock q p).1)
  unfolding handle_both served_both check_both handle_parsed served_of check_and_get
  handle_both-handle_parsed clock q p conn e = elim (Bool-cases (is_blocked db p.lists q.name)) [
    | inl b ↦
        rw (handle_both, served_both, check_both, handle_parsed, served_of, check_and_get, b)
          (refl, refl)
    | inr b ↦ elim (Option-cases (moka.get clock.lookup (query_key h names q) p.l1)) [
      | inr (entry, found) ↦
          rw
            (
              handle_both, served_both, check_both, handle_parsed, served_of, check_and_get, b,
              found,
            )
            (refl, refl)
      | inl missed ↦ elim (Result-cases (resolve clock.call p.config q)) [
        | inl (u, failed) ↦
            rw
              (
                handle_both, served_both, check_both, handle_parsed, served_of, check_and_get, b,
                missed, e, failed,
              )
              (refl, refl)
        | inr (res, resolved) ↦
            rw
              (
                handle_both, served_both, check_both, handle_parsed, served_of, check_and_get, b,
                missed, e, resolved,
              )
              (refl, refl)
      ]
    ]
  ]

  -- Where Redis does not answer, one of two things holds of a query. It is neither blocked nor in
  -- the cache in memory: then it fails with the error of Redis, whatever the resolvers would say,
  -- and leaves no trace. Or it is blocked, or its answer is in that cache: then it is answered as
  -- without Redis, and the same event is sent, and nothing is written to Redis.
  pub handle_both-outage :
      (clock : Clock) (q : Query) (p : Proxy db.Pool moka.Store) (conn : redis.Conn)
      → redis.get clock.lookup (query_key h names q) conn ≡ none
      → ((is_blocked db p.lists q.name ≡ false)
          × (moka.get clock.lookup (query_key h names q) p.l1 ≡ none)
          × (handle_both db moka redis h names number resolve clock q p conn
              ≡ (err redis_error, p, conn)))
        ⊎ (((is_blocked db p.lists q.name ≡ true)
              ⊎ ((entry : L1Entry) × (moka.get clock.lookup (query_key h names q) p.l1
                    ≡ some entry)))
            × (client_answer (handle_both db moka redis h names number resolve clock q p conn).0
                ≡ reply_of (handle_parsed db moka h names number resolve clock q p).0)
            × ((handle_both db moka redis h names number resolve clock q p conn).1
                ≡ (handle_parsed db moka h names number resolve clock q p).1)
            × ((handle_both db moka redis h names number resolve clock q p conn).2 ≡ conn))
  unfolding handle_both served_both check_both handle_parsed served_of check_and_get
  handle_both-outage clock q p conn e = elim (Bool-cases (is_blocked db p.lists q.name)) [
    | inl b ↦ inr (
        rw (handle_both, served_both, check_both, handle_parsed, served_of, check_and_get, b)
          (inl refl, refl, refl, refl))
    | inr b ↦ elim (Option-cases (moka.get clock.lookup (query_key h names q) p.l1)) [
      | inr (entry, found) ↦ inr (
          rw
            (
              handle_both, served_both, check_both, handle_parsed, served_of, check_and_get, b,
              found,
            )
            (inr (entry, refl), refl, refl, refl))
      | inl missed ↦ inl (b, missed, rw (handle_both, served_both, check_both, b, missed, e) refl)
    ]
  ]
