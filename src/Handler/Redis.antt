-- ===== src/Handler/Redis.antt =====
-- backend/src/handler/query.rs and backend/src/repo/cache.rs as they are built with the optional
-- feature `redis`: a second cache behind the one in memory, which servers may share.
pub mod Outage
use denis.Base.{
  ℕ, ◌*◌, Bool, true, false, Option, none, some, ◌∷◌, Bytes, Result, ok, err, ◌==◌, if◌then◌else◌,
}
use denis.Config.{RuntimeConfig}
use denis.Handler.Parser.{Query}
use denis.Handler.Serve.{
  Moka, Clock, Proxy, Served, UpstreamError, cache_ttl, remember, serve_blocked, serve_cached,
  serve_upstream, event_of,
}
use denis.Handler.Upstream.{ResponseCode, UpstreamResponse}
use denis.Repo.Cache.{is_blocked}
use denis.Repo.Database.{Database}
use denis.Repo.Key.{Heapless, TypeNames, query_key}
use denis.Text.{Str}

-- The commands GET and SETEX at a time, over a connection. Without an answer from the server GET is
-- `none`; what SETEX returns is not read.
pub record Redis : Type 1 where
  pub Conn : Type 0
  pub get : ℕ → Str → Conn → Option (Option Bytes)
  pub setex : ℕ → Str → ℕ → Bytes → Conn → Conn

-- What a query may end with; the errors of the lists' statements cannot occur here.
pub data QueryError : Type 0 where
  redis_error : QueryError
  resolver_error : UpstreamError → QueryError

module _ (db : Database) (moka : Moka) (redis : Redis) (h : Heapless) (names : TypeNames) where
  unfoldable pub add_dns_query_redis : ℕ → Query → Bytes → ℕ → redis.Conn → redis.Conn
  add_dns_query_redis now query response ttl conn =
      if ttl == 0 then conn else redis.setex now (query_key h names query) ttl response conn

  -- `check_and_get`
  unfoldable pub check_both :
      ℕ → Query → Proxy db.Pool moka.Store → redis.Conn → Result QueryError (Bool × Option Bytes)
  check_both now query p conn =
      if is_blocked db p.lists query.name
      then ok (true, none)
      else elim (moka.get now (query_key h names query) p.l1) [
        | some entry ↦ ok (false, some entry.raw)
        | none ↦ elim (redis.get now (query_key h names query) conn) [
          | some res ↦ ok (false, res)
          | none ↦ err redis_error
        ]
      ]

  -- The answer of a resolver is stored in Redis where `cache_ttl` gives it a lifetime.
  unfoldable pub remember_redis :
      Clock → Query → Bytes → Proxy db.Pool moka.Store → redis.Conn → redis.Conn
  remember_redis clock query raw p conn = elim (cache_ttl p.config raw query.answer_offset) [
    | some ttl ↦ add_dns_query_redis clock.store query raw ttl conn
    | none ↦ conn
  ]

  module _ (number : ResponseCode → ℕ)
      (resolve : ℕ → RuntimeConfig → Query → Result UpstreamError UpstreamResponse) where
    -- The `match` of `handle_parsed`: what is served, and the two caches behind it.
    unfoldable pub served_both :
        Clock
        → Query
        → Proxy db.Pool moka.Store
        → redis.Conn
        → Result QueryError (Served × moka.Store × redis.Conn)
    served_both clock query p conn = elim (check_both clock.lookup query p conn) [
      | err e ↦ err e
      | ok (true, _) ↦ ok (serve_blocked db moka h names number resolve clock query p, p.l1, conn)
      | ok (false, some raw) ↦ ok (
        serve_cached db moka h names number resolve clock query raw,
        remember db moka h names clock query raw p,
        conn,
      )
      | ok (false, none) ↦ elim (resolve clock.call p.config query) [
        | ok res ↦ ok (
          serve_upstream db moka h names number resolve clock res,
          remember db moka h names clock query res.raw p,
          remember_redis clock query res.raw p conn,
        )
        | err e ↦ err (resolver_error e)
      ]
    ]

    -- `handle_parsed`
    unfoldable pub handle_both :
        Clock
        → Query
        → Proxy db.Pool moka.Store
        → redis.Conn
        → Result QueryError Bytes × Proxy db.Pool moka.Store × redis.Conn
    handle_both clock query p conn = elim (served_both clock query p conn) [
      | ok (served, l1', conn') ↦ (
        ok served.raw,
        record p {
          l1 = l1';
          sent = event_of db moka h names number resolve clock query served ∷ p.sent;
        },
        conn',
      )
      | err e ↦ (err e, p, conn)
    ]
