-- ===== src/Handler/Pool/Sockets.antt =====
-- The pool of sockets of backend/src/handler/upstream.rs: how many it holds over time.
use denis.Base.{
  ℕ, zero, suc, ◌+◌, ◌≤◌, max, Bool, true, false, Option, none, some, List, [], ◌∷◌, Result, ok,
  err, length, length-append, get_elem?, ◌%◌, arith, inl, inr, Bool-cases, Option-cases,
  Result-cases,
}
use denis.Config.{RuntimeConfig, SocketAddr}
use denis.Handler.Parser.{Query}
use denis.Handler.Pool.{
  Socket, Attempt, push, pool_size, put_back, is_ok, query_dns, attempts, resolve, exchange,
}
use denis.Handler.Serve.{UpstreamError}
use denis.Repo.Decide.{is_empty}
use denis.Text.{Str}

-- The loop of `UpstreamPool::new`: the sockets that can be bound, `binds i` for the one numbered i.
unfoldable pub bind_all : (ℕ → Result Str Socket) → ℕ → ℕ → List Socket → List Socket
bind_all binds zero i queue = queue
bind_all binds (suc left) i queue = elim (binds i) [
  | ok socket ↦ bind_all binds left (suc i) (push socket queue)
  | err e ↦ bind_all binds left (suc i) queue
]

-- `UpstreamPool::new`
unfoldable pub new_sockets : (ℕ → Result Str Socket) → List Socket
new_sockets binds = bind_all binds pool_size 0 []

-- Queries that are resolved one after another, each over its network and configuration.
unfoldable pub resolve_all :
    List ((ℕ → Attempt) × RuntimeConfig × Query) → List Socket → List Socket
resolve_all [] queue = queue
resolve_all ((world, config, query) ∷ more) queue =
    resolve_all more (resolve world config query queue).1

length-push :
    (socket : Socket) (queue : List Socket) → length (push socket queue) ≤ length queue + 1
unfolding push
length-push socket queue = ground (arith, length-append queue (socket ∷ []))

push-bound :
    (socket : Socket) (queue : List Socket)
    → length queue ≤ pool_size
    → length (push socket queue) ≤ pool_size
unfolding push
push-bound socket queue h = ground (arith, length-append queue (socket ∷ []))

bind_all-bound :
    (binds : ℕ → Result Str Socket) (left i : ℕ) (queue : List Socket)
    → length queue ≤ pool_size
    → length (bind_all binds left i queue) ≤ pool_size
unfolding bind_all
bind_all-bound binds zero i queue h = h
bind_all-bound binds (suc left) i queue h = elim (Result-cases (binds i)) [
  | inl (e, failed) ↦ rw (bind_all, failed) (bind_all-bound binds left (suc i) queue h)
  | inr (socket, bound) ↦
      rw (bind_all, bound)
        (bind_all-bound binds left (suc i) (push socket queue) (push-bound socket queue h))
]

length-put_back :
    (b : Bool) (socket : Socket) (queue : List Socket)
    → length (put_back b socket queue) ≤ length queue + 1
length-put_back true socket queue = length-push socket queue
length-put_back false socket queue = omega arith

length-query_dns :
    (a : Attempt) (server : SocketAddr) (query : Query) (queue : List Socket)
    → length (query_dns a server query queue).1 ≤ max (length queue) 1
unfolding query_dns
length-query_dns a server query (socket ∷ queue) =
    omega (arith, length-put_back (is_ok (exchange a.net server query)) socket queue)
length-query_dns a server query [] = elim (Result-cases a.bind) [
  | inl (e, failed) ↦ rw (query_dns, failed) (omega arith)
  | inr (socket, bound) ↦
      rw (query_dns, bound)
        (omega (arith, length-put_back (is_ok (exchange a.net server query)) socket []))
]

length-attempts :
    (world : ℕ → Attempt) (servers : List SocketAddr) (query : Query) (left attempt : ℕ)
    (last : Option UpstreamError) (queue : List Socket)
    → length (attempts world servers query left attempt last queue).1 ≤ max (length queue) 1
unfolding attempts
length-attempts world servers query zero attempt last queue = omega arith
length-attempts world servers query (suc left) attempt last queue =
    elim (Option-cases (get_elem? servers (attempt % length servers))) [
      | inl e ↦ rw (attempts, e) (omega arith)
      | inr (server, e) ↦
          let r = query_dns (world attempt) server query queue in
          let short = length-query_dns (world attempt) server query queue in
          elim (Result-cases r.0) [
            | inl (u, failed) ↦
                rw (attempts, e, failed)
                  (omega (
                    arith,
                    short,
                    length-attempts world servers query left (suc attempt) (some u) r.1,
                  ))
            | inr (res, resolved) ↦ rw (attempts, e, resolved) short
          ]
    ]

length-resolve :
    (world : ℕ → Attempt) (config : RuntimeConfig) (query : Query) (queue : List Socket)
    → length (resolve world config query queue).1 ≤ max (length queue) 1
unfolding resolve
length-resolve world config query queue = elim (Bool-cases (is_empty config.upstreams)) [
  | inl e ↦ rw (resolve, e) (omega arith)
  | inr e ↦
      rw (resolve, e)
        (length-attempts world config.upstreams query (max (length config.upstreams) 1) 0 none
          queue)
]

length-resolve_all :
    (queries : List ((ℕ → Attempt) × RuntimeConfig × Query)) (queue : List Socket)
    → length (resolve_all queries queue) ≤ max (length queue) 1
unfolding resolve_all
length-resolve_all [] queue = omega arith
length-resolve_all ((world, config, query) ∷ more) queue = omega (
  arith,
  length-resolve_all more (resolve world config query queue).1,
  length-resolve world config query queue,
)

-- Whatever the operating system binds and the network does, the pool has 256 sockets at most when
-- it is made, and after any queries, one after another, no more than it had then, or a single one:
-- it never grows again beyond that.
pub resolve_all-length :
    (binds : ℕ → Result Str Socket) (queries : List ((ℕ → Attempt) × RuntimeConfig × Query))
    → (length (new_sockets binds) ≤ pool_size)
      × (length (resolve_all queries (new_sockets binds)) ≤ max (length (new_sockets binds)) 1)
unfolding new_sockets
resolve_all-length binds queries = (
  bind_all-bound binds pool_size 0 [] (omega arith),
  length-resolve_all queries (new_sockets binds),
)
