-- ===== src/Handler/Pool.antt =====
-- backend/src/handler/upstream.rs: the resolvers asked in turn over a pool of sockets.
pub mod Exchange
pub mod Resolve
pub mod Sockets
use denis.Base.{
  ℕ, zero, suc, ◌+◌, ◌%◌, max, Bool, true, false, ◌&&◌, Option, none, some, List, [], ◌∷◌, ◌++◌,
  Bytes, Result, ok, err, leb, ltb, ◌==◌, if◌then◌else◌, length, take, get_elem?,
}
use denis.Config.{RuntimeConfig, SocketAddr}
use denis.Handler.Parser.{Query}
use denis.Handler.Serve.{UpstreamError, upstream, timeout}
use denis.Handler.Upstream.{UpstreamResponse, rcode_from_raw, byte_at}
use denis.Repo.Decide.{is_empty}
use denis.Text.{Str, codes}

abbrev pub pool_size : ℕ
pool_size = 256

abbrev pub recv_buf : ℕ
recv_buf = 4096

-- A socket is told from the others by its number alone.
abbrev pub Socket : Type 0
Socket = ℕ

-- What a socket yields before the time is over: a datagram and its sender, or an error of the
-- operating system.
pub data Arrival : Type 0 where
  datagram : SocketAddr → Bytes → Arrival
  failure : Str → Arrival

-- The network during one exchange: whether the query could be sent, and what then arrives in time.
pub record Network : Type 0 where
  pub send_fails : Option Str
  pub arrivals : List Arrival

-- The test of the receiving loop, on the bytes that are in the buffer.
abbrev pub accepts : SocketAddr → Query → SocketAddr → Bytes → Bool
accepts server query src bytes =
    src == server
    && leb 2 (length bytes)
    && byte_at bytes 0 == byte_at query.raw 0
    && byte_at bytes 1 == byte_at query.raw 1

-- The loop of `exchange`. A datagram longer than the buffer is cut off. When no arrival is left the
-- time is over.
unfoldable pub receive_loop : SocketAddr → Query → List Arrival → Result UpstreamError Bytes
receive_loop server query [] = err timeout
receive_loop server query (failure e ∷ rest) = err (upstream e)
receive_loop server query (datagram src bytes ∷ more) =
    let rest = receive_loop server query more in
    let got = take recv_buf bytes in if accepts server query src got then ok got else rest

abbrev received : Result UpstreamError Bytes → Result UpstreamError UpstreamResponse
received (ok bytes) = ok (record { code = rcode_from_raw bytes; raw = bytes })
received (err e) = err e

unfoldable pub exchange : Network → SocketAddr → Query → Result UpstreamError UpstreamResponse
exchange net server query = elim net.send_fails [
  | some e ↦ err (upstream e)
  | none ↦ received (receive_loop server query net.arrivals)
]

-- The pool of sockets, a bounded queue: `push` refuses a socket when the queue is full.
unfoldable pub push : Socket → List Socket → List Socket
push socket queue = if ltb (length queue) pool_size then queue ++ socket ∷ [] else queue

-- The network during one attempt, and what binding a fresh socket yields if the pool is empty.
pub record Attempt : Type 0 where
  pub net : Network
  pub bind : Result Str Socket

abbrev put_back : Bool → Socket → List Socket → List Socket
put_back true socket queue = push socket queue
put_back false socket queue = queue

abbrev is_ok {ℓ κ} : {E : Type ℓ} {A : Type κ} → Result E A → Bool
is_ok (ok _) = true
is_ok (err _) = false

-- `query_dns` with a socket.
abbrev use_socket :
    Attempt
    → SocketAddr
    → Query
    → Socket
    → List Socket
    → Result UpstreamError UpstreamResponse × List Socket
use_socket a server query socket queue =
    let result = exchange a.net server query in (result, put_back (is_ok result) socket queue)

unfoldable pub query_dns :
    Attempt → SocketAddr → Query → List Socket → Result UpstreamError UpstreamResponse × List Socket
query_dns a server query (socket ∷ queue) = use_socket a server query socket queue
query_dns a server query [] = elim a.bind [
  | ok socket ↦ use_socket a server query socket []
  | err e ↦ (err (upstream e), [])
]

abbrev pub no_upstreams : UpstreamError
no_upstreams = upstream (codes "no upstreams configured")

abbrev pub all_failed : UpstreamError
all_failed = upstream (codes "all upstreams failed")

abbrev pub unwrap_or : Option UpstreamError → UpstreamError → UpstreamError
unwrap_or (some e) d = e
unwrap_or none d = d

-- The loop of `resolve`, with the attempts left, the number of the next one, and the variable
-- `err`. An index out of range would be a panic.
unfoldable pub attempts :
    (ℕ → Attempt)
    → List SocketAddr
    → Query
    → ℕ
    → ℕ
    → Option UpstreamError
    → List Socket
    → Result UpstreamError UpstreamResponse × List Socket
attempts world servers query zero attempt last queue = (err (unwrap_or last all_failed), queue)
attempts world servers query (suc left) attempt last queue =
    elim (get_elem? servers (attempt % length servers)) [
      | none ↦ (err all_failed, queue)
      | some server ↦
          let (res, queue') = query_dns (world attempt) server query queue in
          elim res [
            | ok response ↦ (ok response, queue')
            | err e ↦ attempts world servers query left (suc attempt) (some e) queue'
          ]
    ]

unfoldable pub resolve :
    (ℕ → Attempt)
    → RuntimeConfig
    → Query
    → List Socket
    → Result UpstreamError UpstreamResponse × List Socket
resolve world config query queue =
    if is_empty config.upstreams
    then (err no_upstreams, queue)
    else attempts world config.upstreams query (max (length config.upstreams) 1) 0 none queue
