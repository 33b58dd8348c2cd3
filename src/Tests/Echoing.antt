-- ===== src/Tests/Echoing.antt =====
-- A network on which the first resolver sends every query back as its own answer.
use denis.Base.{
  ℕ, true, false, none, List, [], ◌∷◌, ◌++◌, Bytes, Result, ok, take, leb, le→leb, length, ◌==◌,
  ==_iff, ◌≡◌, refl, arith,
}
use denis.Config.{RuntimeConfig, SocketAddr}
use denis.Handler.Parser.{Query}
use denis.Handler.Pool.Resolve.{resolve-first}
use denis.Handler.Pool.{
  Attempt, datagram, recv_buf, accepts, exchange, receive_loop, query_dns, resolve,
}
use denis.Handler.Serve.Always.{Answering}
use denis.Handler.Serve.{UpstreamError}
use denis.Handler.Upstream.{UpstreamResponse, rcode_from_raw}
use denis.Repo.Decide.{is_empty}

abbrev sent_back : Bytes → Bytes
sent_back raw = take recv_buf (raw ++ 0 ∷ 0 ∷ [])

abbrev first_of : List SocketAddr → SocketAddr
first_of [] = 0
first_of (server ∷ servers) = server

abbrev echoing : List SocketAddr → Query → ℕ → Attempt
echoing servers q n = record {
  net = record {
    send_fails = none;
    arrivals = datagram (first_of servers) (q.raw ++ 0 ∷ 0 ∷ []) ∷ [];
  };
  bind = ok 1;
}

-- `resolve` on this network, with an empty pool.
abbrev pub echo : ℕ → RuntimeConfig → Query → Result UpstreamError UpstreamResponse
echo n c q = (resolve (echoing c.upstreams q) c q []).0

same : (a : ℕ) → (a == a) ≡ true
same a = (==_iff a a).1 refl

accepted :
    (server : SocketAddr) (name : List ℕ) (t offset : ℕ) (raw : Bytes)
    → accepts server
        (record { name = name; query_type = t; raw = raw; answer_offset = offset })
        server
        (sent_back raw)
      ≡ true
accepted server name t offset [] = rw (same server) refl
accepted server name t offset (a ∷ []) = rw (same server, same a) refl
accepted server name t offset (a ∷ b ∷ rest) =
    let long : leb 2 (length (sent_back (a ∷ b ∷ rest))) ≡ true = le→leb 2 _ (omega arith) in
    rw (same server, same a, same b, long) refl

asked_first :
    (server : SocketAddr) (servers : List SocketAddr) (q : Query)
    → (query_dns (echoing (server ∷ servers) q 0) server q []).0
      ≡ ok (record { code = rcode_from_raw (sent_back q.raw); raw = sent_back q.raw })
unfolding query_dns exchange receive_loop
asked_first server servers q =
    rw
      (query_dns, exchange, receive_loop, accepted server q.name q.query_type q.answer_offset q.raw)
      refl

pub echo-Answering : Answering echo
echo-Answering n c q configured = first c.upstreams refl configured
  where
    first :
        (servers : List SocketAddr)
        → c.upstreams ≡ servers
        → is_empty servers ≡ false
        → (res : UpstreamResponse) × (echo n c q ≡ ok res)
    first [] e named = absurd (cc named)
    first (server ∷ servers) e named = (
      record { code = rcode_from_raw (sent_back q.raw); raw = sent_back q.raw },
      resolve-first (echoing c.upstreams q) q c server servers [] _ e
          (rw e (asked_first server servers q)),
    )
