-- ===== src/Handler/Pool/Exchange.antt =====
-- Which datagram `exchange` of backend/src/handler/upstream.rs takes for the answer.
use denis.Base.{
  ◌≤◌, true, false, List, [], ◌∷◌, ◌++◌, Bytes, ok, err, length, take, inl, inr, ◌≡◌, refl, ap,
  arith, Bool-cases, Option-cases, Result-cases, All,
}
use denis.Config.{SocketAddr}
use denis.Handler.Parser.{Query}
use denis.Handler.Pool.{
  Arrival, datagram, failure, Network, accepts, receive_loop, exchange, recv_buf,
}
use denis.Handler.Serve.Answers.{Answers}
use denis.Handler.Serve.{upstream, timeout}
use denis.Text.{Str}
use denis.Handler.Upstream.{UpstreamResponse, byte_at, rcode_from_raw}

-- An arrival that the loop passes over.
abbrev pub PassedOver : SocketAddr → Query → Arrival → Type 0
PassedOver server q (failure e) = ⊥
PassedOver server q (datagram src bytes) = accepts server q src (take recv_buf bytes) ≡ false

-- The first acceptable arrival, with those before it.
pub record Accepted (server : SocketAddr) (q : Query) (arrivals : List Arrival) (got : Bytes)
    : Type 0 where
  pub before : List Arrival
  pub bytes : Bytes
  pub after : List Arrival
  pub in_order : arrivals ≡ before ++ datagram server bytes ∷ after
  pub passed : All (PassedOver server q) before
  pub cut : got ≡ take recv_buf bytes
  pub accepted : accepts server q server got ≡ true

same_source :
    (server src : SocketAddr) (q : Query) (got : Bytes)
    → accepts server q src got ≡ true
    → src ≡ server
same_source server src q got h = ground arith

step :
    (server src : SocketAddr) (q : Query) (bytes : Bytes) (more : List Arrival)
    → accepts server q src (take recv_buf bytes) ≡ true
    → receive_loop server q (datagram src bytes ∷ more) ≡ ok (take recv_buf bytes)
unfolding receive_loop
step server src q bytes more h = rw (receive_loop, h) refl

skip :
    (server src : SocketAddr) (q : Query) (bytes : Bytes) (more : List Arrival)
    → accepts server q src (take recv_buf bytes) ≡ false
    → receive_loop server q (datagram src bytes ∷ more) ≡ receive_loop server q more
unfolding receive_loop
skip server src q bytes more h = rw (receive_loop, h) refl

fails :
    (server : SocketAddr) (q : Query) (f : Str) (more : List Arrival)
    → receive_loop server q (failure f ∷ more) ≡ err (upstream f)
unfolding receive_loop
fails server q f more = refl

late : (server : SocketAddr) (q : Query) → receive_loop server q [] ≡ err timeout
unfolding receive_loop
late server q = refl

pub receive_loop-Accepted :
    (server : SocketAddr) (q : Query) (arrivals : List Arrival) (got : Bytes)
    → receive_loop server q arrivals ≡ ok got
    → Accepted server q arrivals got
receive_loop-Accepted server q [] got e = absurd (cc (e, late server q))
receive_loop-Accepted server q (failure f ∷ more) got e = absurd (cc (e, fails server q f more))
receive_loop-Accepted server q (datagram src bytes ∷ more) got e =
    let rest = receive_loop-Accepted server q more got in
    elim (Bool-cases (accepts server q src (take recv_buf bytes))) [
      | inl hit ↦
          let this : got ≡ take recv_buf bytes = cc (e, step server src q bytes more hit) in
          let from = same_source server src q (take recv_buf bytes) hit in
          record {
            before = [];
            bytes = bytes;
            after = more;
            in_order = ap (λ s. datagram s bytes ∷ more) from;
            passed = tt;
            cut = this;
            accepted = rw this (rw from at hit);
          }
      | inr miss ↦
          let found = rest (rw (skip server src q bytes more miss) at e) in
          record {
            before = datagram src bytes ∷ found.before;
            bytes = found.bytes;
            after = found.after;
            in_order = ap (◌∷◌ (datagram src bytes)) found.in_order;
            passed = (miss, found.passed);
            cut = found.cut;
            accepted = found.accepted;
          }
    ]

exchange_receives :
    (net : Network) (server : SocketAddr) (q : Query) (r : UpstreamResponse)
    → exchange net server q ≡ ok r
    → (receive_loop server q net.arrivals ≡ ok r.raw) × (r.code ≡ rcode_from_raw r.raw)
unfolding exchange
exchange_receives net server q r e = elim (Option-cases net.send_fails) [
  | inr (f, sent) ↦ let got = rw (exchange, sent) at e in absurd (cc got)
  | inl sent ↦ elim (Result-cases (receive_loop server q net.arrivals)) [
    | inl (f, none_got) ↦ let got = rw (exchange, sent, none_got) at e in absurd (cc got)
    | inr (bytes, some_got) ↦
        let got = rw (exchange, sent, some_got) at e in
        let same : r ≡ record { code = rcode_from_raw bytes; raw = bytes } = cc got in
        rw same (some_got, refl)
  ]
]

same_two :
    (got w : Bytes)
    → 2 ≤ length got
    → 2 ≤ length w
    → byte_at got 0 ≡ byte_at w 0
    → byte_at got 1 ≡ byte_at w 1
    → take 2 got ≡ take 2 w
same_two (x ∷ y ∷ got) (a ∷ b ∷ w) long asked e f = rw (e, f) refl
same_two (x ∷ y ∷ got) (a ∷ []) long asked e f = absurd (omega arith)
same_two (x ∷ y ∷ got) [] long asked e f = absurd (omega arith)
same_two (x ∷ []) w long asked e f = absurd (omega arith)
same_two [] w long asked e f = absurd (omega arith)

accepts-take :
    (server : SocketAddr) (q : Query) (got : Bytes)
    → 2 ≤ length q.raw
    → accepts server q server got ≡ true
    → take 2 got ≡ take 2 q.raw
accepts-take server q got asked h =
    same_two got q.raw (ground arith) asked (ground arith) (ground arith)

-- A successful exchange returns the first datagram that comes from the server asked and starts with
-- the number of the query, cut to the size of the buffer; every datagram before it came from
-- elsewhere or had another number, and no error came before it. The answer carries the number of
-- the query, of a packet of two bytes at least, and the code in its bytes.
pub exchange-Accepted :
    (net : Network) (server : SocketAddr) (q : Query) (r : UpstreamResponse)
    → 2 ≤ length q.raw
    → exchange net server q ≡ ok r
    → Accepted server q net.arrivals r.raw × Answers q r
exchange-Accepted net server q r asked e =
    let (came, code) = exchange_receives net server q r e in
    let found = receive_loop-Accepted server q net.arrivals r.raw came in
    (found, (accepts-take server q r.raw asked found.accepted, code))
