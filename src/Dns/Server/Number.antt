-- ===== src/Dns/Server/Number.antt =====
-- What the handler keeps and what its answers carry, for the loops of backend/src/dns/server.rs.
use denis.Base.{
  ℕ, zero, suc, ◌||◌, ltb, ◌==◌, [], ◌∷◌, ◌++◌, Bytes, Result, ok, length, take, drop,
  u16_from_be_bytes, Bool-cases, inl, inr, ◌≡◌, ap, ◌∙◌, arith, Result-cases,
}
use denis.Config.{RuntimeConfig}
use denis.Dns.Tcp.{conn_loop, tcp_max_msg, framed}
use denis.Handler.Parser.Bounds.{parse_udp-bounds}
use denis.Handler.Parser.{Query, parse_udp}
use denis.Handler.Serve.Answers.{Resolves, handle_parsed-Reported, handle_parsed-HoldsCacheable}
use denis.Handler.Serve.Cached.{HoldsCacheable}
use denis.Handler.Serve.{Moka, Expires, Clock, Proxy, UpstreamError, handle}
use denis.Handler.Upstream.{ResponseCode, UpstreamResponse}
use denis.Repo.Database.{Database}
use denis.Repo.Key.{Heapless, TypeNames}

module _ (db : Database) (moka : Moka) (laws : Expires moka) (h : Heapless) (names : TypeNames)
    (number : ResponseCode → ℕ)
    (resolve : ℕ → RuntimeConfig → Query → Result UpstreamError UpstreamResponse)
    (resolves : Resolves resolve) where
  -- An answer of the handler carries the number of the packet.
  pub handle-number :
      (clock : Clock) (packet : Bytes) (p : Proxy db.Pool moka.Store) (resp : Bytes)
      → HoldsCacheable moka p.l1
      → (handle db moka h names number resolve clock packet p).0 ≡ ok resp
      → take 2 resp ≡ take 2 packet
  unfolding handle
  handle-number clock packet p resp held e = elim (Result-cases (parse_udp packet)) [
    | inl (u, failed) ↦ absurd (cc (rw (handle, failed) at e))
    | inr (q, parsed) ↦
        let got = rw (handle, parsed) at e in
        let (same, far, near, last) = parse_udp-bounds packet q parsed in
        let (event, one, reported) =
          handle_parsed-Reported db moka h names number resolve clock q p resp
            (rw same (omega arith)) (omega arith) resolves held got in
        reported.same_id ∙ ap (take 2) same
  ]

  pub handle-HoldsCacheable :
      (clock : Clock) (packet : Bytes) (p : Proxy db.Pool moka.Store)
      → HoldsCacheable moka p.l1
      → HoldsCacheable moka (handle db moka h names number resolve clock packet p).1.l1
  unfolding handle
  handle-HoldsCacheable clock packet p held = elim (Result-cases (parse_udp packet)) [
    | inl (u, failed) ↦ rw (handle, failed) held
    | inr (q, parsed) ↦
        rw (handle, parsed)
          (handle_parsed-HoldsCacheable db moka laws h names number resolve clock q p held)
  ]

-- What the handler keeps, a connection keeps.
pub conn_loop-keeps :
    {S E : Type 0} (handle : Bytes → S → Result E Bytes × S) (P : S → Type 0)
    → ((m : Bytes) (s : S) → P s → P (handle m s).1)
    → (fuel : ℕ) (input out : Bytes) (s : S) → P s
    → P (conn_loop handle fuel input out s).2
unfolding conn_loop
conn_loop-keeps handle P keeps zero input out s good = good
conn_loop-keeps handle P keeps (suc fuel) [] out s good = good
conn_loop-keeps handle P keeps (suc fuel) (hi ∷ []) out s good = good
conn_loop-keeps handle P keeps (suc fuel) (hi ∷ lo ∷ input) out s good =
    let msg_len = u16_from_be_bytes hi lo in
    let after = handle (take msg_len input) s in
    let kept = keeps (take msg_len input) s good in
    elim (Bool-cases (msg_len == 0 || ltb tcp_max_msg msg_len)) [
      | inl b ↦ rw b good
      | inr b ↦ elim (Bool-cases (ltb (length input) msg_len)) [
        | inl c ↦ rw (b, c) good
        | inr c ↦ elim (Result-cases after.0) [
          | inl (u, e) ↦ rw (b, c, e) kept
          | inr (r, e) ↦
              rw (b, c, e)
                (conn_loop-keeps handle P keeps fuel (drop msg_len input) (out ++ framed r) after.1
                  kept)
        ]
      ]
    ]
