-- ===== src/Tests/Connecting.antt =====
-- An example of the theorem on connections over TCP.
use denis.Base.{ℕ, suc, [], ◌∷◌, Bytes, Result, ok, ◌≡◌, refl, arith}
use denis.Dns.Tcp.Frames.{sent, none_left, one_more, handle_tcp_conn-Answered}
use denis.Dns.Tcp.{left, handle_tcp_conn}

-- A handler that sends each message back with a byte before it, and counts.
abbrev echo : Bytes → ℕ → Result ℕ Bytes × ℕ
echo m n = (ok (7 ∷ m), suc n)

handle_tcp_conn-Answered_example :
    handle_tcp_conn echo (sent ((1 ∷ 2 ∷ []) ∷ (3 ∷ []) ∷ [])) 0
    ≡ (left, sent ((7 ∷ 1 ∷ 2 ∷ []) ∷ (7 ∷ 3 ∷ []) ∷ []), 2)
handle_tcp_conn-Answered_example =
    handle_tcp_conn-Answered echo 0 2 ((1 ∷ 2 ∷ []) ∷ (3 ∷ []) ∷ [])
      ((7 ∷ 1 ∷ 2 ∷ []) ∷ (7 ∷ 3 ∷ []) ∷ [])
      ((omega arith, omega arith), ((omega arith, omega arith), tt))
      (one_more 0 1 2 (1 ∷ 2 ∷ []) (7 ∷ 1 ∷ 2 ∷ []) ((3 ∷ []) ∷ []) ((7 ∷ 3 ∷ []) ∷ []) refl
        (one_more 1 2 2 (3 ∷ []) (7 ∷ 3 ∷ []) [] [] refl (none_left 2)))
