-- ===== src/Dns/Tcp/Frames.antt =====
-- A connection of backend/src/dns/server.rs answers message by message, in their order.
use mathlib.Core.List.{append_assoc, append-nil}
use denis.Base.{
  ℕ, zero, suc, ◌/◌, ◌%◌, sym, ◌≤◌, ◌<◌, false, List, [], ◌∷◌, ◌++◌, Bytes, Result, ok, ltb, ◌==◌,
  ◌||◌, length, length-append, take-append, drop-append, u16_from_be_bytes, u16_from-to, le→not_ltb,
  All, ◌≡◌, refl, ap, ◌∙◌, arith,
}
use denis.Dns.Tcp.{End, left, framed, tcp_max_msg, conn_loop, handle_tcp_conn}

-- The messages as the client sends them.
abbrev pub sent : List Bytes → Bytes
sent [] = []
sent (m ∷ ms) = framed m ++ sent ms

-- A message whose length fits its prefix.
abbrev pub Fits : Bytes → Type 0
Fits m = (1 ≤ length m) × (length m ≤ tcp_max_msg)

module _ {S E : Type 0} (handle : Bytes → S → Result E Bytes × S) where
  -- The handler answers these messages, from this state on, with these responses, and ends in that
  -- state.
  pub data Answered : S → List Bytes → List Bytes → S → Type 0 where
    none_left : (s : S) → Answered s [] [] s
    one_more :
        (s s' s'' : S) (m r : Bytes) (ms rs : List Bytes)
        → handle m s ≡ (ok r, s')
        → Answered s' ms rs s''
        → Answered s (m ∷ ms) (r ∷ rs) s''

  length-sent : (ms : List Bytes) → length ms ≤ length (sent ms)
  length-sent [] = omega arith
  length-sent (m ∷ ms) = omega (arith, length-sent ms, length-append (framed m) (sent ms))

  abbrev with_out : S → Bytes → End × Bytes × S
  with_out s out = (left, out, s)

  step :
      (fuel : ℕ) (m rest out r : Bytes) (s s' : S)
      → Fits m
      → handle m s ≡ (ok r, s')
      → conn_loop handle (suc fuel) (framed m ++ rest) out s
        ≡ conn_loop handle fuel rest (out ++ framed r) s'
  unfolding conn_loop
  step fuel m rest out r s s' (some_bytes, few) e =
      let len : u16_from_be_bytes (length m / 256 % 256) (length m % 256) ≡ length m =
        u16_from-to (length m) (omega arith) in
      let whole : ltb (length (m ++ rest)) (length m) ≡ false =
        le→not_ltb _ _ (omega (arith, length-append m rest)) in
      let short : (length m == 0 || ltb tcp_max_msg (length m)) ≡ false = ground arith in
      rw (len, short, whole, take-append m rest, e, len, drop-append m rest, take-append m rest, e)
        refl

  conn_loop-Answered :
      (fuel : ℕ) (s s' : S) (ms rs : List Bytes) (out : Bytes)
      → length ms < fuel
      → All Fits ms
      → Answered s ms rs s'
      → conn_loop handle fuel (sent ms) out s ≡ (left, out ++ sent rs, s')
  unfolding conn_loop
  conn_loop-Answered zero s s' ms rs out enough fit answered = absurd (omega arith)
  conn_loop-Answered (suc fuel) s s' _ _ out enough fit (none_left _) =
      ap (with_out s) (sym (append-nil out))
  conn_loop-Answered (suc fuel) s s' _ _ out enough fit (one_more _ mid _ m r ms rs e answered) =
      let rest =
        conn_loop-Answered fuel mid s' ms rs (out ++ framed r) (omega arith) fit.1 answered in
      step fuel m (sent ms) out r s mid fit.0 e
      ∙ (rest ∙ ap (with_out s') (append_assoc out (framed r) (sent rs)))

  -- A client that sends messages whose lengths fit their prefixes, all of which the handler
  -- answers, gets the responses in the order of its messages, each behind its length, and nothing
  -- else; and the connection ends without an error, in the state that the handler left.
  pub handle_tcp_conn-Answered :
      (s s' : S) (ms rs : List Bytes)
      → All Fits ms
      → Answered s ms rs s'
      → handle_tcp_conn handle (sent ms) s ≡ (left, sent rs, s')
  unfolding handle_tcp_conn
  handle_tcp_conn-Answered s s' ms rs fit answered =
      conn_loop-Answered (suc (length (sent ms))) s s' ms rs [] (omega (arith, length-sent ms)) fit
        answered
