-- ===== src/Handler/Parser/Terminates.antt =====
-- The loop of `parse_question` in backend/src/handler/parser.rs: every round moves on in the
-- packet, so the loop ends, and what it has gathered stays within bounds.
use denis.Base.{
  ℕ, zero, suc, ◌+◌, ◌≤◌, ◌<◌, none, some, [], ◌∷◌, ◌++◌, map, Bytes, Result, ok, err, ◌==◌,
  Bool-cases, Option-cases, length, length-append, length-map, get_elem?, get_elem?-lt, take, drop,
  ◌-◌, ◌≡◌, ◌≢◌, refl, sym, ◌∙◌, ◌⊎◌, inl, inr, arith,
}
use denis.Text.{dot, to_ascii_lowercase}
use denis.Handler.Parser.{
  ParseError, length_state, scan_state, Cursor, Round, break, again, ParseState, in_state, round,
  question_loop, first_cursor, header,
}

-- A label to be scanned has a byte at least, and the name so far leaves room.
abbrev LenFits : ParseState → ℕ → Type 0
LenFits length_state len = Unit
LenFits scan_state len = 1 ≤ len

pub record CursorInv (c : Cursor) : Type 0 where
  pub len_fits : LenFits c.state c.len
  pub buf_fits : length c.buf ≤ 255
  pub past_header : 12 ≤ c.idx

-- A round that goes on keeps the invariant and reads further, within the packet.
record Advances (packet : Bytes) (c c' : Cursor) : Type 0 where
  inv : CursorInv c'
  forward : c.idx < c'.idx
  inside : c'.idx ≤ length packet

in_state-Advances :
    (s : ParseState) (packet : Bytes) (c : Cursor) (byte : ℕ) (c' : Cursor)
    → c.state ≡ s
    → CursorInv c
    → byte ≢ 0
    → c.idx < length packet
    → in_state s packet c byte ≡ ok (again c')
    → Advances packet c c'
unfolding in_state
in_state-Advances length_state packet c byte c' es v nz lt h = ground arith
in_state-Advances scan_state packet c byte c' es v nz lt h =
    elim (Option-cases (get_elem? packet (c.idx + c.len))) [
      | inl e ↦ absurd (ground arith)
      | inr (next, e) ↦
          let label = take (c.idx + c.len - c.idx) (drop c.idx packet) in
          let inside = get_elem?-lt packet (c.idx + c.len) e in
          let lowered = map to_ascii_lowercase label in
          ground (
            arith,
            length-append c.buf lowered,
            length-append (c.buf ++ lowered) (dot ∷ []),
            length-map to_ascii_lowercase label,
            inside,
          )
    ]

round-Advances :
    (packet : Bytes) (c c' : Cursor)
    → CursorInv c
    → round packet c ≡ ok (again c')
    → Advances packet c c'
unfolding round
round-Advances packet c c' v h = elim (Option-cases (get_elem? packet c.idx)) [
  | inl e ↦ absurd (ground arith)
  | inr (byte, e) ↦ elim (Bool-cases (byte == 0)) [
    | inl z ↦ absurd (ground arith)
    | inr z ↦
        in_state-Advances c.state packet c byte c' refl v (λ n. ground arith)
          (get_elem?-lt packet c.idx e) (ground arith)
  ]
]

in_state-ne_break :
    (s : ParseState) (packet : Bytes) (c : Cursor) (byte : ℕ) → in_state s packet c byte ≢ ok break
unfolding in_state
in_state-ne_break length_state packet c byte h = ground arith
in_state-ne_break scan_state packet c byte h = ground arith

-- The loop breaks at a zero byte only.
pub round-break :
    (packet : Bytes) (c : Cursor) → round packet c ≡ ok break → get_elem? packet c.idx ≡ some 0
round-break packet c h = elim (Option-cases (get_elem? packet c.idx)) [
  | inl e ↦ absurd (unfold round in ground arith)
  | inr (byte, e) ↦ elim (Bool-cases (byte == 0)) [
    | inl z ↦ ground arith
    | inr z ↦ absurd (in_state-ne_break c.state packet c byte (unfold round in ground arith))
  ]
]

pub Round-cases :
    (r : Result ParseError Round)
    → ((e : ParseError) × (r ≡ err e)) ⊎ (r ≡ ok break) ⊎ ((c : Cursor) × (r ≡ ok (again c)))
Round-cases (err e) = inl (e, refl)
Round-cases (ok break) = inr (inl refl)
Round-cases (ok (again c)) = inr (inr (c, refl))

module _ (fuel : ℕ) (packet : Bytes) (c : Cursor) where
  loop_err :
      {e : ParseError} → round packet c ≡ err e → question_loop (suc fuel) packet c ≡ some (err e)
  unfolding question_loop
  loop_err h = rw (h, question_loop)

  pub loop_break :
      round packet c ≡ ok break → question_loop (suc fuel) packet c ≡ some (ok (c.buf, c.idx))
  unfolding question_loop
  loop_break h = rw (h, question_loop)

  pub loop_again :
      {c' : Cursor}
      → round packet c ≡ ok (again c')
      → question_loop (suc fuel) packet c ≡ question_loop fuel packet c'
  unfolding question_loop
  loop_again h = rw (h, question_loop)

loop_ends :
    (fuel : ℕ) (packet : Bytes) (c : Cursor)
    → CursorInv c
    → length packet < fuel + c.idx
    → c.idx ≤ length packet
    → question_loop fuel packet c ≢ none
loop_ends zero packet c v h k e = absurd (omega arith)
loop_ends (suc fuel) packet c v h k e = elim (Round-cases (round packet c)) [
  | inl (x, r) ↦ cc (loop_err fuel packet c r)
  | inr (inl r) ↦ cc (loop_break fuel packet c r)
  | inr (inr (c', r)) ↦
      let a = round-Advances packet c c' v r in
      loop_ends fuel packet c' a.inv (omega (arith, a.forward)) a.inside
        (sym (loop_again fuel packet c r) ∙ e)
]

pub loop_result :
    (fuel : ℕ) (packet : Bytes) (c : Cursor) (buf : Bytes) (idx : ℕ)
    → CursorInv c
    → question_loop fuel packet c ≡ some (ok (buf, idx))
    → (length buf ≤ 255) × (12 ≤ idx) × (get_elem? packet idx ≡ some 0)
loop_result zero packet c buf idx v e = absurd (unfold question_loop in ground arith)
loop_result (suc fuel) packet c buf idx v e = elim (Round-cases (round packet c)) [
  | inl (x, r) ↦ absurd (ground (arith, loop_err fuel packet c r))
  | inr (inl r) ↦ ground (arith, loop_break fuel packet c r, round-break packet c r)
  | inr (inr (c', r)) ↦
      let a = round-Advances packet c c' v r in
      loop_result fuel packet c' buf idx a.inv (sym (loop_again fuel packet c r) ∙ e)
]

pub first_cursor-CursorInv : CursorInv first_cursor
first_cursor-CursorInv = record { len_fits = tt; buf_fits = omega arith; past_header = omega arith }

-- On a packet that holds a header the loop of `parse_question` ends within its fuel: the value
-- for exhausted fuel is never returned.
pub question_loop-ne_none :
    (packet : Bytes)
    → header ≤ length packet
    → question_loop (suc (length packet)) packet first_cursor ≢ none
question_loop-ne_none packet h =
    loop_ends (suc (length packet)) packet first_cursor first_cursor-CursorInv (omega arith) h
