-- ===== src/Handler/Parser/RoundTrip.antt =====
-- The parser of backend/src/handler/parser.rs reads back what an encoder writes.
use mathlib.Core.List.{append-nil, append_assoc, map-append}
use denis.Base.{
  ℕ, zero, suc, ◌+◌, ◌*◌, ◌≤◌, ◌<◌, List, [], ◌∷◌, ◌++◌, map, Bytes, All, Option, Result, ok, some,
  if◌then◌else◌, ◌==◌, length, length-append, length-map, get_elem?, get_elem?-prefix,
  u16_from_be_bytes, ◌≡◌, refl, sym, ap, ◌∙◌, arith,
}
use denis.Text.Utf8.{from_utf8_lossy}
use denis.Text.{Str, dot, join, to_ascii_lowercase}
use denis.Handler.Parser.Rounds.{IsWireLabel, encode, round_at_length, round_scan}
use denis.Handler.Parser.Terminates.{loop_break, loop_again}
use denis.Handler.Parser.{
  ParseError, header, length_state, round, break, question_loop, parse_question, parse_qtype,
  parse_udp,
}

length-encode : (ws : List Bytes) → All IsWireLabel ws → 2 * length ws ≤ length (encode ws)
length-encode [] h = omega arith
length-encode (w ∷ ws) (v, vs) =
    omega (arith, length-encode ws vs, length-append w (encode ws), ap length v.bytes)

-- A label follows, so a dot is put behind the one before.
dotted : (v : Bytes) → IsWireLabel v → (a b : Bytes) → (if length v == 0 then a else b) ≡ b
dotted v wire a b = ground (arith, ap length wire.bytes)

round_end :
    (packet pre rest : Bytes) (idx len : ℕ) (buf : Bytes)
    → packet ≡ pre ++ 0 ∷ rest
    → idx ≡ length pre
    → round packet (record { idx = idx; len = len; state = length_state; buf = buf }) ≡ ok break
unfolding round
round_end packet pre rest idx len buf split at =
    let here : get_elem? packet idx ≡ some 0 = rw split (get_elem?-prefix pre rest 0 idx at) in
    ground (arith, here)

abbrev question_result : Bytes → ℕ → Option (Result ParseError (Bytes × ℕ))
question_result buf idx = some (ok (buf, idx))

-- What the loop makes of the labels: in lower case, with dots between them.
abbrev lowered : List Bytes → Str
lowered ws = map to_ascii_lowercase (join dot ws)

same_result : {a b : Bytes} {i j : ℕ} → a ≡ b → i ≡ j → question_result a i ≡ question_result b j
same_result p q = cc

-- Behind a prefix that has been read, the loop reads the labels up to the zero byte.
loop_labels :
    (ws : List Bytes) (fuel : ℕ) (packet pre rest : Bytes) (idx len : ℕ) (buf : Bytes)
    → packet ≡ pre ++ (encode ws ++ 0 ∷ rest)
    → idx ≡ length pre
    → All IsWireLabel ws
    → length buf + length (join dot ws) ≤ 254
    → 2 * length ws < fuel
    → question_loop fuel packet (record { idx = idx; len = len; state = length_state; buf = buf })
      ≡ question_result (buf ++ lowered ws) (idx + length (encode ws))
loop_labels ws zero packet pre rest idx len buf split at vs fits enough = absurd (omega arith)
loop_labels [] (suc fuel) packet pre rest idx len buf split at vs fits enough =
    loop_break fuel packet _ (round_end packet pre rest idx len buf split at)
    ∙ same_result (sym (append-nil buf)) (omega arith)
loop_labels (w ∷ ws) (suc zero) packet pre rest idx len buf split at vs fits enough =
    absurd (omega arith)
loop_labels (w ∷ []) (suc (suc fuel)) packet pre rest idx len buf split at vs fits enough =
    let cut : packet ≡ pre ++ (length w ∷ (w ++ 0 ∷ rest)) =
      split ∙ ap (λ (t : Bytes). pre ++ (length w ∷ t)) (rw (append-nil w) refl) in
    let read = map to_ascii_lowercase w in
    loop_again (suc fuel) packet _ (round_at_length packet pre w rest 0 idx len buf cut at vs.0)
    ∙ loop_again fuel packet _
        (round_scan packet pre w rest 0 idx len buf cut at vs.0 (omega arith))
    ∙ loop_labels [] fuel packet (pre ++ (length w ∷ w)) rest (idx + 1 + length w) (length w)
        (buf ++ read) (cut ∙ sym (append_assoc pre (length w ∷ w) (0 ∷ rest)))
        (omega (arith, length-append pre (length w ∷ w))) tt
        (omega (arith, length-append buf read, length-map to_ascii_lowercase w)) (omega arith)
    ∙ same_result (append-nil (buf ++ read)) (omega (arith, length-append w []))
loop_labels (w ∷ v ∷ ws) (suc (suc fuel)) packet pre rest idx len buf split at vs fits enough =
    let post = v ++ encode ws ++ 0 ∷ rest in
    let cut : packet ≡ pre ++ (length w ∷ (w ++ length v ∷ post)) =
      split
      ∙ ap (λ (t : Bytes). pre ++ (length w ∷ t)) (append_assoc w (encode (v ∷ ws)) (0 ∷ rest)) in
    let read = (buf ++ map to_ascii_lowercase w) ++ dot ∷ [] in
    let longer = length-append w (dot ∷ join dot (v ∷ ws)) in
    loop_again (suc fuel) packet _
      (round_at_length packet pre w post (length v) idx len buf cut at vs.0)
    ∙ loop_again fuel packet _
        (round_scan packet pre w post (length v) idx len buf cut at vs.0 (omega (arith, longer)))
    ∙ ap
        (λ (b : Bytes).
          question_loop fuel packet
            (record { idx = idx + 1 + length w; len = length w; state = length_state; buf = b }))
        (dotted v vs.1.0 _ read)
    ∙ loop_labels (v ∷ ws) fuel packet (pre ++ (length w ∷ w)) rest (idx + 1 + length w) (length w)
        read (cut ∙ sym (append_assoc pre (length w ∷ w) (encode (v ∷ ws) ++ 0 ∷ rest)))
        (omega (arith, length-append pre (length w ∷ w))) vs.1
        (omega (
          arith,
          longer,
          length-append (buf ++ map to_ascii_lowercase w) (dot ∷ []),
          length-append buf (map to_ascii_lowercase w),
          length-map to_ascii_lowercase w,
        ))
        (omega arith)
    ∙ same_result (simp (map-append, append_assoc))
        (omega (arith, length-append w (encode (v ∷ ws))))

-- A question of labels is read back from any packet: the name in lower case with dots between
-- its labels, and the place of the zero byte behind it. Each label has one to 63 bytes, the first
-- of them not zero, and the name has at most 254 bytes.
pub parse_question-encode :
    (head rest : Bytes) (ws : List Bytes)
    → length head ≡ header
    → All IsWireLabel ws
    → length (join dot ws) ≤ 254
    → parse_question (head ++ (encode ws ++ 0 ∷ rest))
      ≡ ok (map to_ascii_lowercase (join dot ws), header + length (encode ws))
parse_question-encode head rest ws h vs fits =
    unfold parse_question in
    rw
      (loop_labels ws (suc (length packet)) packet head rest 12 0 [] refl (sym h) vs (omega arith)
        room)
      refl
  where
    packet : Bytes
    packet = head ++ (encode ws ++ 0 ∷ rest)

    room : 2 * length ws < suc (length packet)
    room = omega (
      arith,
      length-encode ws vs,
      length-append head (encode ws ++ 0 ∷ rest),
      length-append (encode ws) (0 ∷ rest),
    )

parse_qtype-behind :
    (pre rest : Bytes) (packet : Bytes) (idx hi lo : ℕ)
    → packet ≡ pre ++ (0 ∷ hi ∷ lo ∷ rest)
    → idx ≡ length pre
    → parse_qtype packet idx ≡ ok (u16_from_be_bytes hi lo)
parse_qtype-behind pre rest packet idx hi lo split at =
    unfold parse_qtype in ground (arith, high, low)
  where
    high : get_elem? packet (idx + 1) ≡ some hi
    high =
        rw (split, ← append_assoc pre (0 ∷ []) (hi ∷ lo ∷ rest))
          (get_elem?-prefix (pre ++ 0 ∷ []) (lo ∷ rest) hi (idx + 1)
            (omega (arith, length-append pre (0 ∷ []))))

    low : get_elem? packet (idx + 2) ≡ some lo
    low =
        rw (split, ← append_assoc pre (0 ∷ hi ∷ []) (lo ∷ rest))
          (get_elem?-prefix (pre ++ 0 ∷ hi ∷ []) rest lo (idx + 2)
            (omega (arith, length-append pre (0 ∷ hi ∷ []))))

parse_udp-parts :
    (packet qname : Bytes) (idx t : ℕ)
    → header ≤ length packet
    → parse_question packet ≡ ok (qname, idx)
    → parse_qtype packet idx ≡ ok t
    → parse_udp packet
      ≡ ok (record {
        name = from_utf8_lossy qname;
        query_type = t;
        raw = packet;
        answer_offset = idx + 5;
      })
unfolding parse_udp
parse_udp-parts packet qname idx t long question qtype = ground arith

-- `parse_udp` accepts a packet of a header, the labels of a name with their lengths, a zero byte
-- and a type, whatever stands in the header and behind the type: it keeps the packet as it came,
-- and reads the name in lower case with dots between the labels, the type, and the end of the
-- question. The labels are such as can stand in a packet, and the name has 254 bytes at most.
pub parse_udp-encode :
    (head rest : Bytes) (ws : List Bytes) (hi lo : ℕ)
    → length head ≡ header
    → All IsWireLabel ws
    → length (join dot ws) ≤ 254
    → let packet = head ++ (encode ws ++ 0 ∷ hi ∷ lo ∷ rest) in
      parse_udp packet
      ≡ ok (record {
        name = from_utf8_lossy (map to_ascii_lowercase (join dot ws));
        query_type = u16_from_be_bytes hi lo;
        raw = packet;
        answer_offset = header + length (encode ws) + 5;
      })
parse_udp-encode head rest ws hi lo h vs fits =
    parse_udp-parts _ _ _ _ (omega (arith, length-append head (encode ws ++ 0 ∷ hi ∷ lo ∷ rest)))
      (parse_question-encode head (hi ∷ lo ∷ rest) ws h vs fits)
      (parse_qtype-behind (head ++ encode ws) rest _ _ hi lo
        (sym (append_assoc head (encode ws) (0 ∷ hi ∷ lo ∷ rest)))
        (omega (arith, length-append head (encode ws))))
