-- ===== src/Handler/Parser/Bounds.antt =====
-- The query that `parse_udp` of backend/src/handler/parser.rs accepts, and where its parts lie.
use denis.Base.{
  ℕ, suc, ◌+◌, ◌≤◌, ◌<◌, Option, none, some, Bytes, Result, ok, err, Option-cases, Result-cases,
  length, get_elem?, get_elem?-lt, ◌-◌, ◌≡◌, ap, inl, inr, arith,
}
use denis.Text.Utf8.{from_utf8_lossy}
use denis.Handler.Parser.{
  ParseError, first_cursor, parse_question, or_truncated, Query, parse_udp, parse_qtype, header,
}
use denis.Handler.Parser.Terminates.{loop_result, first_cursor-CursorInv}

or_truncated-ok :
    (r : Option (Result ParseError (Bytes × ℕ))) {a : Bytes × ℕ}
    → or_truncated r ≡ ok a
    → r ≡ some (ok a)
or_truncated-ok none h = cc
or_truncated-ok (some (err e)) h = cc
or_truncated-ok (some (ok a)) h = ap some h

-- A parsed question has at most 255 bytes of name, and its end is a zero byte past the header.
pub parse_question_result :
    (packet buf : Bytes) (idx : ℕ)
    → parse_question packet ≡ ok (buf, idx)
    → (length buf ≤ 255) × (12 ≤ idx) × (get_elem? packet idx ≡ some 0)
unfolding parse_question
parse_question_result packet buf idx h =
    loop_result (suc (length packet)) packet first_cursor buf idx first_cursor-CursorInv
      (or_truncated-ok _ h)

-- The parts of an accepted query.
pub record Parsed (packet : Bytes) (q : Query) : Type 0 where
  pub qname : Bytes
  pub idx : ℕ
  pub question : parse_question packet ≡ ok (qname, idx)
  pub qtype : parse_qtype packet idx ≡ ok q.query_type
  pub name_is : q.name ≡ from_utf8_lossy qname
  pub raw_is : q.raw ≡ packet
  pub offset_is : q.answer_offset ≡ idx + 5
  pub long : header ≤ length packet

pub parse_udp-Parsed : (packet : Bytes) (q : Query) → parse_udp packet ≡ ok q → Parsed packet q
parse_udp-Parsed packet q h = elim (Result-cases (parse_question packet)) [
  | inl (e, r) ↦ absurd (unfold parse_udp in ground arith)
  | inr ((qname, idx), r) ↦ elim (Result-cases (parse_qtype packet idx)) [
    | inl (e, t) ↦ absurd (unfold parse_udp in ground arith)
    | inr (qtype, t) ↦
        let both : (q ≡ record {
          name = from_utf8_lossy qname;
          query_type = qtype;
          raw = packet;
          answer_offset = idx + 5;
        })
            × (header ≤ length packet) =
          unfold parse_udp in ground arith in
        record {
          qname = qname;
          idx = idx;
          question = r;
          qtype = cc (t, both.0);
          name_is = ap (λ (p : Query). p.name) both.0;
          raw_is = ap (λ (p : Query). p.raw) both.0;
          offset_is = ap (λ (p : Query). p.answer_offset) both.0;
          long = both.1;
        }
  ]
]

parse_qtype-lt :
    (packet : Bytes) (idx t : ℕ) → parse_qtype packet idx ≡ ok t → idx + 2 < length packet
parse_qtype-lt packet idx t h = elim (Option-cases (get_elem? packet (idx + 2))) [
  | inl e ↦ elim (Option-cases (get_elem? packet (idx + 1))) [
    | inl e' ↦ absurd (unfold parse_qtype in ground arith)
    | inr (hi, e') ↦ absurd (unfold parse_qtype in ground arith)
  ]
  | inr (lo, e) ↦ get_elem?-lt packet (idx + 2) e
]

-- A query that is accepted keeps the packet as it came. The terminator of its name stands five
-- bytes before `answer_offset`, behind the header, and both bytes of the record type are in the
-- packet; the class need not be, so `answer_offset` may lie up to two bytes behind the end.
pub parse_udp-bounds :
    (packet : Bytes) (q : Query)
    → parse_udp packet ≡ ok q
    → (q.raw ≡ packet)
      × (17 ≤ q.answer_offset)
      × (q.answer_offset ≤ length packet + 2)
      × (get_elem? packet (q.answer_offset - 5) ≡ some 0)
parse_udp-bounds packet q h =
    let p = parse_udp-Parsed packet q h in
    let (_, past_header, zero_byte) = parse_question_result packet p.qname p.idx p.question in
    let inside = parse_qtype-lt packet p.idx q.query_type p.qtype in
    let at : q.answer_offset - 5 ≡ p.idx = omega (arith, p.offset_is) in
    (p.raw_is, omega (arith, p.offset_is), omega (arith, p.offset_is), rw at zero_byte)
