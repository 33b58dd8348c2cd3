-- ===== src/Handler/Parser.antt =====
-- backend/src/handler/parser.rs: the question of a DNS packet.
pub mod Terminates
pub mod Rounds
pub mod RoundTrip
pub mod Bounds
use denis.Base.{
  ℕ, zero, suc, ◌+◌, Bool, Option, none, some, List, [], ◌∷◌, ◌++◌, map, Bytes, Result, ok, err,
  ◌>>=◌, ok_or, leb, ltb, ◌==◌, if◌then◌else◌, length, get_elem?, get_range, u16_from_be_bytes,
  u32_from_be_bytes,
}
use denis.Text.Utf8.{from_utf8_lossy}
use denis.Text.{Str, dot, to_ascii_lowercase}

abbrev pub header : ℕ
header = 12

abbrev pub max_label : ℕ
max_label = 63

abbrev pub max_name : ℕ
max_name = 255

pub data ParseError : Type 0 where
  too_short : ℕ → ParseError
  truncated : ParseError
  label_too_long : ℕ → ParseError
  name_too_long : ParseError
  compression_pointer : ParseError

pub data ParseState : Type 0 where
  length_state scan_state : ParseState

-- A record type is the number that stands in the packet.
abbrev pub RecordType : Type 0
RecordType = ℕ

pub record Query : Type 0 where
  pub name : Str
  pub query_type : RecordType
  pub raw : Bytes
  pub answer_offset : ℕ

-- The variables of the loop of `parse_question`.
pub record Cursor : Type 0 where
  pub idx : ℕ
  pub len : ℕ
  pub state : ParseState
  pub buf : Bytes

-- How one round ends: by `break`, or with the variables for the next one.
pub data Round : Type 0 where
  break : Round
  again : Cursor → Round

-- `ParseState::Length`: the byte is the length of a label.
on_length : Cursor → ℕ → Result ParseError Round
on_length c byte =
    if leb 0xC0 byte
    then err compression_pointer
    else if ltb max_label byte
    then err (label_too_long byte)
    else ok (again (record c { len = byte; idx = c.idx + 1; state = scan_state }))

-- `ParseState::Scan`: the label itself, and a dot unless the name ends behind it.
on_scan : Bytes → Cursor → Result ParseError Round
on_scan packet c = do
  let stop = c.idx + c.len
  label ← ok_or (get_range packet c.idx stop) truncated
  let lowered = c.buf ++ map to_ascii_lowercase label
  next ←
      if ltb max_name (length c.buf + length label + 1)
      then err name_too_long
      else ok_or (get_elem? packet stop) truncated
  ok (
      again (record c {
        buf = if next == 0 then lowered else lowered ++ dot ∷ [];
        idx = stop;
        state = length_state;
      }))

in_state : ParseState → Bytes → Cursor → ℕ → Result ParseError Round
unfolding on_length on_scan
in_state length_state packet c byte = on_length c byte
in_state scan_state packet c byte = on_scan packet c

-- One round of the loop.
unfoldable pub round : Bytes → Cursor → Result ParseError Round
unfolding in_state
round packet c = do
  byte ← ok_or (get_elem? packet c.idx) truncated
  if byte == 0 then ok break else in_state c.state packet c byte

-- The loop on fuel; `none` means that the fuel ran out.
unfoldable pub question_loop : ℕ → Bytes → Cursor → Option (Result ParseError (Bytes × ℕ))
question_loop zero packet c = none
question_loop (suc fuel) packet c = elim (round packet c) [
  | err e ↦ some (err e)
  | ok r ↦ elim r [ break ↦ some (ok (c.buf, c.idx)) | again c' ↦ question_loop fuel packet c' ]
]

abbrev pub first_cursor : Cursor
first_cursor = record { idx = header; len = 0; state = length_state; buf = [] }

-- The fuel is more than there are bytes, and `question_loop-ne_none` shows that it is enough: the
-- value that stands for exhausted fuel is never returned.
abbrev pub or_truncated {ℓ} : {A : Type ℓ} → Option (Result ParseError A) → Result ParseError A
or_truncated none = err truncated
or_truncated (some r) = r

unfoldable pub parse_question : Bytes → Result ParseError (Bytes × ℕ)
unfolding question_loop round
parse_question packet = or_truncated (question_loop (suc (length packet)) packet first_cursor)

unfoldable pub parse_qtype : Bytes → ℕ → Result ParseError ℕ
parse_qtype packet idx = do
  hi ← ok_or (get_elem? packet (idx + 1)) truncated
  lo ← ok_or (get_elem? packet (idx + 2)) truncated
  ok (u16_from_be_bytes hi lo)

abbrev u32_of : Bytes → ℕ
u32_of (a ∷ b ∷ c ∷ d ∷ _) = u32_from_be_bytes a b c d
u32_of _ = 0

unfoldable pub parse_ttl : Bytes → ℕ → ℕ
parse_ttl packet idx = elim (get_range packet (idx + 6) (idx + 6 + 4)) [
  | some b ↦ u32_of b
  | none ↦ 0
]

unfoldable pub parse_udp : Bytes → Result ParseError Query
parse_udp packet = if ltb (length packet) header then err (too_short (length packet)) else do
  (qname, idx) ← parse_question packet
  qtype ← parse_qtype packet idx
  ok (record {
    name = from_utf8_lossy qname;
    query_type = qtype;
    raw = packet;
    answer_offset = idx + 5;
  })
