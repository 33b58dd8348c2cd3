-- ===== src/Text.antt =====
-- Rust's `String` and `&str` as the program uses them. A text is the list of its UTF-8 bytes, so
-- `len()` is the list's length, `as_bytes()` and `bytes()` are the text itself, and a search for
-- an ASCII character is a search for its byte.
pub mod Split
pub mod Utf8
use Prim.Native.Char.{code}
use Prim.Native.String.{String}
use denis.Base.{
  ℕ, zero, suc, ◌+◌, Bool, true, false, ◌&&◌, ◌||◌, Option, none, some, List, [], ◌∷◌, ◌++◌, map,
  Bytes, all, any, leb, ltb, ◌==◌, if◌then◌else◌, length, ◌≡◌, ◌↔◌, refl, arith,
}
use mathlib.Core.List.{reverse}

abbrev pub Str : Type 0
Str = Bytes

-- A literal, which is ASCII.
abbrev pub codes : String → Str
codes String.[] = []
codes (String.◌∷◌ c s) = code c ∷ codes s

abbrev pub dot : ℕ
dot = b'.'

unfoldable pub str_eq : Str → Str → Bool
str_eq [] [] = true
str_eq (a ∷ s) (b ∷ t) = a == b && str_eq s t
str_eq _ _ = false

pub str_eq_iff : (s t : Str) → (str_eq s t ≡ true) ↔ (s ≡ t)
unfolding str_eq
str_eq_iff (a ∷ s) (b ∷ t) = ground (arith, str_eq_iff s t)
str_eq_iff _ _ = ground arith

pub str_eq_refl : (s : Str) → str_eq s s ≡ true
str_eq_refl s = (str_eq_iff s s).1 refl

-- `s.contains(c)` for an ASCII character.
abbrev pub has_char : ℕ → Str → Bool
has_char c = any (λ b. b == c)

-- `s.strip_prefix(p)`
unfoldable pub strip_prefix : Str → Str → Option Str
strip_prefix [] s = some s
strip_prefix (p ∷ ps) [] = none
strip_prefix (p ∷ ps) (b ∷ s) = if b == p then strip_prefix ps s else none

abbrev pub is_ascii_lower : ℕ → Bool
is_ascii_lower b = leb b'a' b && leb b b'z'

abbrev pub is_ascii_upper : ℕ → Bool
is_ascii_upper b = leb b'A' b && leb b b'Z'

abbrev pub is_ascii_digit : ℕ → Bool
is_ascii_digit b = leb b'0' b && leb b b'9'

abbrev pub is_ascii_alphanumeric : ℕ → Bool
is_ascii_alphanumeric b = is_ascii_lower b || is_ascii_upper b || is_ascii_digit b

-- `u8::to_ascii_lowercase`
abbrev pub to_ascii_lowercase : ℕ → ℕ
to_ascii_lowercase b = if is_ascii_upper b then b + 32 else b

abbrev pub is_ascii : Str → Bool
is_ascii = all (λ b. ltb b 128)

-- `str::to_lowercase`. Beyond ASCII it goes by the tables of Unicode, which are the parameter.
abbrev pub to_lowercase : (Str → Str) → Str → Str
to_lowercase unicode s = if is_ascii s then map to_ascii_lowercase s else unicode s

-- `s.split(c)` for an ASCII character: at least one piece, empty pieces kept.
abbrev pub push_front : ℕ → List Str → List Str
push_front b [] = (b ∷ []) ∷ []
push_front b (w ∷ ws) = (b ∷ w) ∷ ws

unfoldable pub split : ℕ → Str → List Str
split c [] = [] ∷ []
split c (b ∷ s) = let rest = split c s in if b == c then [] ∷ rest else push_front b rest

-- The pieces with `c` between them.
abbrev pub join : ℕ → List Str → Str
join c [] = []
join c (w ∷ []) = w
join c (w ∷ v ∷ ws) = w ++ c ∷ join c (v ∷ ws)

-- `s.trim_end_matches(c)`
abbrev cons_unless : Bool → ℕ → Str → Str
cons_unless matches b [] = if matches then [] else b ∷ []
cons_unless matches b (x ∷ s) = b ∷ x ∷ s

unfoldable pub trim_end_matches : ℕ → Str → Str
trim_end_matches c [] = []
trim_end_matches c (b ∷ s) = cons_unless (b == c) b (trim_end_matches c s)

-- The characters of Unicode's White_Space, in UTF-8.
abbrev pub white_space : List Str
white_space =
    (9 ∷ [])
    ∷ (10 ∷ [])
    ∷ (11 ∷ [])
    ∷ (12 ∷ [])
    ∷ (13 ∷ [])
    ∷ (32 ∷ [])
    ∷ (0xC2 ∷ 0x85 ∷ [])
    ∷ (0xC2 ∷ 0xA0 ∷ [])
    ∷ (0xE1 ∷ 0x9A ∷ 0x80 ∷ [])
    ∷ (0xE2 ∷ 0x80 ∷ 0x80 ∷ [])
    ∷ (0xE2 ∷ 0x80 ∷ 0x81 ∷ [])
    ∷ (0xE2 ∷ 0x80 ∷ 0x82 ∷ [])
    ∷ (0xE2 ∷ 0x80 ∷ 0x83 ∷ [])
    ∷ (0xE2 ∷ 0x80 ∷ 0x84 ∷ [])
    ∷ (0xE2 ∷ 0x80 ∷ 0x85 ∷ [])
    ∷ (0xE2 ∷ 0x80 ∷ 0x86 ∷ [])
    ∷ (0xE2 ∷ 0x80 ∷ 0x87 ∷ [])
    ∷ (0xE2 ∷ 0x80 ∷ 0x88 ∷ [])
    ∷ (0xE2 ∷ 0x80 ∷ 0x89 ∷ [])
    ∷ (0xE2 ∷ 0x80 ∷ 0x8A ∷ [])
    ∷ (0xE2 ∷ 0x80 ∷ 0xA8 ∷ [])
    ∷ (0xE2 ∷ 0x80 ∷ 0xA9 ∷ [])
    ∷ (0xE2 ∷ 0x80 ∷ 0xAF ∷ [])
    ∷ (0xE2 ∷ 0x81 ∷ 0x9F ∷ [])
    ∷ (0xE3 ∷ 0x80 ∷ 0x80 ∷ [])
    ∷ []

-- The text behind the first of these words that it begins with.
unfoldable pub strip_any : List Str → Str → Option Str
unfolding strip_prefix
strip_any [] s = none
strip_any (w ∷ ws) s = elim (strip_prefix w s) [ some r ↦ some r | none ↦ strip_any ws s ]

-- Every round takes a byte off at least, so the length of the text is fuel enough.
unfoldable pub trim_words : List Str → ℕ → Str → Str
unfolding strip_any
trim_words ws zero s = s
trim_words ws (suc fuel) s = elim (strip_any ws s) [ some r ↦ trim_words ws fuel r | none ↦ s ]

unfoldable pub trim_start : Str → Str
unfolding trim_words
trim_start s = trim_words white_space (length s) s

-- From the end: the bytes of the text and of the characters, read backwards.
unfoldable pub trim_end : Str → Str
unfolding trim_words
trim_end s = reverse (trim_words (map reverse white_space) (length s) (reverse s))

unfoldable pub trim : Str → Str
unfolding trim_start trim_end
trim s = trim_end (trim_start s)
