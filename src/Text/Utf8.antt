-- ===== src/Text/Utf8.antt =====
-- `String::from_utf8_lossy`: each maximal part that cannot begin a character becomes U+FFFD.
use denis.Base.{
  ℕ, zero, suc, Bool, true, false, ◌&&◌, Option, none, some, [], ◌∷◌, ◌++◌, Bytes, leb, ltb, ◌==◌,
  if◌then◌else◌, take, drop, length, ◌≡◌, refl, arith,
}
use denis.Text.{Str, is_ascii}

abbrev within : ℕ → ℕ → ℕ → Bool
within lo hi b = leb lo b && leb b hi

-- After a first byte: how many bytes follow, and the range of the first of them.
lead : ℕ → Option (ℕ × ℕ × ℕ)
lead b =
    if within 0xC2 0xDF b
    then some (1, 0x80, 0xBF)
    else if b == 0xE0
    then some (2, 0xA0, 0xBF)
    else if b == 0xED
    then some (2, 0x80, 0x9F)
    else if within 0xE1 0xEF b
    then some (2, 0x80, 0xBF)
    else if b == 0xF0
    then some (3, 0x90, 0xBF)
    else if within 0xF1 0xF3 b
    then some (3, 0x80, 0xBF)
    else if b == 0xF4
    then some (3, 0x80, 0x8F)
    else none

-- How many of the bytes that should follow are there, and whether all are.
following : ℕ → ℕ → ℕ → Bytes → ℕ × Bool
following zero lo hi s = (0, true)
following (suc k) lo hi [] = (0, false)
following (suc k) lo hi (b ∷ s) =
    let (n, complete) = following k 0x80 0xBF s in
    if within lo hi b then (suc n, complete) else (0, false)

abbrev pub replacement : Str
replacement = 0xEF ∷ 0xBF ∷ 0xBD ∷ []

-- What the bytes from `b` on put out, and what is left of them.
one_char : ℕ → Bytes → Str × Bytes
unfolding lead following
one_char b s = if ltb b 128 then (b ∷ [], s) else wide (lead b)
  where
    wide : Option (ℕ × ℕ × ℕ) → Str × Bytes
    wide none = (replacement, s)
    wide (some (k, lo, hi)) =
        let (n, complete) = following k lo hi s in
        (if complete then b ∷ take n s else replacement, drop n s)

-- Every round takes a byte at least.
lossy : ℕ → Bytes → Str
unfolding one_char
lossy zero s = []
lossy (suc fuel) [] = []
lossy (suc fuel) (b ∷ s) = let (out, rest) = one_char b s in out ++ lossy fuel rest

unfoldable pub from_utf8_lossy : Bytes → Str
unfolding lossy
from_utf8_lossy v = lossy (length v) v

lossy_ascii : (s : Bytes) → is_ascii s ≡ true → lossy (length s) s ≡ s
unfolding lossy
lossy_ascii [] h = refl
lossy_ascii (b ∷ s) h = ground (arith, lossy_ascii s)

-- ASCII is read as it stands.
pub from_utf8_lossy_ascii : (s : Bytes) → is_ascii s ≡ true → from_utf8_lossy s ≡ s
unfolding from_utf8_lossy
from_utf8_lossy_ascii = lossy_ascii
