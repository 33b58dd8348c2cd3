-- ===== src/Api/Auth/Hex/Decode.antt =====
-- A token's text determines its bytes.
use denis.Api.Auth.Hex.{hex_digit, write_hex, random_token}
use denis.Base.{
  ℕ, ◌+◌, ◌-◌, ◌*◌, ◌/◌, ◌%◌, ◌<◌, List, [], ◌∷◌, length, All, IsByte, ltb, if◌then◌else◌, ◌≡◌,
  refl, arith,
}
use denis.Text.{Str}

abbrev pub digit_value : ℕ → ℕ
digit_value c = if ltb c 58 then c - b'0' else c - 87

-- The bytes that a hexadecimal text stands for.
unfoldable pub read_hex : Str → List ℕ
read_hex (hi ∷ lo ∷ s) = (digit_value hi * 16 + digit_value lo) ∷ read_hex s
read_hex (hi ∷ []) = []
read_hex [] = []

digit_value-hex_digit : (n : ℕ) → n < 16 → digit_value (hex_digit n) ≡ n
digit_value-hex_digit n h = ground arith

read_hex-write_hex : (bytes : List ℕ) → All IsByte bytes → read_hex (write_hex bytes) ≡ bytes
unfolding read_hex write_hex
read_hex-write_hex [] h = refl
read_hex-write_hex (b ∷ bytes) (small, rest) =
    let hi = digit_value-hex_digit (b / 16) (omega arith) in
    let lo = digit_value-hex_digit (b % 16) (omega arith) in
    let whole : b / 16 * 16 + b % 16 ≡ b = omega arith in
    rw (hi, lo, whole, read_hex-write_hex bytes rest) refl

length-write_hex : (bytes : List ℕ) → length (write_hex bytes) ≡ 2 * length bytes
unfolding write_hex
length-write_hex [] = omega arith
length-write_hex (b ∷ bytes) = omega (arith, length-write_hex bytes)

-- A token is twice as long as its random bytes and determines them: two tokens are the same only if
-- all their bytes are.
pub random_token-read_hex :
    (bytes : List ℕ)
    → All IsByte bytes
    → (read_hex (random_token bytes) ≡ bytes) × (length (random_token bytes) ≡ 2 * length bytes)
unfolding random_token
random_token-read_hex bytes h = (read_hex-write_hex bytes h, length-write_hex bytes)
