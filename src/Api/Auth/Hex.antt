-- ===== src/Api/Auth/Hex.antt =====
-- The texts of tokens and of their hashes in backend/src/api/auth.rs.
pub mod Decode
use denis.Base.{ℕ, ◌+◌, ◌/◌, ◌%◌, List, [], ◌∷◌, ltb, if◌then◌else◌}
use denis.Text.{Str}

-- A hexadecimal digit in lower case.
abbrev pub hex_digit : ℕ → ℕ
hex_digit n = if ltb n 10 then b'0' + n else 87 + n

-- The loop over `write!(s, "{b:02x}")`.
unfoldable pub write_hex : List ℕ → Str
write_hex [] = []
write_hex (b ∷ bytes) = hex_digit (b / 16) ∷ hex_digit (b % 16) ∷ write_hex bytes

-- `sha256` is the digest of the crate `sha2`.
unfoldable pub sha256_hex : (Str → List ℕ) → Str → Str
sha256_hex sha256 input = write_hex (sha256 input)

-- Of the 32 bytes that the generator fills.
unfoldable pub random_token : List ℕ → Str
random_token bytes = write_hex bytes
