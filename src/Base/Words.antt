-- ===== src/Base/Words.antt =====
-- Bytes and big-endian words. A byte is a number; `IsByte` says that it is below 256.
use Prim.Native.Nat.{ℕ, ◌+◌, ◌*◌, ◌/◌, ◌%◌, ◌<◌}
use mathlib.Core.Path.{◌≡◌}
use mathlib.Core.List.{List, [], ◌∷◌}
use native.Mathlib.Omega.{arith}

abbrev pub Bytes : Type 0
Bytes = List ℕ

abbrev pub IsByte : ℕ → Type 0
IsByte b = b < 256

-- `u16::from_be_bytes`, `u32::from_be_bytes`.
abbrev pub u16_from_be_bytes : ℕ → ℕ → ℕ
u16_from_be_bytes hi lo = hi * 256 + lo

abbrev pub u32_from_be_bytes : ℕ → ℕ → ℕ → ℕ → ℕ
u32_from_be_bytes a b c d = a * 16777216 + b * 65536 + c * 256 + d

-- `u16::to_be_bytes`, `u32::to_be_bytes`.
abbrev pub u16_to_be_bytes : ℕ → Bytes
u16_to_be_bytes n = n / 256 % 256 ∷ n % 256 ∷ []

abbrev pub u32_to_be_bytes : ℕ → Bytes
u32_to_be_bytes n = n / 16777216 % 256 ∷ n / 65536 % 256 ∷ n / 256 % 256 ∷ n % 256 ∷ []

pub u16_from-to : (n : ℕ) → n < 65536 → u16_from_be_bytes (n / 256 % 256) (n % 256) ≡ n
u16_from-to n h = omega arith

pub u16_to-from_hi : (hi lo : ℕ) → IsByte hi → IsByte lo → u16_from_be_bytes hi lo / 256 % 256 ≡ hi
u16_to-from_hi hi lo h l = omega arith
