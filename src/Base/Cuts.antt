-- ===== src/Base/Cuts.antt =====
-- Cuts of lists of bytes that stop at their end.
use Prim.Native.Nat.{ℕ, zero, suc, min}
use mathlib.Core.Path.{◌≡◌, ap, ◌∙◌}
use mathlib.Core.List.{List, [], ◌∷◌}
use native.Mathlib.Omega.{arith}
use denis.Base.Lists.{length, take}

min_zero : (n : ℕ) → min n 0 ≡ 0
min_zero n = omega arith

the_zero : (n : ℕ) → min 0 n ≡ 0
the_zero n = omega arith

min-suc : (a b : ℕ) → min (suc a) (suc b) ≡ suc (min a b)
min-suc a b = omega arith

-- A cut is never behind the end.
pub take-min : (n : ℕ) (xs : List ℕ) → take (min (length xs) n) xs ≡ take n xs
take-min zero xs = ap (λ (k : ℕ). take k xs) (min_zero (length xs))
take-min (suc n) [] = ap (λ (k : ℕ). take {A = ℕ} k []) (the_zero (suc n))
take-min (suc n) (x ∷ xs) =
    ap (λ (k : ℕ). take k (x ∷ xs)) (min-suc (length xs) n) ∙ ap (◌∷◌ x) (take-min n xs)
