-- ===== src/Analytics/Consumer/Retry.antt =====
-- The loop of backend/src/analytics/consumer.rs that waits for the server.
use denis.Analytics.Consumer.{ensure_loop}
use native.Mathlib.Nat.{two-pow-succ}
use denis.Base.{
  ℕ, zero, suc, ◌+◌, ◌*◌, ◌^◌, ◌≤◌, min, Bool, true, some, List, [], ◌∷◌, ◌≡◌, inl, inr, refl, sym,
  ap, ◌∙◌, arith, Bool-cases,
}

-- The seconds slept after the failures numbered from i: 1, 2, 4, 8, 16, and then 30.
unfoldable pub backoffs : ℕ → ℕ → List ℕ
backoffs i zero = []
backoffs i (suc n) = min (2 ^ i) 30 ∷ backoffs (suc i) n

twice : (i : ℕ) → min (min (2 ^ i) 30 * 2) 30 ≡ min (2 ^ suc i) 30
twice i = omega (arith, two-pow-succ i)

plus_zero : (a : ℕ) → a + 0 ≡ a
plus_zero a = omega arith

shift : (a b : ℕ) → suc a + b ≡ a + suc b
shift a b = omega arith

from_try :
    (answers : ℕ → Bool) (n tries : ℕ)
    → answers (tries + n) ≡ true
    → (k : ℕ) × (k ≤ n)
      × (answers (tries + k) ≡ true)
      × (ensure_loop answers (suc n) tries (min (2 ^ tries) 30) ≡ some (backoffs tries k))
unfolding ensure_loop backoffs
from_try answers zero tries h =
    (0, omega arith, h, rw (ap answers (sym (plus_zero tries)) ∙ h) refl)
from_try answers (suc n) tries h = elim (Bool-cases (answers tries)) [
  | inl good ↦ (0, omega arith, ap answers (plus_zero tries) ∙ good, rw good refl)
  | inr bad ↦
      let (k, below, good, same) =
        from_try answers n (suc tries) (ap answers (shift tries n) ∙ h) in
      (
        suc k,
        omega (arith, below),
        ap answers (sym (shift tries k)) ∙ good,
        rw (bad, twice tries, same) refl,
      )
]

-- Once a try of making the table succeeds, the loop has ended, at a try that succeeds and not
-- after this one; its sleeps were 1, 2, 4, 8 and 16 seconds, and 30 from then on.
pub ensure_loop-ends :
    (answers : ℕ → Bool) (n : ℕ)
    → answers n ≡ true
    → (k : ℕ) × (k ≤ n)
      × (answers k ≡ true)
      × (ensure_loop answers (suc n) 0 1 ≡ some (backoffs 0 k))
ensure_loop-ends answers n h =
    let (k, below, good, same) = from_try answers n 0 (ap answers (from_zero n) ∙ h) in
    (k, below, ap answers (sym (from_zero k)) ∙ good, same)
  where
    from_zero : (a : ℕ) → 0 + a ≡ a
    from_zero a = omega arith
