-- ===== src/Base/Tasks.antt =====
-- Lists of tasks that run side by side: one is picked from anywhere, and tasks are counted.
use Prim.Native.Nat.{ℕ, zero, suc, ◌+◌, ◌<◌}
use mathlib.Core.Path.{◌≡◌, refl}
use mathlib.Core.Bool.{Bool, true, false}
use mathlib.Core.Option.{Option, none, some}
use mathlib.Core.List.{List, [], ◌∷◌, ◌++◌}
use native.Mathlib.Omega.{arith}
use denis.Base.Lists.{All, length, get_elem?}

abbrev pub one : Bool → ℕ
one true = 1
one false = 0

module _ {ℓ} {A : Type ℓ} where
  -- The task numbered i, and the others.
  abbrev pub pick : ℕ → List A → Option A × List A
  pick i [] = (none, [])
  pick zero (t ∷ ts) = (some t, ts)
  pick (suc i) (t ∷ ts) = let (found, others) = pick i ts in (found, t ∷ others)

  -- How many elements pass a test.
  abbrev pub count : (A → Bool) → List A → ℕ
  count p [] = 0
  count p (x ∷ xs) = one (p x) + count p xs

  pub pick-count :
      (p : A → Bool) (i : ℕ) (xs : List A) (x : A)
      → (pick i xs).0 ≡ some x
      → count p xs ≡ one (p x) + count p (pick i xs).1
  pick-count p i [] x h = cc
  pick-count p zero (y ∷ ys) x h = rw (the y x h) refl
    where
      the : (a b : A) → some a ≡ some b → a ≡ b
      the a b e = cc
  pick-count p (suc i) (y ∷ ys) x h = omega (arith, pick-count p i ys x h)

  pub pick-All {κ} : (P : A → Type κ) (i : ℕ) (xs : List A) → All P xs → All P (pick i xs).1
  pick-All P i [] h = h
  pick-All P zero (y ∷ ys) h = h.1
  pick-All P (suc i) (y ∷ ys) h = (h.0, pick-All P i ys h.1)

  pub picked {κ} :
      (P : A → Type κ) (i : ℕ) (xs : List A) (x : A) → All P xs → (pick i xs).0 ≡ some x → P x
  picked P i [] x h e = absurd (cc e)
  picked P zero (y ∷ ys) x h e = rw (← the y x e) h.0
    where
      the : (a b : A) → some a ≡ some b → a ≡ b
      the a b e = cc
  picked P (suc i) (y ∷ ys) x h e = picked P i ys x h.1 e

  pub All-snoc {κ} : (P : A → Type κ) (xs : List A) (x : A) → All P xs → P x → All P (xs ++ x ∷ [])
  All-snoc P [] x h k = (k, tt)
  All-snoc P (y ∷ ys) x h k = (h.0, All-snoc P ys x h.1 k)

  pub count-snoc :
      (p : A → Bool) (xs : List A) (x : A) → count p (xs ++ x ∷ []) ≡ count p xs + one (p x)
  count-snoc p [] x = omega arith
  count-snoc p (y ∷ ys) x = omega (arith, count-snoc p ys x)

  -- What is at an index stays there when the list grows.
  pub get_elem?-grows :
      (xs ys : List A) (i : ℕ) (x : A) → get_elem? xs i ≡ some x → get_elem? (xs ++ ys) i ≡ some x
  get_elem?-grows [] ys i x h = cc
  get_elem?-grows (y ∷ xs) ys zero x h = h
  get_elem?-grows (y ∷ xs) ys (suc i) x h = get_elem?-grows xs ys i x h

  pub count-ext {κ} :
      (P : A → Type κ) (p q : A → Bool)
      → ((x : A) → P x → p x ≡ q x)
      → (xs : List A) → All P xs
      → count p xs ≡ count q xs
  count-ext P p q same [] h = refl
  count-ext P p q same (x ∷ xs) h =
      let tail = count-ext P p q same xs h.1 in rw (same x h.0) (omega (arith, tail))

  pub get_elem?-before :
      (xs ys : List A) (i : ℕ) → i < length xs → get_elem? (xs ++ ys) i ≡ get_elem? xs i
  get_elem?-before [] ys i h = absurd (omega (arith, h))
  get_elem?-before (x ∷ xs) ys zero h = refl
  get_elem?-before (x ∷ xs) ys (suc i) h = get_elem?-before xs ys i (omega (arith, h))
