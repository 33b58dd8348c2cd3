-- ===== src/Base/Lists.antt =====
-- Lists measured and indexed by native numbers, under the library's names, and tests over lists.
use denis.Base.Tests.{leb, le→leb, if◌then◌else◌}
use Prim.Native.Nat.{ℕ, zero, suc, ◌+◌, ◌-◌, ◌≤◌, ◌<◌, min}
use mathlib.Core.Path.{◌≡◌, refl, sym, ap, ◌∙◌}
use mathlib.Core.Bool.{Bool, true, false, ◌&&◌, ◌||◌}
use mathlib.Core.List.{List, [], ◌∷◌, ◌++◌, map}
use mathlib.Core.Option.{Option, none, some}
use native.Mathlib.Omega.{arith}

suc_add : (a b : ℕ) → suc (a + b) ≡ suc a + b
suc_add a b = omega arith

module _ {ℓ} {A : Type ℓ} where
  abbrev pub length : List A → ℕ
  length [] = 0
  length (x ∷ xs) = suc (length xs)

  abbrev pub get_elem? : List A → ℕ → Option A
  get_elem? [] i = none
  get_elem? (x ∷ xs) zero = some x
  get_elem? (x ∷ xs) (suc i) = get_elem? xs i

  -- A write out of bounds changes nothing.
  abbrev pub set : List A → ℕ → A → List A
  set [] i v = []
  set (x ∷ xs) zero v = v ∷ xs
  set (x ∷ xs) (suc i) v = x ∷ set xs i v

  abbrev pub take : ℕ → List A → List A
  take zero xs = []
  take (suc n) [] = []
  take (suc n) (x ∷ xs) = x ∷ take n xs

  abbrev pub drop : ℕ → List A → List A
  drop zero xs = xs
  drop (suc n) [] = []
  drop (suc n) (x ∷ xs) = drop n xs

  abbrev pub all : (A → Bool) → List A → Bool
  all p [] = true
  all p (x ∷ xs) = p x && all p xs

  abbrev pub any : (A → Bool) → List A → Bool
  any p [] = false
  any p (x ∷ xs) = p x || any p xs

  -- A predicate on every element.
  abbrev pub All {κ} : (A → Type κ) → List A → Type κ
  All P [] = Unit
  All P (x ∷ xs) = P x × All P xs

  abbrev pub keep_if : Bool → A → List A → List A
  keep_if true x xs = x ∷ xs
  keep_if false x xs = xs

  -- `iter().filter(p)`; the library's takes a decision.
  abbrev pub filter : (A → Bool) → List A → List A
  filter p [] = []
  filter p (x ∷ xs) = keep_if (p x) x (filter p xs)

  pub length-append : (xs ys : List A) → length (xs ++ ys) ≡ length xs + length ys
  length-append [] ys = omega arith
  length-append (x ∷ xs) ys = omega (arith, length-append xs ys)

module _ {ℓ} {A : Type ℓ} where
  pub length-set : (xs : List A) (i : ℕ) (v : A) → length (set xs i v) ≡ length xs
  length-set [] i v = refl
  length-set (x ∷ xs) zero v = refl
  length-set (x ∷ xs) (suc i) v = ap suc (length-set xs i v)

  pub length-take : (n : ℕ) (xs : List A) → length (take n xs) ≡ min n (length xs)
  length-take zero xs = omega arith
  length-take (suc n) [] = omega arith
  length-take (suc n) (x ∷ xs) = omega (arith, length-take n xs)

  pub take-all : (n : ℕ) (xs : List A) → length xs ≤ n → take n xs ≡ xs
  take-all zero [] h = refl
  take-all zero (x ∷ xs) h = elim h [ ]
  take-all (suc n) [] h = refl
  take-all (suc n) (x ∷ xs) h = ap (◌∷◌ x) (take-all n xs (omega arith))

  pub take-append : (xs ys : List A) → take (length xs) (xs ++ ys) ≡ xs
  take-append [] ys = refl
  take-append (x ∷ xs) ys = ap (◌∷◌ x) (take-append xs ys)

  pub drop-append : (xs ys : List A) → drop (length xs) (xs ++ ys) ≡ ys
  drop-append [] ys = refl
  drop-append (x ∷ xs) ys = drop-append xs ys

  pub get_elem?-lt : (xs : List A) (i : ℕ) {a : A} → get_elem? xs i ≡ some a → i < length xs
  get_elem?-lt [] i h = cc
  get_elem?-lt (x ∷ xs) zero h = omega arith
  get_elem?-lt (x ∷ xs) (suc i) h = omega (arith, get_elem?-lt xs i h)

  pub get_elem?-append : (xs ys : List A) (x : A) → get_elem? (xs ++ x ∷ ys) (length xs) ≡ some x
  get_elem?-append [] ys x = refl
  get_elem?-append (z ∷ xs) ys x = get_elem?-append xs ys x

  pub all-append :
      (p : A → Bool) (xs ys : List A) → all p xs ≡ true → all p ys ≡ true → all p (xs ++ ys) ≡ true
  all-append p [] ys h k = k
  all-append p (x ∷ xs) ys h k = ground (arith, all-append p xs ys)

  pub length-filter-le : (p : A → Bool) (xs : List A) → length (filter p xs) ≤ length xs
  length-filter-le p [] = omega arith
  length-filter-le p (x ∷ xs) = ground (arith, length-filter-le p xs)

  pub all-filter : (p : A → Bool) (xs : List A) → all p (filter p xs) ≡ true
  all-filter p [] = refl
  all-filter p (x ∷ xs) = ground (arith, all-filter p xs)

  pub filter-all : (p : A → Bool) (xs : List A) → all p xs ≡ true → filter p xs ≡ xs
  filter-all p [] h = refl
  filter-all p (x ∷ xs) h = ground (arith, filter-all p xs)

  pub length-map {κ} : {B : Type κ} (f : A → B) (xs : List A) → length (map f xs) ≡ length xs
  length-map f [] = refl
  length-map f (x ∷ xs) = ap suc (length-map f xs)

  -- From a test on every element to a predicate on every element, and back.
  pub all→All {κ} :
      (p : A → Bool) (P : A → Type κ)
      → ((x : A) → p x ≡ true → P x)
      → (xs : List A) → all p xs ≡ true
      → All P xs
  all→All p P f [] h = tt
  all→All p P f (x ∷ xs) h = (f x (ground arith), all→All p P f xs (ground arith))

  pub All→all {κ} :
      (p : A → Bool) (P : A → Type κ)
      → ((x : A) → P x → p x ≡ true)
      → (xs : List A) → All P xs
      → all p xs ≡ true
  All→all p P f [] h = refl
  All→all p P f (x ∷ xs) h = ground (arith, f x h.0, All→all p P f xs h.1)

  pub All-map {κ μ} :
      {P : A → Type κ} {Q : A → Type μ}
      → ((x : A) → P x → Q x)
      → (xs : List A) → All P xs
      → All Q xs
  All-map f [] h = tt
  All-map f (x ∷ xs) h = (f x h.0, All-map f xs h.1)

  -- `data.get(a..b)`: nothing when the range does not lie within the list.
  abbrev pub get_range : List A → ℕ → ℕ → Option (List A)
  get_range xs a b = if leb a b && leb b (length xs) then some (take (b - a) (drop a xs)) else none

  -- The range behind a prefix, where the offsets are known by equations.
  pub get_range-append :
      (pre w post : List A) (a b : ℕ)
      → a ≡ length pre
      → b ≡ length pre + length w
      → get_range (pre ++ (w ++ post)) a b ≡ some w
  get_range-append pre w post a b ea eb = rw (ea, eb, le→leb _ _ low, le→leb _ _ high, cut) refl
    where
      low : length pre ≤ length pre + length w
      low = omega arith

      high : length pre + length w ≤ length (pre ++ (w ++ post))
      high = omega (arith, length-append pre (w ++ post), length-append w post)

      cut : take (length pre + length w - length pre) (drop (length pre) (pre ++ (w ++ post))) ≡ w
      cut =
          let e : length pre + length w - length pre ≡ length w = omega arith in
          rw (e, drop-append pre (w ++ post)) (take-append w post)

  pub get_elem?-prefix :
      (pre post : List A) (x : A) (i : ℕ) → i ≡ length pre → get_elem? (pre ++ x ∷ post) i ≡ some x
  get_elem?-prefix pre post x i e = rw e (get_elem?-append pre post x)

  pub take-behind :
      (pre post : List A) (n : ℕ)
      → length pre ≤ n
      → take n (pre ++ post) ≡ pre ++ take (n - length pre) post
  take-behind [] post n h = let e : n - 0 ≡ n = omega arith in rw e refl
  take-behind (x ∷ pre) post zero h = elim h [ ]
  take-behind (x ∷ pre) post (suc n) h =
      let e : suc n - suc (length pre) ≡ n - length pre = omega arith in
      rw e (ap (◌∷◌ x) (take-behind pre post n (omega arith)))

  pub any-append : (p : A → Bool) (xs ys : List A) → any p (xs ++ ys) ≡ (any p xs || any p ys)
  any-append p [] ys = refl
  any-append p (x ∷ xs) ys = ground (arith, any-append p xs ys)

  pub take-append-drop : (n : ℕ) (xs : List A) → take n xs ++ drop n xs ≡ xs
  take-append-drop zero xs = refl
  take-append-drop (suc n) [] = refl
  take-append-drop (suc n) (x ∷ xs) = ap (◌∷◌ x) (take-append-drop n xs)

  pub length-drop-le : (n : ℕ) (xs : List A) → length (drop n xs) + min n (length xs) ≡ length xs
  length-drop-le zero xs = omega arith
  length-drop-le (suc n) [] = omega arith
  length-drop-le (suc n) (x ∷ xs) = omega (arith, length-drop-le n xs)

  take-nil : (n : ℕ) → take {A = A} n [] ≡ []
  take-nil zero = refl
  take-nil (suc n) = refl

  drop-nil : (n : ℕ) → drop {A = A} n [] ≡ []
  drop-nil zero = refl
  drop-nil (suc n) = refl

  pub take-add : (n m : ℕ) (xs : List A) → take n xs ++ take m (drop n xs) ≡ take (n + m) xs
  take-add zero m xs = ap (λ (k : ℕ). take k xs) (omega arith)
  take-add (suc n) m [] = rw (take-nil m, take-nil (suc n + m)) refl
  take-add (suc n) m (x ∷ xs) =
      ap (◌∷◌ x) (take-add n m xs) ∙ ap (λ (k : ℕ). take k (x ∷ xs)) (suc_add n m)

  pub drop-add : (n m : ℕ) (xs : List A) → drop (n + m) xs ≡ drop m (drop n xs)
  drop-add zero m xs = ap (λ (k : ℕ). drop k xs) (omega arith)
  drop-add (suc n) m [] = rw (drop-nil m, drop-nil (suc n + m)) refl
  drop-add (suc n) m (x ∷ xs) =
      ap (λ (k : ℕ). drop k (x ∷ xs)) (sym (suc_add n m)) ∙ drop-add n m xs
