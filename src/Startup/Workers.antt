-- ===== src/Startup/Workers.antt =====
-- Which cores the workers of backend/src/main.rs run on.
use denis.Base.{
  ℕ, zero, suc, ◌+◌, ◌-◌, ◌≤◌, ◌<◌, none, some, List, [], ◌∷◌, map, length, get_elem?, take, drop,
  ◌≡◌, refl, ap, arith,
}
use native.Mathlib.Nat.{mod-eq_of_lt}
use denis.Startup.{DnsArgs, pin_at, pins_from, tokio_workers, datapath_workers}

pub free_workers :
    (args : DnsArgs) (total : ℕ)
    → args.dns_workers ≡ none
    → tokio_workers args < total
    → datapath_workers args total ≡ total - tokio_workers args
unfolding datapath_workers tokio_workers
free_workers args total free enough = rw free (omega (arith, enough))

module _ {Core : Type 0} where
  -- An index within a list splits the rest of the list from there.
  drop-get :
      (cores : List Core) (i : ℕ)
      → i < length cores
      → (c : Core) × (get_elem? cores i ≡ some c) × (drop i cores ≡ c ∷ drop (suc i) cores)
  drop-get [] i h = absurd (omega (arith, h))
  drop-get (c ∷ cores) zero h = (c, refl, refl)
  drop-get (c ∷ cores) (suc i) h = drop-get cores i (omega (arith, h))

  pin-core :
      (c : Core) (cores : List Core) (i : ℕ)
      → i < length (c ∷ cores)
      → pin_at (some (c ∷ cores)) i ≡ some (get_elem? (c ∷ cores) i)
  unfolding pin_at
  pin-core c cores i h = ap (λ (k : ℕ). some (get_elem? (c ∷ cores) k)) (mod-eq_of_lt h)

  -- The pins from a number on, where the cores suffice, are the cores from there on.
  pub pins_from-cores :
      (c : Core) (cores : List Core) (first n : ℕ)
      → first + n ≤ length (c ∷ cores)
      → pins_from (some (c ∷ cores)) first n ≡ some (map some (take n (drop first (c ∷ cores))))
  unfolding pins_from
  pins_from-cores c cores first zero h = refl
  pins_from-cores c cores first (suc n) h =
      let (core, found, split) = drop-get (c ∷ cores) first (omega (arith, h)) in
      rw
        (
          pin-core c cores first (omega (arith, h)),
          found,
          pins_from-cores c cores (suc first) n (omega (arith, h)),
          split,
        )
        refl
