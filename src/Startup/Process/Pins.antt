-- ===== src/Startup/Process/Pins.antt =====
-- When the pins of the threads of backend/src/main.rs can be computed.
use denis.Base.{
  ℕ, zero, suc, Option, none, some, List, [], ◌∷◌, length, get_elem?, ◌%◌, ◌<◌, ok, err, ◌≡◌, ◌≢◌,
  ◌⊎◌, inl, inr, refl, arith,
}
use denis.Startup.Process.{Host, remainder_by_zero, pins}
use denis.Startup.{
  Cli, DnsArgs, Runtime, tokio, monoio, pin_at, pins_from, tokio_workers, dp_pins, tk_pins,
  datapath_workers, total_cores,
}

module _ {Core : Type 0} where
  -- The panic of the pins needs a list of cores that is there and empty.
  pins_from-some :
      (cores : Option (List Core)) (first n : ℕ)
      → cores ≢ some []
      → (found : List (Option Core)) × (pins_from cores first n ≡ some found)
  unfolding pins_from pin_at
  pins_from-some cores first zero h = ([], refl)
  pins_from-some none first (suc n) h =
      let (rest, e) = pins_from-some none (suc first) n h in (none ∷ rest, rw e refl)
  pins_from-some (some []) first (suc n) h = absurd (h refl)
  pins_from-some (some (c ∷ cores)) first (suc n) h =
      let (rest, e) = pins_from-some (some (c ∷ cores)) (suc first) n h in
      (get_elem? (c ∷ cores) (first % length (c ∷ cores)) ∷ rest, rw e refl)

  abbrev no_cores : Option (List Core)
  no_cores = some []

  pins_from-none : (first n : ℕ) → 0 < n → pins_from no_cores first n ≡ none
  unfolding pins_from pin_at
  pins_from-none first zero h = absurd (omega (arith, h))
  pins_from-none first (suc n) h = refl

  dp_pins-none :
      (args : DnsArgs) (parallelism : Option ℕ) → dp_pins args no_cores parallelism ≡ none
  unfolding dp_pins datapath_workers
  dp_pins-none args parallelism = pins_from-none 0 _ (omega arith)

  pub cores-cases : (cores : Option (List Core)) → (cores ≡ some []) ⊎ (cores ≢ some [])
  cores-cases none = inr (λ e. cc e)
  cores-cases (some []) = inl refl
  cores-cases (some (c ∷ cores)) = inr (λ e. cc e)

  pins_from-cons :
      (cores : Option (List Core)) (first n : ℕ)
      → 0 < n
      → cores ≢ some []
      → (pin : Option Core) × (rest : List (Option Core)) × (pins_from cores first n
          ≡ some (pin ∷ rest))
  unfolding pins_from pin_at
  pins_from-cons cores first zero m h = absurd (omega (arith, m))
  pins_from-cons none first (suc n) m h =
      let (rest, e) = pins_from-some none (suc first) n h in (none, rest, rw e refl)
  pins_from-cons (some []) first (suc n) m h = absurd (h refl)
  pins_from-cons (some (c ∷ cores)) first (suc n) m h =
      let (rest, e) = pins_from-some (some (c ∷ cores)) (suc first) n h in
      (get_elem? (c ∷ cores) (first % length (c ∷ cores)), rest, rw e refl)

  -- There is at least one thread for queries.
  pub pins-ok :
      {Sock : Type 0} (cli : Cli) (host : Host Sock Core)
      → host.cores ≢ some []
      → (pin : Option Core) × (rest : List (Option Core)) × (pins cli host ≡ ok (pin ∷ rest))
  unfolding pins dp_pins tk_pins datapath_workers tokio_workers
  pins-ok cli host h = on_runtime cli.dns.runtime refl
    where
      on_runtime :
          (r : Runtime)
          → cli.dns.runtime ≡ r
          → (pin : Option Core) × (rest : List (Option Core)) × (pins cli host ≡ ok (pin ∷ rest))
      on_runtime tokio e =
          let n = datapath_workers cli.dns (total_cores host.cores host.parallelism) in
          let (pin, rest, d) = pins_from-cons host.cores 0 n (omega arith) h in
          (pin, rest, rw (pins, d, e) refl)
      on_runtime monoio e =
          let n = datapath_workers cli.dns (total_cores host.cores host.parallelism) in
          let (pin, rest, d) = pins_from-cons host.cores 0 n (omega arith) h in
          let (tk, t) = pins_from-some host.cores n (tokio_workers cli.dns) h in
          (pin, rest, rw (pins, d, e, t) refl)

  pub pins-err :
      {Sock : Type 0} (cli : Cli) (host : Host Sock Core)
      → host.cores ≡ some []
      → pins cli host ≡ err remainder_by_zero
  unfolding pins
  pins-err cli host h = rw (pins, h, dp_pins-none cli.dns host.parallelism) refl
