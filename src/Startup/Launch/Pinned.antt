-- ===== src/Startup/Launch/Pinned.antt =====
-- Which core each thread of backend/src/main.rs runs on.
use denis.Base.{
  ℕ, zero, suc, ◌+◌, ◌-◌, ◌≤◌, ◌<◌, Option, none, some, List, [], ◌∷◌, map, length, length-map,
  length-take, get_elem?, take, drop, ◌≡◌, refl, ap, ◌∙◌, sym, arith,
}
use denis.Startup.Launch.{Socket2, flatten, thread_core, spawn_from, spawn_workers, launch}
use denis.Startup.Workers.{pins_from-cores, free_workers}
use denis.Startup.{Cli, monoio, total_cores, tokio_workers, dp_pins, tk_pins}
use denis.Config.{SocketAddr}
use denis.Text.{Str}
use native.Mathlib.Nat.{mod-eq_of_lt}

get_elem?-map-some :
    {Core : Type 0} (xs : List Core) (i : ℕ)
    → i < length xs
    → get_elem? (map some xs) i ≡ some (get_elem? xs i)
get_elem?-map-some [] i h = absurd (omega (arith, h))
get_elem?-map-some (x ∷ xs) zero h = refl
get_elem?-map-some (x ∷ xs) (suc i) h = get_elem?-map-some xs i (omega (arith, h))

get_elem?-take :
    {Core : Type 0} (n : ℕ) (xs : List Core) (i : ℕ)
    → i < n
    → get_elem? (take n xs) i ≡ get_elem? xs i
get_elem?-take zero xs i h = absurd (omega (arith, h))
get_elem?-take (suc n) [] i h = refl
get_elem?-take (suc n) (x ∷ xs) zero h = refl
get_elem?-take (suc n) (x ∷ xs) (suc i) h = get_elem?-take n xs i (omega (arith, h))

get_elem?-drop :
    {Core : Type 0} (n : ℕ) (xs : List Core) (i : ℕ)
    → get_elem? (drop n xs) i ≡ get_elem? xs (n + i)
get_elem?-drop zero xs i = ap (λ (k : ℕ). get_elem? xs k) (omega arith)
get_elem?-drop (suc n) [] i = refl
get_elem?-drop (suc n) (x ∷ xs) i =
    get_elem?-drop n xs i ∙ ap (λ (k : ℕ). get_elem? (x ∷ xs) k) (next n i)
  where
    next : (n i : ℕ) → suc (n + i) ≡ suc n + i
    next n i = omega arith

length-drop : {Core : Type 0} (n : ℕ) (xs : List Core) → length (drop n xs) ≡ length xs - n
length-drop zero xs = omega arith
length-drop (suc n) [] = omega arith
length-drop (suc n) (x ∷ xs) = omega (arith, length-drop n xs)

-- A thread whose number is below the number of pins has the pin of its number.
thread_core-pin :
    {Core : Type 0} (pins : List (Option Core)) (i : ℕ)
    → i < length pins
    → thread_core pins i ≡ some (flatten (get_elem? pins i))
unfolding thread_core
thread_core-pin [] i h = absurd (omega (arith, h))
thread_core-pin (pin ∷ pins) i h =
    ap (λ (k : ℕ). some (flatten (get_elem? (pin ∷ pins) k))) (mod-eq_of_lt h)

-- Threads pinned to some cores in a row.
thread_core-cores :
    {Core : Type 0} (m n : ℕ) (cores : List Core) (i : ℕ)
    → i < m
    → n + m ≤ length cores
    → thread_core (map some (take m (drop n cores))) i ≡ some (get_elem? cores (n + i))
thread_core-cores m n cores i h fits =
    let others = take m (drop n cores) in
    let all_of : length others ≡ m =
      length-take m (drop n cores) ∙ omega (arith, length-drop n cores, fits) in
    thread_core-pin (map some others) i (omega (arith, h, all_of, length-map some others))
    ∙ ap (λ pin. some (flatten pin)) (get_elem?-map-some others i (omega (arith, h, all_of)))
    ∙ ap some (get_elem?-take m (drop n cores) i h ∙ get_elem?-drop n cores i)

module _ (calls : Socket2) (show : ℕ → Str) {Core : Type 0} where
  map-spawn_from :
      (addr : SocketAddr) (id : ℕ) (cores : List (Option Core))
      → map (λ w. w.core) (spawn_from calls show addr id cores) ≡ cores
  unfolding spawn_from
  map-spawn_from addr id [] = refl
  map-spawn_from addr id (core ∷ cores) = ap (◌∷◌ core) (map-spawn_from addr (suc id) cores)

  length-spawn_from :
      (addr : SocketAddr) (id : ℕ) (cores : List (Option Core))
      → length (spawn_from calls show addr id cores) ≡ length cores
  unfolding spawn_from
  length-spawn_from addr id [] = refl
  length-spawn_from addr id (core ∷ cores) = ap suc (length-spawn_from addr (suc id) cores)

  -- On the runtime monoio, where there are more cores than workers for everything else and the
  -- number of workers for queries is not given: the threads of the workers run on the first cores,
  -- one on each; the first threads of tokio, as many as it has workers, run on the cores behind
  -- these, one on each; and there are as many loops of `cold_path` as workers for queries.
  pub launch-cores :
      (cli : Cli) (cores : List Core) (parallelism : Option ℕ) (i : ℕ)
      → cli.dns.runtime ≡ monoio
      → cli.dns.dns_workers ≡ none
      → tokio_workers cli.dns < length cores
      → i < tokio_workers cli.dns
      → (dp : List (Option Core)) × (tk : List (Option Core)) × (dp_pins cli.dns
            (some cores)
            parallelism
          ≡ some dp)
        × (tk_pins cli.dns (some cores) parallelism ≡ some tk)
        × (map (λ w. w.core) (launch calls show cli dp).workers
            ≡ map some (take (length cores - tokio_workers cli.dns) cores))
        × (thread_core tk i ≡ some (get_elem? cores (length cores - tokio_workers cli.dns + i)))
        × ((launch calls show cli dp).cold_paths ≡ length (launch calls show cli dp).workers)
  unfolding dp_pins tk_pins total_cores launch spawn_workers tokio_workers
  launch-cores cli [] parallelism i on free enough h = absurd (omega (arith, enough))
  launch-cores cli (c ∷ cores) parallelism i on free enough h =
      let n = length (c ∷ cores) - tokio_workers cli.dns in
      (
        map some (take n (c ∷ cores)),
        map some (take (tokio_workers cli.dns) (drop n (c ∷ cores))),
        rw (free_workers cli.dns (suc (length cores)) free enough)
            (pins_from-cores c cores 0 n (omega (arith, enough))),
        rw (free_workers cli.dns (suc (length cores)) free enough)
            (pins_from-cores c cores n (tokio_workers cli.dns) (omega (arith, enough))),
        rw on (map-spawn_from cli.dns.dns_bind 0 (map some (take n (c ∷ cores)))),
        thread_core-cores (tokio_workers cli.dns) n (c ∷ cores) i h (omega (arith, enough)),
        rw on (sym (length-spawn_from cli.dns.dns_bind 0 (map some (take n (c ∷ cores))))),
      )
