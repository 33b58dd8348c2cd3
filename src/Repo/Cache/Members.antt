-- ===== src/Repo/Cache/Members.antt =====
-- The sets of backend/src/repo/cache.rs by their members.
use denis.Base.{
  ℕ, zero, suc, ◌≤◌, Bool, true, not, ◌&&◌, ◌||◌, some, List, [], ◌∷◌, ◌++◌, map, Bool-cases,
  length, take, drop, take-append-drop, any-append, length-drop-le, ◌≡◌, refl, ap, ◌∙◌, arith, inl,
  inr,
}
use denis.Repo.Cache.{insert, remove, cow_insert, chunks_fuel, chunks, load_rows}
use denis.Repo.Decide.{DomainSet, contains}
use denis.Text.{Str, str_eq, str_eq_iff}

str_eq_comm : (a b : Str) → str_eq a b ≡ str_eq b a
str_eq_comm a b = ground (arith, str_eq_iff a b, str_eq_iff b a)

contains_eq : (s : DomainSet) (a b : Str) → str_eq a b ≡ true → contains s a ≡ contains s b
contains_eq s a b h = ap (contains s) ((str_eq_iff a b).0 h)

pub contains-insert :
    (d : Str) (set : DomainSet) (e : Str)
    → contains (insert d set) e ≡ (contains set e || str_eq e d)
contains-insert d set e = elim (Bool-cases (contains set d)) [
  | inl old ↦ unfold insert in rw old (ground (arith, contains_eq set e d))
  | inr new ↦ unfold insert in rw new (unfold contains in ground arith)
]

pub contains-remove :
    (d : Str) (set : DomainSet) (e : Str)
    → contains (remove d set) e ≡ (contains set e && not (str_eq e d))
unfolding remove contains
contains-remove d [] e = refl
contains-remove d (x ∷ set) e = ground (
  arith,
  contains-remove d set e,
  str_eq_comm d x,
  str_eq_comm d e,
  str_eq_iff e x,
  str_eq_iff d x,
  str_eq_iff e d,
)

pub contains-cons :
    (x : Str) (xs : List Str) (y : Str) → contains (x ∷ xs) y ≡ (str_eq y x || contains xs y)
unfolding contains
contains-cons x xs y = refl

pub or_regroup : (a b c : Bool) → ((a || b) || c) ≡ (a || (b || c))
or_regroup a b c = ground arith

-- Storing a copy with the domains added adds those and nothing else.
pub contains-cow_insert :
    (set : DomainSet) (ds : List Str) (e : Str)
    → contains (cow_insert set ds) e ≡ (contains set e || contains ds e)
unfolding cow_insert
contains-cow_insert set [] e = unfold contains in ground arith
contains-cow_insert set (d ∷ ds) e =
    contains-cow_insert (insert d set) ds e
    ∙ rw (contains-insert d set e, contains-cons d ds e)
        (or_regroup (contains set e) (str_eq e d) (contains ds e))

pub contains-append :
    (xs ys : List Str) (e : Str) → contains (xs ++ ys) e ≡ (contains xs e || contains ys e)
unfolding contains
contains-append xs ys e = any-append (str_eq e) xs ys

abbrev pub concat : List (List Str) → List Str
concat [] = []
concat (c ∷ cs) = c ++ concat cs

concat-chunks_fuel :
    (fuel size : ℕ) (xs : List Str)
    → 1 ≤ size
    → length xs ≤ fuel
    → concat (chunks_fuel fuel size xs) ≡ xs
unfolding chunks_fuel
concat-chunks_fuel zero size [] h k = refl
concat-chunks_fuel zero size (x ∷ xs) h k = absurd (omega arith)
concat-chunks_fuel (suc fuel) size [] h k = refl
concat-chunks_fuel (suc fuel) size (x ∷ xs) h k =
    ap (◌++◌ (take size (x ∷ xs))) (
      concat-chunks_fuel fuel size (drop size (x ∷ xs)) h
        (omega (arith, length-drop-le size (x ∷ xs))))
    ∙ take-append-drop size (x ∷ xs)

-- The chunks are the list again, in order.
pub concat-chunks : (size : ℕ) (xs : List Str) → 1 ≤ size → concat (chunks size xs) ≡ xs
unfolding chunks
concat-chunks size xs h = concat-chunks_fuel (length xs) size xs h (omega arith)

-- Rows that are all read make the set of their domains.
pub load_rows-some :
    (set : DomainSet) (rows : List Str) → load_rows set (map some rows) ≡ cow_insert set rows
unfolding load_rows cow_insert
load_rows-some set [] = refl
load_rows-some set (r ∷ rows) = load_rows-some (insert r set) rows
