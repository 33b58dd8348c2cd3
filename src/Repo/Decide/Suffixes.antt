-- ===== src/Repo/Decide/Suffixes.antt =====
-- `decide` of backend/src/repo/cache.rs against its meaning: the domains that a name lies under.
use denis.Base.{
  Bool, true, false, not, ◌&&◌, ◌||◌, List, [], ◌∷◌, ◌++◌, any, ◌==◌, ==_iff, Bool-cases, ◌≡◌, refl,
  ap, ◌↔◌, inl, inr, arith,
}
use denis.Text.{Str, dot}
use denis.Repo.Decide.{
  DomainSet, contains, dot_suffixes, any_suffix_loop, any_suffix_match, decide_loop, decide,
}

-- The name is the domain itself or one of its subdomains.
pub data IsUnder (name d : Str) : Type 0 where
  itself : name ≡ d → IsUnder name d
  below : (labels : Str) → name ≡ labels ++ dot ∷ d → IsUnder name d

-- The set holds a domain that the name lies under.
pub record Covers (set : DomainSet) (name : Str) : Type 0 where
  pub domain : Str
  pub held : contains set domain ≡ true
  pub above : IsUnder name domain

matches : DomainSet → Str → Bool
matches set name = contains set name || any (contains set) (dot_suffixes name)

module _ (f : Str → Bool) where
  any-dot_suffixes_sound :
      (name : Str)
      → any f (dot_suffixes name) ≡ true
      → (d : Str) × (labels : Str) × (f d ≡ true) × (name ≡ labels ++ dot ∷ d)
  unfolding dot_suffixes
  any-dot_suffixes_sound [] h = cc
  any-dot_suffixes_sound (b ∷ s) h = elim (Bool-cases (b == dot)) [
    | inl e ↦ elim (Bool-cases (f s)) [
      | inl here ↦ (s, [], here, ap (λ (x : _). x ∷ s) ((==_iff b dot).0 e))
      | inr miss ↦
          let (d, labels, holds, at) = any-dot_suffixes_sound s (ground arith) in
          (d, b ∷ labels, holds, ap (◌∷◌ b) at)
    ]
    | inr e ↦
        let (d, labels, holds, at) = any-dot_suffixes_sound s (ground arith) in
        (d, b ∷ labels, holds, ap (◌∷◌ b) at)
  ]

  any-dot_suffixes_append :
      (labels d : Str) → f d ≡ true → any f (dot_suffixes (labels ++ dot ∷ d)) ≡ true
  unfolding dot_suffixes
  any-dot_suffixes_append [] d h = ground arith
  any-dot_suffixes_append (b ∷ labels) d h = ground (arith, any-dot_suffixes_append labels d h)

matches→Covers : (set : DomainSet) (name : Str) → matches set name ≡ true → Covers set name
unfolding matches
matches→Covers set name h = elim (Bool-cases (contains set name)) [
  | inl e ↦ record { domain = name; held = e; above = itself refl }
  | inr e ↦
      let (d, labels, holds, at) = any-dot_suffixes_sound (contains set) name (ground arith) in
      record { domain = d; held = holds; above = below labels at }
]

IsUnder-matches :
    (set : DomainSet) (name d : Str)
    → contains set d ≡ true
    → IsUnder name d
    → matches set name ≡ true
unfolding matches
IsUnder-matches set name d h (itself e) = ground arith
IsUnder-matches set name d h (below labels e) =
    rw e (ground (arith, any-dot_suffixes_append (contains set) labels d h))

matches_iff : (set : DomainSet) (name : Str) → (matches set name ≡ true) ↔ Covers set name
matches_iff set name =
    (matches→Covers set name, λ c. IsUnder-matches set name c.domain c.held c.above)

any_suffix_loop-any :
    (set : DomainSet) (ss : List Str) → any_suffix_loop set ss ≡ any (contains set) ss
unfolding any_suffix_loop
any_suffix_loop-any set [] = refl
any_suffix_loop-any set (s ∷ ss) = ground (arith, any_suffix_loop-any set ss)

decide_loop-any :
    (block allow : DomainSet) (blocked : Bool) (ss : List Str)
    → decide_loop block allow blocked ss
      ≡ (not (any (contains allow) ss) && (blocked || any (contains block) ss))
unfolding decide_loop
decide_loop-any block allow blocked [] = ground arith
decide_loop-any block allow true (s ∷ ss) = ground (arith, decide_loop-any block allow true ss)
decide_loop-any block allow false (s ∷ ss) =
    ground (arith, decide_loop-any block allow (contains block s) ss)

any-contains-empty : (ss : List Str) → any (contains []) ss ≡ false
unfolding contains
any-contains-empty [] = refl
any-contains-empty (s ∷ ss) = any-contains-empty ss

matches_empty : (name : Str) → matches [] name ≡ false
unfolding matches contains
matches_empty name = any-contains-empty (dot_suffixes name)

any_suffix_match-matches :
    (set : DomainSet) (name : Str) → any_suffix_match set name ≡ matches set name
any_suffix_match-matches [] name = rw matches_empty (unfold any_suffix_match in refl)
any_suffix_match-matches (d ∷ ds) name =
    unfold any_suffix_match matches in
    ground (arith, any_suffix_loop-any (d ∷ ds) (dot_suffixes name))

decide-matches :
    (block allow : DomainSet) (name : Str)
    → decide block allow name ≡ (not (matches allow name) && matches block name)
decide-matches [] allow name = rw matches_empty (unfold decide in ground arith)
decide-matches (b ∷ bs) [] name =
    rw matches_empty (unfold decide in rw any_suffix_match-matches refl)
decide-matches (b ∷ bs) (a ∷ as') name =
    unfold decide matches in
    ground (arith, decide_loop-any (b ∷ bs) (a ∷ as') (contains (b ∷ bs) name) (dot_suffixes name))

-- `any_suffix_match` finds a set's domain that the name equals or is a subdomain of, and nothing
-- else: no partial label and no domain in the middle of the name.
pub any_suffix_match-Covers :
    (set : DomainSet) (name : Str) → (any_suffix_match set name ≡ true) ↔ Covers set name
any_suffix_match-Covers set name = rw any_suffix_match-matches (matches_iff set name)

split_test : (m n : Bool) → (not m && n) ≡ true → (m ≡ false) × (n ≡ true)
split_test m n h = ground arith

-- A name is blocked exactly when a blocked domain covers it and no allowed domain does: the
-- allow list wins at every level, whichever list is empty and in whatever order the levels stand.
pub decide-Covers :
    (block allow : DomainSet) (name : Str)
    → (decide block allow name ≡ true) ↔ (Covers block name × ¬ Covers allow name)
decide-Covers block allow name = rw decide-matches (
  (λ h.
      let (clear, covered) = split_test (matches allow name) (matches block name) h in
      (matches→Covers block name covered, λ c. cc (clear, (matches_iff allow name).1 c))),
  (λ p. elim (Bool-cases (matches allow name)) [
    | inl e ↦ absurd (p.1 (matches→Covers allow name e))
    | inr e ↦ ground (arith, (matches_iff block name).1 p.0)
  ]),
)
