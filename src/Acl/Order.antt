-- ===== src/Acl/Order.antt =====
-- The verdicts of backend/src/acl.rs: the first entry that names the client decides.
use denis.Acl.{
  allow, deny, Networks, AclEntry, Row, entry_of, fetch, first_match, filter_map, decide,
}
use denis.Base.{
  Bool, true, false, not, ◌||◌, Option, none, some, List, [], ◌∷◌, ◌++◌, all, any, ◌≡◌, inl, inr,
  filter, refl, arith, Bool-cases, Option-cases, keep_if, and_true, ap, ◌∙◌,
}

module _ (nets : Networks) where
  abbrev pub matches : nets.Addr → AclEntry nets.Net → Bool
  matches ip e = any (λ n. nets.member n ip) e.networks

  first_match-prefix :
      (pre post : List (AclEntry nets.Net)) (ip : nets.Addr)
      → all (λ e. not (matches ip e)) pre ≡ true
      → first_match nets (pre ++ post) ip ≡ first_match nets post ip
  unfolding first_match
  first_match-prefix [] post ip h = refl
  first_match-prefix (e ∷ pre) post ip h = ground (arith, first_match-prefix pre post ip)

  decide-first_match :
      (pre post : List (AclEntry nets.Net)) (e : AclEntry nets.Net) (ip : nets.Addr)
      → decide nets (pre ++ e ∷ post) ip ≡ first_match nets (pre ++ e ∷ post) ip
  unfolding decide
  decide-first_match [] post e ip = refl
  decide-first_match (x ∷ pre) post e ip = refl

  -- The first entry with a network that the client lies in decides, whatever entries follow it.
  pub decide-prefix :
      (pre post : List (AclEntry nets.Net)) (e : AclEntry nets.Net) (ip : nets.Addr)
      → all (λ x. not (matches ip x)) pre ≡ true
      → matches ip e ≡ true
      → decide nets (pre ++ e ∷ post) ip ≡ e.action
  unfolding first_match
  decide-prefix pre post e ip h hit =
      rw (decide-first_match pre post e ip, first_match-prefix pre (e ∷ post) ip h, hit) refl

  first_match-deny :
      (es : List (AclEntry nets.Net)) (ip : nets.Addr)
      → all (λ x. not (matches ip x)) es ≡ true
      → first_match nets es ip ≡ deny
  unfolding first_match
  first_match-deny [] ip h = refl
  first_match-deny (e ∷ es) ip h = ground (arith, first_match-deny es ip)

  -- Where there are entries, a client that none of them names is denied.
  pub decide-deny :
      (e : AclEntry nets.Net) (es : List (AclEntry nets.Net)) (ip : nets.Addr)
      → all (λ x. not (matches ip x)) (e ∷ es) ≡ true
      → decide nets (e ∷ es) ip ≡ deny
  unfolding decide
  decide-deny e es ip h = first_match-deny (e ∷ es) ip h

  abbrev is_none : Option (AclEntry nets.Net) → Bool
  is_none none = true
  is_none (some _) = false

  -- The enabled rows.
  abbrev kept : List Row → List Row
  kept rows = filter (λ r. r.enabled) rows

  -- A row that makes no entry: it is disabled, or none of its networks can be read.
  abbrev pub ignored : Row → Bool
  ignored r = not r.enabled || is_none (entry_of nets r)

  keep : (r : Row) (rows : List Row) → r.enabled ≡ true → kept (r ∷ rows) ≡ r ∷ kept rows
  keep r rows e = ap (λ b. keep_if b r (kept rows)) e

  skip : (r : Row) (rows : List Row) → r.enabled ≡ false → kept (r ∷ rows) ≡ kept rows
  skip r rows e = ap (λ b. keep_if b r (kept rows)) e

  filter_map-skip :
      (r : Row) (rows : List Row)
      → entry_of nets r ≡ none
      → filter_map (entry_of nets) (r ∷ rows) ≡ filter_map (entry_of nets) rows
  filter_map-skip r rows e = rw (filter_map, e) refl

  all_tail : (r : Row) (rows : List Row) → all ignored (r ∷ rows) ≡ true → all ignored rows ≡ true
  all_tail r rows h = (and_true (ignored r) (all ignored rows) h).1

  ignored_on :
      (r : Row) (a : AclEntry nets.Net)
      → r.enabled ≡ true
      → entry_of nets r ≡ some a
      → ignored r ≡ false
  ignored_on r a on e =
      ap (λ b. not b || is_none (entry_of nets r)) on ∙ ap (λ o. false || is_none o) e

  none_left :
      (rows : List Row) → all ignored rows ≡ true → filter_map (entry_of nets) (kept rows) ≡ []
  none_left [] h = refl
  none_left (r ∷ rows) h =
      let rest = none_left rows (all_tail r rows h) in
      elim (Bool-cases r.enabled) [
        | inr off ↦ ap (filter_map (entry_of nets)) (skip r rows off) ∙ rest
        | inl on ↦ elim (Option-cases (entry_of nets r)) [
          | inl e ↦
              ap (filter_map (entry_of nets)) (keep r rows on)
              ∙ (filter_map-skip r (kept rows) e ∙ rest)
          | inr (a, e) ↦
              absurd (cc ((and_true (ignored r) (all ignored rows) h).0, ignored_on r a on e))
        ]
      ]

  -- A list whose rows are all disabled, or name no network that can be read, lets every client in:
  -- a row that denies a mistyped network, and is the only one, denies nobody.
  pub fetch-allows :
      (rows : List Row) (entries : List (AclEntry nets.Net)) (ip : nets.Addr)
      → all ignored rows ≡ true
      → fetch nets (some rows) ≡ some entries
      → decide nets entries ip ≡ allow
  unfolding decide fetch
  fetch-allows rows entries ip h e =
      let got = rw (none_left rows h) at e in let same : entries ≡ [] = cc got in rw same refl
