-- ===== src/Repo/Key/Collide.antt =====
-- When the keys of backend/src/repo/cache.rs tell queries apart.
use mathlib.Core.List.{append_assoc}
use denis.Base.{
  ◌+◌, ◌≤◌, ◌<◌, true, false, List, [], ◌∷◌, ◌++◌, drop, length, length-append, ◌≡◌, refl, sym, ◌∙◌,
  ap, arith,
}
use denis.Handler.Parser.{Query}
use denis.Repo.Key.{Heapless, TypeNames, key_capacity, prefix, write_pieces, query_key}
use denis.Text.{Str, has_char}

module _ (h : Heapless) where
  write_fits :
      (buf s : Str) (ss : List Str)
      → length buf + length s ≤ key_capacity
      → write_pieces h buf (s ∷ ss) ≡ write_pieces h (buf ++ s) ss
  unfolding write_pieces
  write_fits buf s ss fits = rw (h.push_str_fits key_capacity buf s fits, write_pieces)

  write_full :
      (buf s : Str) (ss : List Str)
      → key_capacity < length buf + length s
      → write_pieces h buf (s ∷ ss) ≡ buf
  unfolding write_pieces
  write_full buf s ss full = rw (h.push_str_full key_capacity buf s full, write_pieces)

  -- The key as it is meant, where the buffer holds it.
  query_key_fits :
      (names : TypeNames) (q : Query)
      → length q.name + length (names.show q.query_type) ≤ 123
      → query_key h names q ≡ prefix ++ (q.name ++ b':' ∷ names.show q.query_type)
  query_key_fits names q fits =
      unfold query_key in
      (write_fits [] prefix _ (omega arith)
        ∙ write_fits prefix q.name _ (omega arith)
        ∙ write_fits (prefix ++ q.name) (b':' ∷ []) _ (omega (arith, length-append prefix q.name))
        ∙ write_fits ((prefix ++ q.name) ++ b':' ∷ []) (names.show q.query_type) _ (
            omega
              (arith, length-append prefix q.name, length-append (prefix ++ q.name) (b':' ∷ [])))
        ∙ unfold write_pieces in simp append_assoc)

  query_key_long :
      (names : TypeNames) (q : Query) → 124 < length q.name → query_key h names q ≡ prefix
  query_key_long names q long =
      unfold query_key in
      (write_fits [] prefix _ (omega arith) ∙ write_full prefix q.name _ (omega arith))

has_colon : (m s : Str) → has_char b':' (m ++ b':' ∷ s) ≡ true
has_colon [] s = ground arith
has_colon (b ∷ m) s = ground (arith, has_colon m s)

-- Texts behind a name: the last colon is the one that was put there.
colon-cancel :
    (m n s t : Str)
    → has_char b':' s ≡ false
    → has_char b':' t ≡ false
    → m ++ b':' ∷ s ≡ n ++ b':' ∷ t
    → (m ≡ n) × (s ≡ t)
colon-cancel [] [] s t hs ht e = (refl, cc)
colon-cancel [] (b ∷ n) s t hs ht e = absurd (ground (arith, has_colon n t))
colon-cancel (a ∷ m) [] s t hs ht e = absurd (ground (arith, has_colon m s))
colon-cancel (a ∷ m) (b ∷ n) s t hs ht e =
    let (same, rest) = colon-cancel m n s t hs ht (cc) in (ground (arith, same), rest)

module _ (h : Heapless) (names : TypeNames) where
  -- Two queries whose names and types fit into the buffer have the same key only if they have the
  -- same name and the types are shown alike.
  pub query_key_injective :
      (p q : Query)
      → length p.name + length (names.show p.query_type) ≤ 123
      → length q.name + length (names.show q.query_type) ≤ 123
      → query_key h names p ≡ query_key h names q
      → (p.name ≡ q.name) × (names.show p.query_type ≡ names.show q.query_type)
  query_key_injective p q fp fq e =
      colon-cancel p.name q.name _ _ (names.show_colon_free p.query_type)
        (names.show_colon_free q.query_type) same
    where
      same : p.name ++ b':' ∷ names.show p.query_type ≡ q.name ++ b':' ∷ names.show q.query_type
      same = ap (drop 4) (sym (query_key_fits h names p fp) ∙ e ∙ query_key_fits h names q fq)

  -- All queries for names of more than 124 bytes share one key, whatever the names and types are.
  pub query_key-long_names :
      (p q : Query)
      → 124 < length p.name
      → 124 < length q.name
      → query_key h names p ≡ query_key h names q
  query_key-long_names p q lp lq = query_key_long h names p lp ∙ sym (query_key_long h names q lq)
