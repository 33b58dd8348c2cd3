-- ===== src/Handler/Parser/Rounds.antt =====
-- One label of a question read by the loop of backend/src/handler/parser.rs.
use mathlib.Core.List.{append_assoc}
use denis.Base.{
  ℕ, ◌+◌, ◌≤◌, List, [], ◌∷◌, ◌++◌, map, Bytes, ok, ◌==◌, if◌then◌else◌, length, length-append,
  get_elem?, get_elem?-prefix, get_range, get_range-append, some, ◌≡◌, ◌≢◌, sym, ◌∙◌, arith,
}
use denis.Text.{dot, to_ascii_lowercase}
use denis.Handler.Parser.{again, length_state, scan_state, round}

-- A label as it can stand in a question: one to 63 bytes, of which the first is not zero.
pub record IsWireLabel (w : Bytes) : Type 0 where
  pub first : ℕ
  pub others : Bytes
  pub bytes : w ≡ first ∷ others
  pub first_ne_zero : first ≢ 0
  pub short : length w ≤ 63

-- Each label behind its length.
abbrev pub encode : List Bytes → Bytes
encode [] = []
encode (w ∷ ws) = length w ∷ (w ++ encode ws)

-- The same packet, cut behind the length byte.
cut_again : (pre w post : Bytes) (n : ℕ) → pre ++ (n ∷ (w ++ post)) ≡ (pre ++ n ∷ []) ++ (w ++ post)
cut_again pre w post n = sym (append_assoc pre (n ∷ []) (w ++ post))

length-snoc : (pre : Bytes) (n : ℕ) → length (pre ++ n ∷ []) ≡ length pre + 1
length-snoc pre n = omega (arith, length-append pre (n ∷ []))

get_elem?-first :
    (pre w : Bytes) (b : ℕ) (bs post : Bytes) (i : ℕ)
    → w ≡ b ∷ bs
    → i ≡ length pre
    → get_elem? (pre ++ (w ++ post)) i ≡ some b
get_elem?-first pre w b bs post i e at = rw e (get_elem?-prefix pre (bs ++ post) b i at)

module _ (packet pre w post : Bytes) (next : ℕ) (idx len : ℕ) (buf : Bytes)
    (split : packet ≡ pre ++ (length w ∷ (w ++ next ∷ post))) (at : idx ≡ length pre)
    (v : IsWireLabel w) where
  pub round_at_length :
      round packet (record { idx = idx; len = len; state = length_state; buf = buf })
      ≡ ok (again (record { idx = idx + 1; len = length w; state = scan_state; buf = buf }))
  unfolding round
  round_at_length =
      let here : get_elem? packet idx ≡ some (length w) =
        rw split (get_elem?-prefix pre (w ++ next ∷ post) (length w) idx at) in
      ground (arith, here, v.short, v.bytes)

  recut : packet ≡ (pre ++ length w ∷ []) ++ (w ++ next ∷ post)
  recut = split ∙ cut_again pre w (next ∷ post) (length w)

  behind : idx + 1 ≡ length (pre ++ length w ∷ [])
  behind = omega (arith, length-snoc pre (length w))

  first_byte : get_elem? packet (idx + 1) ≡ some v.first
  first_byte = rw recut (
      get_elem?-first (pre ++ length w ∷ []) w v.first v.others (next ∷ post) (idx + 1) v.bytes
        behind)

  label_range : get_range packet (idx + 1) (idx + 1 + length w) ≡ some w
  label_range = rw recut (
      get_range-append (pre ++ length w ∷ []) w (next ∷ post) (idx + 1) (idx + 1 + length w) behind
        (omega (arith, behind)))

  next_byte : get_elem? packet (idx + 1 + length w) ≡ some next
  next_byte =
      rw (recut, ← append_assoc (pre ++ length w ∷ []) w (next ∷ post))
        (get_elem?-prefix ((pre ++ length w ∷ []) ++ w) post next (idx + 1 + length w)
          (omega (arith, behind, length-append (pre ++ length w ∷ []) w)))

  pub round_scan :
      length buf + length w + 1 ≤ 255
      → round packet (record { idx = idx + 1; len = length w; state = scan_state; buf = buf })
        ≡ ok (
            again (record {
              idx = idx + 1 + length w;
              len = length w;
              state = length_state;
              buf =
                  if next == 0
                  then buf ++ map to_ascii_lowercase w
                  else (buf ++ map to_ascii_lowercase w) ++ dot ∷ [];
            }))
  unfolding round
  round_scan fits = ground (arith, first_byte, label_range, next_byte, v.first_ne_zero)
