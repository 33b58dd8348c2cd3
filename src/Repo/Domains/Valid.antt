-- ===== src/Repo/Domains/Valid.antt =====
-- `is_valid_domain` of backend/src/repo/cache.rs against its meaning: labels joined by dots.
use denis.Base.{
  ℕ, ◌≤◌, Bool, true, false, not, ◌||◌, List, [], ◌∷◌, all, All, all→All, All→all, All-map,
  if◌then◌else◌, ap, ◌∙◌, ltb, length, ◌≡◌, ◌↔◌, refl, sym, arith,
}
use denis.Repo.Decide.{is_empty}
use denis.Repo.Domains.{is_label_byte, is_label, is_valid_domain}
use denis.Text.Split.{join-split, split-join, length-split, has_char-join}
use denis.Text.{Str, dot, has_char, split, join}

-- A letter, a digit, a hyphen or an underscore.
pub data IsLabelByte (b : ℕ) : Type 0 where
  lower : b'a' ≤ b → b ≤ b'z' → IsLabelByte b
  upper : b'A' ≤ b → b ≤ b'Z' → IsLabelByte b
  digit : b'0' ≤ b → b ≤ b'9' → IsLabelByte b
  hyphen : b ≡ b'-' → IsLabelByte b
  underscore : b ≡ b'_' → IsLabelByte b

-- One to 63 such bytes.
pub record IsLabel (w : Str) : Type 0 where
  pub some_byte : 1 ≤ length w
  pub short : length w ≤ 63
  pub bytes : All IsLabelByte w

-- Two labels or more with dots between them, in 253 bytes at most.
pub record IsDomain (d : Str) : Type 0 where
  pub first : Str
  pub second : Str
  pub others : List Str
  pub labels : All IsLabel (first ∷ second ∷ others)
  pub joined : d ≡ join dot (first ∷ second ∷ others)
  pub fits : length d ≤ 253

is_label_byte→IsLabelByte : (b : ℕ) → is_label_byte b ≡ true → IsLabelByte b
is_label_byte→IsLabelByte b h = grind (arith, lower, upper, digit, hyphen, underscore)

IsLabelByte→is_label_byte : (b : ℕ) → IsLabelByte b → is_label_byte b ≡ true
IsLabelByte→is_label_byte b (lower h k) = ground arith
IsLabelByte→is_label_byte b (upper h k) = ground arith
IsLabelByte→is_label_byte b (digit h k) = ground arith
IsLabelByte→is_label_byte b (hyphen h) = ground arith
IsLabelByte→is_label_byte b (underscore h) = ground arith

is_label→IsLabel : (w : Str) → is_label w ≡ true → IsLabel w
is_label→IsLabel [] h = cc
is_label→IsLabel (b ∷ w) h = record {
  some_byte = omega arith;
  short = ground arith;
  bytes = all→All is_label_byte IsLabelByte is_label_byte→IsLabelByte (b ∷ w) (ground arith);
}

IsLabel→is_label : (w : Str) → IsLabel w → is_label w ≡ true
IsLabel→is_label [] h = absurd (omega arith)
IsLabel→is_label (b ∷ w) h =
    ground
      (arith, h.short, All→all is_label_byte IsLabelByte IsLabelByte→is_label_byte (b ∷ w) h.bytes)

dot_free : (w : Str) → All IsLabelByte w → has_char dot w ≡ false
dot_free [] h = refl
dot_free (b ∷ w) h = ground (arith, IsLabelByte→is_label_byte b h.0, dot_free w h.1)

of_pieces :
    (d : Str) (ws : List Str)
    → split dot d ≡ ws
    → 2 ≤ length ws
    → all is_label ws ≡ true
    → length d ≤ 253
    → IsDomain d
of_pieces d [] e two h fits = absurd (omega arith)
of_pieces d (w ∷ []) e two h fits = absurd (omega arith)
of_pieces d (w ∷ v ∷ ws) e two h fits = record {
  first = w;
  second = v;
  others = ws;
  labels = all→All is_label IsLabel is_label→IsLabel (w ∷ v ∷ ws) h;
  joined = sym (join-split dot d) ∙ ap (join dot) e;
  fits = fits;
}

tests_passed :
    (empty long dotted labels : Bool)
    → (if empty || long || not dotted then false else labels) ≡ true
    → (empty ≡ false) × (long ≡ false) × (dotted ≡ true) × (labels ≡ true)
tests_passed empty long dotted labels h = ground arith

is_valid_domain→IsDomain : (d : Str) → is_valid_domain d ≡ true → IsDomain d
is_valid_domain→IsDomain d h =
    let (_, long, dotted, labels) = passed in
    of_pieces d (split dot d) refl (length-split dot d dotted) labels (ground arith)
  where
    passed :
        (is_empty d ≡ false)
        × (ltb 253 (length d) ≡ false)
        × (has_char dot d ≡ true)
        × (all is_label (split dot d) ≡ true)
    passed = tests_passed _ _ _ _ (unfold is_valid_domain in h)

tests_pass :
    (d : Str)
    → length d ≤ 253
    → has_char dot d ≡ true
    → all is_label (split dot d) ≡ true
    → is_valid_domain d ≡ true
unfolding is_valid_domain
tests_pass [] fits dotted labels = cc
tests_pass (b ∷ d) fits dotted labels = rw (dotted, labels) (ground arith)

-- Splitting a domain at its dots gives its labels back.
pub split-IsDomain : (d : Str) (v : IsDomain d) → split dot d ≡ v.first ∷ v.second ∷ v.others
split-IsDomain d v = rw v.joined (
    split-join dot v.first (v.second ∷ v.others)
      (All-map (λ w l. dot_free w l.bytes) (v.first ∷ v.second ∷ v.others) v.labels))

IsDomain→is_valid_domain : (d : Str) → IsDomain d → is_valid_domain d ≡ true
IsDomain→is_valid_domain d v =
    tests_pass d v.fits (rw v.joined (has_char-join dot v.first v.second v.others)) (
      rw (split-IsDomain d v)
        (All→all is_label IsLabel IsLabel→is_label (v.first ∷ v.second ∷ v.others) v.labels))

-- `is_valid_domain` accepts exactly the domains: two labels or more, joined by dots, each of one
-- to 63 letters, digits, hyphens and underscores, in at most 253 bytes.
pub is_valid_domain-IsDomain : (d : Str) → (is_valid_domain d ≡ true) ↔ IsDomain d
is_valid_domain-IsDomain d = (is_valid_domain→IsDomain d, IsDomain→is_valid_domain d)
