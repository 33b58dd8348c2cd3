-- ===== src/Text/Split.antt =====
-- `split` and `join` undo one another.
use denis.Base.{
  ℕ, ◌≤◌, true, false, List, [], ◌∷◌, ◌++◌, All, length, ◌≡◌, ◌≢◌, refl, ap, ◌∙◌, arith,
}
use denis.Text.{Str, has_char, split, join, push_front}

split-ne_nil : (c : ℕ) (s : Str) → split c s ≢ []
unfolding split
split-ne_nil c [] h = cc
split-ne_nil c (b ∷ s) h = ground (arith, push_front-ne_nil b (split c s))
  where
    push_front-ne_nil : (x : ℕ) (ws : List Str) → push_front x ws ≢ []
    push_front-ne_nil x [] e = cc
    push_front-ne_nil x (w ∷ ws) e = cc

join-push_front : (c b : ℕ) (ws : List Str) → ws ≢ [] → join c (push_front b ws) ≡ b ∷ join c ws
join-push_front c b [] h = absurd (h refl)
join-push_front c b (w ∷ []) h = refl
join-push_front c b (w ∷ v ∷ ws) h = refl

join_nil : (c : ℕ) (ws : List Str) → ws ≢ [] → join c ([] ∷ ws) ≡ c ∷ join c ws
join_nil c [] h = absurd (h refl)
join_nil c (w ∷ ws) h = refl

pub join-split : (c : ℕ) (s : Str) → join c (split c s) ≡ s
unfolding split
join-split c [] = refl
join-split c (b ∷ s) = ground (
  arith,
  join-split c s,
  join_nil c (split c s) (split-ne_nil c s),
  join-push_front c b (split c s) (split-ne_nil c s),
)

split-no_char : (c : ℕ) (w : Str) → has_char c w ≡ false → split c w ≡ w ∷ []
unfolding split
split-no_char c [] h = refl
split-no_char c (b ∷ w) h = ground (arith, split-no_char c w)

split-append : (c : ℕ) (w s : Str) → has_char c w ≡ false → split c (w ++ c ∷ s) ≡ w ∷ split c s
unfolding split
split-append c [] s h = ground arith
split-append c (b ∷ w) s h = ground (arith, split-append c w s)

pub split-join :
    (c : ℕ) (w : Str) (ws : List Str)
    → All (λ v. has_char c v ≡ false) (w ∷ ws)
    → split c (join c (w ∷ ws)) ≡ w ∷ ws
split-join c w [] h = split-no_char c w h.0
split-join c w (v ∷ ws) h =
    split-append c w (join c (v ∷ ws)) h.0 ∙ ap (◌∷◌ w) (split-join c v ws h.1)

length-push_front : (b : ℕ) (ws : List Str) → length ws ≤ length (push_front b ws)
length-push_front b [] = omega arith
length-push_front b (w ∷ ws) = omega arith

length-split_pos : (c : ℕ) (s : Str) → 1 ≤ length (split c s)
length-split_pos c s = positive (split c s) (split-ne_nil c s)
  where
    positive : (ws : List Str) → ws ≢ [] → 1 ≤ length ws
    positive [] h = absurd (h refl)
    positive (w ∷ ws) h = omega arith

-- A text with the separator has two pieces at least.
pub length-split : (c : ℕ) (s : Str) → has_char c s ≡ true → 2 ≤ length (split c s)
unfolding split
length-split c [] h = cc
length-split c (b ∷ s) h =
    ground (arith, length-split c s, length-split_pos c s, length-push_front b (split c s))

-- Two pieces are joined by a separator.
pub has_char-join : (c : ℕ) (w v : Str) (ws : List Str) → has_char c (join c (w ∷ v ∷ ws)) ≡ true
has_char-join c w v ws = in_the_middle w (join c (v ∷ ws))
  where
    in_the_middle : (x y : Str) → has_char c (x ++ c ∷ y) ≡ true
    in_the_middle [] y = ground arith
    in_the_middle (b ∷ x) y = ground (arith, in_the_middle x y)
