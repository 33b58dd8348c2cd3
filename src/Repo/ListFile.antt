-- ===== src/Repo/ListFile.antt =====
-- backend/src/repo/cache.rs: the domains in a downloaded list, in hosts or plain format.
pub mod Sound
use denis.Base.{
  ℕ, zero, suc, Bool, true, false, Option, none, some, List, [], ◌∷◌, ◌++◌, map, filter, ◌==◌,
  if◌then◌else◌, length,
}
use denis.Repo.Decide.{is_empty}
use denis.Repo.Domains.{is_valid_domain}
use denis.Text.{
  Str, dot, split, to_lowercase, trim, trim_start, trim_end_matches, strip_any, white_space,
}

-- `str::lines`: the pieces between line feeds, without a last empty one, and without the carriage
-- return that may stand before a line feed.
abbrev strip_cr : Str → Str
strip_cr [] = []
strip_cr (b ∷ []) = if b == 13 then [] else b ∷ []
strip_cr (b ∷ c ∷ s) = b ∷ strip_cr (c ∷ s)

abbrev lines_of : List Str → List Str
lines_of [] = []
lines_of ([] ∷ []) = []
lines_of (last ∷ []) = last ∷ []
lines_of (line ∷ next ∷ rest) = strip_cr line ∷ lines_of (next ∷ rest)

unfoldable pub lines : Str → List Str
lines text = lines_of (split 10 text)

-- `str::split_whitespace`: a word up to the next white space, whose bytes are taken off one by one.
-- Every round takes a byte off at least.
unfoldable pub words_fuel : ℕ → Str → Str → List Str
words_fuel zero word s = []
words_fuel (suc fuel) word [] = if is_empty word then [] else word ∷ []
words_fuel (suc fuel) word (b ∷ s) = elim (strip_any white_space (b ∷ s)) [
  | some rest ↦
      let others = words_fuel fuel [] rest in if is_empty word then others else word ∷ others
  | none ↦ words_fuel fuel (word ++ b ∷ []) s
]

unfoldable pub split_whitespace : Str → List Str
split_whitespace s = words_fuel (suc (length s)) [] s

-- The part of a line before the first `#`.
abbrev pub before_comment : Str → Str
before_comment line = elim (split b'#' line) [ [] ↦ [] | first ∷ rest ↦ first ]

-- `unicode` lower-cases what is not ASCII; `is_ip` is `parse::<IpAddr>().is_ok()`.
module _ (unicode : Str → Str) (is_ip : Str → Bool) where
  unfoldable pub domain_of : Str → Str
  domain_of token = to_lowercase unicode (trim_end_matches dot token)

  -- A line in hosts format holds an address and names; any other, one name in its first word.
  unfoldable pub line_domains : Str → List Str
  line_domains line = elim (split_whitespace (trim (before_comment line))) [
    | [] ↦ []
    | first ∷ tokens ↦
        if is_ip first
        then filter is_valid_domain (map domain_of tokens)
        else filter is_valid_domain (domain_of first ∷ [])
  ]

  unfoldable pub lines_domains : List Str → List Str
  lines_domains [] = []
  lines_domains (line ∷ rest) = line_domains line ++ lines_domains rest

  unfoldable pub parse_domain_list : Str → List Str
  parse_domain_list text = lines_domains (lines text)
