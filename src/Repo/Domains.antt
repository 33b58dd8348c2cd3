-- ===== src/Repo/Domains.antt =====
-- backend/src/repo/cache.rs: which texts are domains, and how the lists' input is normalised.
pub mod Valid
use denis.Base.{
  Bool, false, not, ◌&&◌, ◌||◌, List, map, all, filter, leb, ltb, ◌==◌, if◌then◌else◌, length, ℕ,
}
use denis.Repo.Decide.{is_empty}
use denis.Text.{
  Str, dot, has_char, is_ascii_alphanumeric, split, to_lowercase, trim, trim_end_matches,
}

abbrev pub is_label_byte : ℕ → Bool
is_label_byte b = is_ascii_alphanumeric b || b == b'-' || b == b'_'

abbrev pub is_label : Str → Bool
is_label label = not (is_empty label) && leb (length label) 63 && all is_label_byte label

unfoldable pub is_valid_domain : Str → Bool
unfolding split
is_valid_domain d =
    if is_empty d || ltb 253 (length d) || not (has_char dot d)
    then false
    else all is_label (split dot d)

-- The closure of `normalize_domains`; `unicode` lower-cases what is not ASCII.
unfoldable pub normalize : (Str → Str) → Str → Str
unfolding trim trim_end_matches
normalize unicode d = to_lowercase unicode (trim_end_matches dot (trim d))

unfoldable pub normalize_domains : (Str → Str) → List Str → List Str
unfolding normalize is_valid_domain
normalize_domains unicode domains = filter is_valid_domain (map (normalize unicode) domains)
