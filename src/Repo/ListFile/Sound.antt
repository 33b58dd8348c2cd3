-- ===== src/Repo/ListFile/Sound.antt =====
-- What parse_domain_list of backend/src/repo/cache.rs hands on.
use denis.Base.{
  Bool, true, List, [], ◌∷◌, all, all-append, all-filter, map, ◌≡◌, refl, inl, inr, Bool-cases,
}
use denis.Repo.Domains.{is_valid_domain}
use denis.Repo.ListFile.{
  lines, split_whitespace, before_comment, domain_of, line_domains, lines_domains,
  parse_domain_list,
}
use denis.Text.{Str, trim}

module _ (unicode : Str → Str) (is_ip : Str → Bool) where
  line_domains-valid : (line : Str) → all is_valid_domain (line_domains unicode is_ip line) ≡ true
  unfolding line_domains
  line_domains-valid line = go (split_whitespace (trim (before_comment line))) refl
    where
      go :
          (ws : List Str)
          → split_whitespace (trim (before_comment line)) ≡ ws
          → all is_valid_domain (line_domains unicode is_ip line) ≡ true
      go [] e = rw (line_domains, e) refl
      go (first ∷ tokens) e = elim (Bool-cases (is_ip first)) [
        | inl hosts ↦
            rw (line_domains, e, hosts)
              (all-filter is_valid_domain (map (domain_of unicode is_ip) tokens))
        | inr plain ↦
            rw (line_domains, e, plain)
              (all-filter is_valid_domain (domain_of unicode is_ip first ∷ []))
      ]

  lines_domains-valid :
      (ls : List Str) → all is_valid_domain (lines_domains unicode is_ip ls) ≡ true
  unfolding lines_domains
  lines_domains-valid [] = refl
  lines_domains-valid (line ∷ rest) =
      all-append is_valid_domain (line_domains unicode is_ip line) _ (line_domains-valid line)
        (lines_domains-valid rest)

  -- Every domain read from a downloaded text is a valid one.
  pub parse_domain_list-valid :
      (text : Str) → all is_valid_domain (parse_domain_list unicode is_ip text) ≡ true
  unfolding parse_domain_list
  parse_domain_list-valid text = lines_domains-valid (lines text)
