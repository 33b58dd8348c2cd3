-- ===== src/Tests/Cases.antt =====
-- The repository's own tests, in backend/src/handler/parser.rs and backend/src/repo/cache.rs, as
-- functions into Bool.
use denis.Base.{
  ℕ, ◌%◌, Bool, true, false, not, ◌&&◌, ◌==◌, List, [], ◌∷◌, ◌++◌, Bytes, ok, err, length, all, ◌≡◌,
  refl,
}
use denis.Handler.Parser.{
  ParseError, too_short, truncated, label_too_long, compression_pointer, parse_udp, parse_ttl,
  parse_question, parse_qtype,
}
use denis.Repo.Decide.{DomainSet, decide, any_suffix_match}
use denis.Repo.Domains.{is_valid_domain}
use denis.Repo.ListFile.{
  parse_domain_list, lines_domains, lines, line_domains, split_whitespace, words_fuel, domain_of,
}
use denis.Text.Utf8.{from_utf8_lossy}
use denis.Text.{Str, codes, dot, split, str_eq, trim, trim_end_matches}

-- The header of the test packets, all zero but for the number of questions.
abbrev zeros : ℕ → Bytes
zeros questions = 0 ∷ 0 ∷ 0 ∷ 0 ∷ 0 ∷ questions ∷ 0 ∷ 0 ∷ 0 ∷ 0 ∷ 0 ∷ 0 ∷ []

abbrev with_labels : List Str → Bytes
with_labels [] = []
with_labels (label ∷ labels) = (length label % 256 ∷ label) ++ with_labels labels

unfoldable query_packet : Str → Bytes
query_packet name = zeros 1 ++ (with_labels (split dot name) ++ 0 ∷ 0 ∷ 1 ∷ 0 ∷ 1 ∷ [])

abbrev same_error : ParseError → ParseError → Bool
same_error (too_short m) (too_short n) = m == n
same_error truncated truncated = true
same_error (label_too_long m) (label_too_long n) = m == n
same_error compression_pointer compression_pointer = true
same_error _ _ = false

abbrev fails_with : ParseError → Bytes → Bool
fails_with e packet = elim (parse_udp packet) [ ok q ↦ false | err f ↦ same_error e f ]

abbrev fails : Bytes → Bool
fails packet = elim (parse_udp packet) [ ok q ↦ false | err f ↦ true ]

unfoldable parses_valid_query : Bool
parses_valid_query = elim (parse_udp (query_packet (codes "Ads.Example.COM"))) [
  | ok q ↦ str_eq q.name (codes "ads.example.com") && q.query_type == 1
  | err e ↦ false
]

unfoldable rejects_malformed_without_panicking : Bool
rejects_malformed_without_panicking =
    fails_with (too_short 0) []
    && fails (0 ∷ 0 ∷ 0 ∷ 0 ∷ 0 ∷ [])
    && fails_with truncated (zeros 0)
    && fails_with truncated (zeros 0 ++ (10 ∷ codes "abc"))
    && fails_with truncated (zeros 0 ++ (3 ∷ codes "abc"))
    && fails_with compression_pointer (zeros 0 ++ (0xC0 ∷ 0x0C ∷ []))
    && fails_with (label_too_long 0x41) (zeros 0 ++ (0x41 ∷ codes "a"))
    && fails_with truncated (zeros 0 ++ ((3 ∷ codes "abc") ++ 0 ∷ []))

unfoldable parse_ttl_never_panics_on_short_answer : Bool
parse_ttl_never_panics_on_short_answer = parse_ttl (0 ∷ 0 ∷ 0 ∷ 0 ∷ []) 0 == 0

abbrev trackers : DomainSet
trackers = codes "doubleclick.net" ∷ codes "example.com" ∷ []

unfoldable suffix_matches_subdomains_but_not_partial_labels : Bool
suffix_matches_subdomains_but_not_partial_labels =
    any_suffix_match trackers (codes "doubleclick.net")
    && any_suffix_match trackers (codes "ad.doubleclick.net")
    && any_suffix_match trackers (codes "a.b.c.example.com")
    && not (any_suffix_match trackers (codes "notdoubleclick.net"))
    && not (any_suffix_match trackers (codes "example.com.evil.org"))
    && not (any_suffix_match trackers (codes "net"))
    && not (any_suffix_match [] (codes "anything.com"))

unfoldable allowlist_overrides_blocklist : Bool
allowlist_overrides_blocklist =
    let block = codes "example.com" ∷ [] in
    let allow = codes "good.example.com" ∷ [] in
    decide block allow (codes "ads.example.com")
    && not (decide block allow (codes "good.example.com"))
    && not (decide block allow (codes "x.good.example.com"))

-- The lines of a text, each with its end.
abbrev lines_of : List Str → Str
lines_of [] = []
lines_of (line ∷ lines) = (line ++ 10 ∷ []) ++ lines_of lines

abbrev same_list : List Str → List Str → Bool
same_list [] [] = true
same_list (a ∷ as') (b ∷ bs) = str_eq a b && same_list as' bs
same_list _ _ = false

-- The words of this text that are addresses.
abbrev is_ip : Str → Bool
is_ip w = not (all (λ b. not (b == b'0')) w)

unfoldable validation_and_parsing : Bool
validation_and_parsing =
    is_valid_domain (codes "example.com")
    && not (is_valid_domain (codes "nodot"))
    && not (is_valid_domain (codes "bad_.com."))
    && not (is_valid_domain [])
    && same_list
        (parse_domain_list (λ s. s) is_ip
          (lines_of (
            codes "# comment"
            ∷ codes "0.0.0.0 ads.com"
            ∷ codes "127.0.0.1 tracker.net evil.org"
            ∷ codes "plain.io"
            ∷ []
            ∷ codes "bad"
            ∷ [])))
        (codes "ads.com" ∷ codes "tracker.net" ∷ codes "evil.org" ∷ codes "plain.io" ∷ [])

parser_tests_pass :
    (parses_valid_query && rejects_malformed_without_panicking
      && parse_ttl_never_panics_on_short_answer)
    ≡ true
unfolding parses_valid_query rejects_malformed_without_panicking
    parse_ttl_never_panics_on_short_answer query_packet parse_udp parse_question parse_qtype
    from_utf8_lossy parse_ttl split str_eq
parser_tests_pass = refl

cache_tests_pass :
    (suffix_matches_subdomains_but_not_partial_labels && allowlist_overrides_blocklist
      && validation_and_parsing)
    ≡ true
unfolding suffix_matches_subdomains_but_not_partial_labels allowlist_overrides_blocklist
    validation_and_parsing any_suffix_match decide is_valid_domain parse_domain_list str_eq split
    lines_domains lines line_domains split_whitespace words_fuel trim domain_of trim_end_matches
cache_tests_pass = refl
