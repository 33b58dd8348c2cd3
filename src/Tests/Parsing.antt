-- ===== src/Tests/Parsing.antt =====
-- The cases of backend/src/handler/parser.rs and examples of its theorems.
use denis.Base.{
  ℕ, ◌+◌, ◌-◌, ◌≤◌, [], ◌∷◌, ◌++◌, Bytes, ok, some, length, get_elem?, ◌≡◌, ◌≢◌, refl, arith, suc,
  none, true,
}
use denis.Handler.Parser.Bounds.{parse_udp-bounds}
use denis.Handler.Parser.RoundTrip.{parse_udp-encode}
use denis.Handler.Parser.Rounds.{IsWireLabel, encode}
use denis.Handler.Parser.Terminates.{question_loop-ne_none}
use denis.Handler.Parser.{parse_question, parse_qtype}
use denis.Handler.Parser.{
  Query, parse_udp, parse_question, parse_qtype, question_loop, first_cursor,
}
use denis.Loadgen.{build_query, question_of, parse_udp-build_query}
use denis.Repo.Domains.Valid.{IsDomain, is_valid_domain-IsDomain}
use denis.Repo.Domains.{is_valid_domain}
use denis.Text.{codes, trim}
use denis.Text.Utf8.{from_utf8_lossy}

abbrev zeros : Bytes
zeros = 0 ∷ 0 ∷ 0 ∷ 0 ∷ 0 ∷ 0 ∷ 0 ∷ 0 ∷ 0 ∷ 0 ∷ 0 ∷ 0 ∷ []

-- `Ads.Example.COM`, of type A.
abbrev ads_packet : Bytes
ads_packet =
    zeros ++ (encode (codes "Ads" ∷ codes "Example" ∷ codes "COM" ∷ []) ++ 0 ∷ 0 ∷ 1 ∷ 0 ∷ 1 ∷ [])

abbrev ads_query : Query
ads_query = record {
  name = codes "ads.example.com";
  query_type = 1;
  raw = ads_packet;
  answer_offset = length ads_packet;
}

ads_parsed : parse_udp ads_packet ≡ ok ads_query
unfolding parse_udp parse_question parse_qtype from_utf8_lossy
ads_parsed = refl

-- A byte that begins no character is replaced.
replaces_bad_bytes :
    from_utf8_lossy (0x61 ∷ 0xE2 ∷ 0x82 ∷ 0x62 ∷ 0xC3 ∷ 0xA9 ∷ [])
    ≡ 0x61 ∷ 0xEF ∷ 0xBF ∷ 0xBD ∷ 0x62 ∷ 0xC3 ∷ 0xA9 ∷ []
unfolding from_utf8_lossy
replaces_bad_bytes = refl

trims :
    trim (32 ∷ 0xE2 ∷ 0x80 ∷ 0xA8 ∷ 0x61 ∷ 32 ∷ 0x62 ∷ 0xC2 ∷ 0xA0 ∷ 10 ∷ [])
    ≡ 0x61 ∷ 32 ∷ 0x62 ∷ []
unfolding trim
trims = refl

wire_label : (b : ℕ) (bs : Bytes) → b ≢ 0 → length (b ∷ bs) ≤ 63 → IsWireLabel (b ∷ bs)
wire_label b bs ne h = record {
  first = b;
  others = bs;
  bytes = refl;
  first_ne_zero = ne;
  short = h;
}

parse_udp-encode_example :
    parse_udp (zeros ++ (encode (codes "Ads" ∷ codes "io" ∷ []) ++ 0 ∷ 0 ∷ 28 ∷ []))
    ≡ ok (record {
      name = codes "ads.io";
      query_type = 28;
      raw = zeros ++ (encode (codes "Ads" ∷ codes "io" ∷ []) ++ 0 ∷ 0 ∷ 28 ∷ []);
      answer_offset = 24;
    })
unfolding from_utf8_lossy
parse_udp-encode_example =
    parse_udp-encode zeros [] (codes "Ads" ∷ codes "io" ∷ []) 0 28 refl
      (
        wire_label b'A' (codes "ds") (omega arith) (omega arith),
        (wire_label b'i' (codes "o") (omega arith) (omega arith), tt),
      )
      (omega arith)

parse_udp-bounds_example :
    (ads_query.raw ≡ ads_packet)
    × (17 ≤ ads_query.answer_offset)
    × (ads_query.answer_offset ≤ length ads_packet + 2)
    × (get_elem? ads_packet (ads_query.answer_offset - 5) ≡ some 0)
parse_udp-bounds_example = parse_udp-bounds ads_packet ads_query ads_parsed

question_loop-ne_none_example :
    question_loop (suc (length ads_packet)) ads_packet first_cursor ≢ none
question_loop-ne_none_example = question_loop-ne_none ads_packet (omega arith)

is_valid_domain-IsDomain_example :
    ((is_valid_domain (codes "a.io") ≡ true) → IsDomain (codes "a.io"))
    × (IsDomain (codes "a.io") → (is_valid_domain (codes "a.io") ≡ true))
is_valid_domain-IsDomain_example = is_valid_domain-IsDomain (codes "a.io")

mixed_valid : is_valid_domain (codes "Ads.io") ≡ true
unfolding is_valid_domain
mixed_valid = refl

parse_udp-build_query_example :
    parse_udp (build_query (codes "Ads.io"))
    ≡ ok (question_of (codes "ads.io") (build_query (codes "Ads.io")))
parse_udp-build_query_example = parse_udp-build_query (codes "Ads.io") mixed_valid
