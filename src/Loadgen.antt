-- ===== src/Loadgen.antt =====
-- backend/examples/loadgen.rs: the query that the load generator sends, against the parser.
pub mod Totals
use mathlib.Core.List.{append-nil, append_assoc}
use denis.Base.{
  ℕ, ◌%◌, ◌≤◌, ◌<◌, List, [], ◌∷◌, ◌++◌, map, All, All-map, Bytes, ok, true, length, length-append,
  ltb, ◌≡◌, refl, sym, ap, ◌∙◌, arith,
}
use denis.Handler.Parser.RoundTrip.{parse_udp-encode}
use denis.Handler.Parser.Rounds.{IsWireLabel, encode}
use denis.Handler.Parser.{parse_udp, Query}
use denis.Repo.Domains.Valid.{
  IsDomain, IsLabel, IsLabelByte, is_valid_domain-IsDomain, split-IsDomain, lower, upper, digit,
  hyphen, underscore,
}
use denis.Repo.Domains.{is_valid_domain}
use denis.Text.Utf8.{from_utf8_lossy_ascii}
use denis.Text.{Str, dot, split, join, to_ascii_lowercase, is_ascii}

-- The loop over the labels, with the packet as it grows; a length is cut to a byte.
push_labels : Bytes → List Str → Bytes
push_labels p [] = p
push_labels p (label ∷ labels) = push_labels ((p ++ length label % 256 ∷ []) ++ label) labels

abbrev query_head : Bytes
query_head = 0x12 ∷ 0x34 ∷ 0x01 ∷ 0x00 ∷ 0x00 ∷ 0x01 ∷ 0 ∷ 0 ∷ 0 ∷ 0 ∷ 0 ∷ 0 ∷ []

unfoldable pub build_query : Str → Bytes
unfolding push_labels split
build_query domain =
    ((push_labels query_head (split dot domain) ++ 0x00 ∷ []) ++ 0x00 ∷ 0x01 ∷ [])
    ++ 0x00 ∷ 0x01 ∷ []

IsLabelByte-ascii : (b : ℕ) → IsLabelByte b → (0 < b) × (ltb (to_ascii_lowercase b) 128 ≡ true)
IsLabelByte-ascii b (lower h k) = ground arith
IsLabelByte-ascii b (upper h k) = ground arith
IsLabelByte-ascii b (digit h k) = ground arith
IsLabelByte-ascii b (hyphen h) = ground arith
IsLabelByte-ascii b (underscore h) = ground arith

IsLabel-IsWireLabel : (w : Str) → IsLabel w → IsWireLabel w
IsLabel-IsWireLabel [] v = absurd (omega (arith, v.some_byte))
IsLabel-IsWireLabel (b ∷ w) v = record {
  first = b;
  others = w;
  bytes = refl;
  first_ne_zero = λ e. omega (arith, (IsLabelByte-ascii b v.bytes.0).0);
  short = v.short;
}

abbrev LoweredIsAscii : Str → Type 0
LoweredIsAscii s = is_ascii (map to_ascii_lowercase s) ≡ true

label_ascii : (w rest : Str) → All IsLabelByte w → LoweredIsAscii rest → LoweredIsAscii (w ++ rest)
label_ascii [] rest v h = h
label_ascii (b ∷ w) rest v h = ground (arith, IsLabelByte-ascii b v.0, label_ascii w rest v.1 h)

join_ascii : (ws : List Str) → All IsLabel ws → LoweredIsAscii (join dot ws)
join_ascii [] v = refl
join_ascii (w ∷ []) v = rw (← append-nil w) (label_ascii w [] v.0.bytes refl)
join_ascii (w ∷ w' ∷ ws) v =
    label_ascii w (dot ∷ join dot (w' ∷ ws)) v.0.bytes (join_ascii (w' ∷ ws) v.1)

push_labels-encode :
    (ws : List Str) (p : Bytes) → All IsLabel ws → push_labels p ws ≡ p ++ encode ws
unfolding push_labels
push_labels-encode [] p v = sym (append-nil p)
push_labels-encode (w ∷ ws) p v =
    push_labels-encode ws _ v.1 ∙ rw (byte_of_length w v.0) (simp append_assoc)
  where
    byte_of_length : (u : Str) → IsLabel u → length u % 256 ≡ length u
    byte_of_length u l = omega (arith, l.short)

framed :
    (p e : Bytes)
    → (((p ++ e) ++ 0 ∷ []) ++ 0 ∷ 1 ∷ []) ++ 0 ∷ 1 ∷ [] ≡ p ++ (e ++ 0 ∷ 0 ∷ 1 ∷ 0 ∷ 1 ∷ [])
framed p e = simp append_assoc

-- The query of the load generator is the question of the domain's labels, of type and class 1.
build_query-encode :
    (d : Str) (v : IsDomain d)
    → build_query d
      ≡ query_head ++ (encode (v.first ∷ v.second ∷ v.others) ++ 0 ∷ 0 ∷ 1 ∷ 0 ∷ 1 ∷ [])
build_query-encode d v =
    unfold build_query in
    rw (split-IsDomain d v, push_labels-encode _ query_head v.labels)
      (framed query_head (encode (v.first ∷ v.second ∷ v.others)))

abbrev pub query_at : Str → Bytes → ℕ → Query
query_at name raw offset = record { name = name; query_type = 1; raw = raw; answer_offset = offset }

-- A query of type A whose question fills the packet.
abbrev pub question_of : Str → Bytes → Query
question_of name raw = query_at name raw (length raw)

same_query :
    {n m : Str} {raw : Bytes} {i j : ℕ} → n ≡ m → i ≡ j → query_at n raw i ≡ query_at m raw j
same_query p q = cc

-- The parser reads the query that the load generator builds for a text that `is_valid_domain`
-- accepts as one for that text in lower case, of type A, whose question ends where the packet
-- ends.
pub parse_udp-build_query :
    (d : Str)
    → is_valid_domain d ≡ true
    → parse_udp (build_query d) ≡ ok (question_of (map to_ascii_lowercase d) (build_query d))
parse_udp-build_query d h = of_domain ((is_valid_domain-IsDomain d).0 h)
  where
    of_domain :
        IsDomain d
        → parse_udp (build_query d) ≡ ok (question_of (map to_ascii_lowercase d) (build_query d))
    of_domain v =
        let labels = v.first ∷ v.second ∷ v.others in
        let fits : length (join dot labels) ≤ 254 = omega (arith, v.fits, ap length v.joined) in
        let ascii = from_utf8_lossy_ascii _ (join_ascii labels v.labels) in
        rw (build_query-encode d v) (
          parse_udp-encode query_head (0 ∷ 1 ∷ []) labels 0 1 refl
            (All-map IsLabel-IsWireLabel labels v.labels) fits
          ∙ ap ok (
              same_query (ascii ∙ ap (map to_ascii_lowercase) (sym v.joined))
                (omega (arith, length-append (encode labels) (0 ∷ 0 ∷ 1 ∷ 0 ∷ 1 ∷ [])))))
