-- ===== src/Handler/Upstream/Replies.antt =====
-- The answers of backend/src/handler/upstream.rs to blocked queries are answers to the query.
use Prim.Native.Nat.{bit_or}
use mathlib.Core.List.{append-nil}
use denis.Base.{
  ℕ, zero, suc, ap, take-min, sym, ◌∙◌, ◌==◌, if◌then◌else◌, Bool-cases, ◌%◌, ◌≤◌, min, some, none,
  List, [], ◌∷◌, ◌++◌, Bytes, get_elem?, length, take, drop, take-behind, length-take, ◌≡◌, refl,
  arith, ◌⊎◌, inl, inr, le→leb, le→not_ltb, false, ltb,
}
use denis.Config.{BlockingMode, nx_domain, refused, zero_ip, zero_ip_of, IpAddr, v4, v6}
use denis.Handler.Parser.{Query}
use denis.Handler.Upstream.{
  UpstreamResponse, ResponseCode, rcode_from_raw, question_part, answer_header, nxdomain,
  refused_reply, zero_ip_reply, answer_record, blocked,
}

-- A response to the query: its number, its recursion bit and its question are the query's, the
-- response bit is set, the counts stand in the header, the code is the one in the bytes, and the
-- records follow the question.
pub record IsAnswer (q : Query) (answers : ℕ) (records : Bytes) (r : UpstreamResponse)
    : Type 0 where
  pub same_id : take 2 r.raw ≡ take 2 q.raw
  pub flags : ℕ
  pub asked : ℕ
  pub flags_at : get_elem? r.raw 2 ≡ some flags
  pub asked_at : get_elem? q.raw 2 ≡ some asked
  pub response_bit : 128 ≤ flags
  pub recursion_bit : flags % 2 ≡ asked % 2
  pub counts : take 8 (drop 4 r.raw) ≡ take 2 (drop 4 q.raw) ++ (0 ∷ answers ∷ 0 ∷ 0 ∷ 0 ∷ 0 ∷ [])
  pub question : drop 12 r.raw ≡ drop 12 (take q.answer_offset q.raw) ++ records
  pub code_is : rcode_from_raw r.raw ≡ r.code

cut_at : (n : ℕ) (xs : Bytes) → take (min n (length xs)) xs ≡ take n xs
cut_at n xs =
    let same : min n (length xs) ≡ min (length xs) n = omega arith in
    ap (λ (k : ℕ). take k xs) same ∙ take-min n xs

-- Flags with the response bit, which an added recursion bit leaves as they are.
abbrev KeepsBit : ℕ → Type 0
KeepsBit hi = (c : ℕ) → (128 ≤ bit_or hi (c % 2)) × (bit_or hi (c % 2) % 2 ≡ c % 2)

parity : (c : ℕ) → (c % 2 ≡ 0) ⊎ (c % 2 ≡ 1)
parity c = omega arith

KeepsBit-0x84 : KeepsBit 0x84
KeepsBit-0x84 c = elim (parity c) [ inl e ↦ rw e (omega arith) | inr e ↦ rw e (omega arith) ]

KeepsBit-0x80 : KeepsBit 0x80
KeepsBit-0x80 c = elim (parity c) [ inl e ↦ rw e (omega arith) | inr e ↦ rw e (omega arith) ]

with_header :
    (raw : Bytes) (name : List ℕ) (t offset hi lo answers : ℕ) (records : Bytes)
    (code : ResponseCode)
    → 12 ≤ length raw
    → 12 ≤ offset
    → KeepsBit hi
    → rcode_from_raw (0 ∷ 0 ∷ 0 ∷ lo ∷ []) ≡ code
    → let q : Query = record { name = name; query_type = t; raw = raw; answer_offset = offset } in
      IsAnswer q answers records
        (record { code = code; raw = answer_header hi lo answers (question_part q) ++ records })
unfolding rcode_from_raw
with_header (a ∷ b ∷ c ∷ d ∷ e ∷ f ∷ g ∷ h ∷ i ∷ j ∷ k ∷ l ∷ rest) name t offset hi lo answers
      records code long far keeps same =
    let head : Bytes = a ∷ b ∷ c ∷ d ∷ e ∷ f ∷ g ∷ h ∷ i ∷ j ∷ k ∷ l ∷ [] in
    let cut = take-behind head rest (min offset (length (head ++ rest))) (omega arith) in
    rw cut (record {
      same_id = refl;
      flags = bit_or hi (c % 2);
      asked = c;
      flags_at = refl;
      asked_at = refl;
      response_bit = (keeps c).0;
      recursion_bit = (keeps c).1;
      counts = refl;
      question =
          ap (λ (xs : Bytes). drop 12 xs ++ records) (sym cut ∙ cut_at offset (head ++ rest));
      code_is = same;
    })
with_header _ name t offset hi lo answers records code long far keeps same = absurd (omega arith)

length-question_part :
    (q : Query) → 12 ≤ length q.raw → 12 ≤ q.answer_offset → 12 ≤ length (question_part q)
length-question_part q long far =
    omega (arith, length-take (min q.answer_offset (length q.raw)) q.raw)

nxdomain-IsAnswer :
    (q : Query) → 12 ≤ length q.raw → 12 ≤ q.answer_offset → IsAnswer q 0 [] (nxdomain q)
nxdomain-IsAnswer q long far =
    let fits = le→leb 12 (length (question_part q)) (length-question_part q long far) in
    unfold nxdomain in
    rw (fits, ← append-nil (answer_header 0x84 0x83 0 (question_part q)))
      (with_header q.raw q.name q.query_type q.answer_offset 0x84 0x83 0 [] _ long far KeepsBit-0x84
        (unfold rcode_from_raw in refl))

refused_reply-IsAnswer :
    (q : Query) → 12 ≤ length q.raw → 12 ≤ q.answer_offset → IsAnswer q 0 [] (refused_reply q)
refused_reply-IsAnswer q long far =
    let fits = le→leb 12 (length (question_part q)) (length-question_part q long far) in
    unfold refused_reply in
    rw (fits, ← append-nil (answer_header 0x80 0x05 0 (question_part q)))
      (with_header q.raw q.name q.query_type q.answer_offset 0x80 0x05 0 [] _ long far KeepsBit-0x80
        (unfold rcode_from_raw in refl))

zero_ip_reply-IsAnswer :
    (q : Query) (ip : IpAddr)
    → 12 ≤ length q.raw
    → 12 ≤ q.answer_offset
    → IsAnswer q 1 (answer_record ip) (zero_ip_reply q ip)
zero_ip_reply-IsAnswer q ip long far =
    let fits : ltb (length (question_part q)) 12 ≡ false =
      le→not_ltb _ _ (length-question_part q long far) in
    unfold zero_ip_reply in
    rw fits (
      with_header q.raw q.name q.query_type q.answer_offset 0x84 0x80 1 (answer_record ip) _ long
        far KeepsBit-0x84 (unfold rcode_from_raw in refl))

blocked_without : (q : Query) → zero_ip_of q.query_type ≡ none → blocked q zero_ip ≡ nxdomain q
unfolding blocked
blocked_without q e = rw (e, blocked)

blocked_with :
    (q : Query) (ip : IpAddr)
    → zero_ip_of q.query_type ≡ some ip
    → blocked q zero_ip ≡ zero_ip_reply q ip
unfolding blocked
blocked_with q ip e = rw (e, blocked)

abbrev zeros : ℕ → Bytes
zeros zero = []
zeros (suc n) = 0 ∷ zeros n

-- The records of the unspecified addresses, byte by byte: a pointer to the name in the question,
-- the type, the class IN, 60 seconds, and the length of the address with the address.
abbrev pub a_record : Bytes
a_record = 192 ∷ 12 ∷ 0 ∷ 1 ∷ 0 ∷ 1 ∷ 0 ∷ 0 ∷ 0 ∷ 60 ∷ 0 ∷ 4 ∷ 0 ∷ 0 ∷ 0 ∷ 0 ∷ []

abbrev pub aaaa_record : Bytes
aaaa_record =
    192 ∷ 12 ∷ 0 ∷ 28 ∷ 0 ∷ 1 ∷ 0 ∷ 0 ∷ 0 ∷ 60 ∷ 0 ∷ 16 ∷ 0 ∷ 0 ∷ 0 ∷ 0 ∷ 0 ∷ 0 ∷ 0 ∷ 0 ∷ 0 ∷ 0 ∷ 0
    ∷ 0 ∷ 0 ∷ 0 ∷ 0 ∷ 0 ∷ []

-- The records that a mode answers with, and how many they are.
abbrev pub answer_records : BlockingMode → ℕ → Bytes
answer_records zero_ip t = if t == 1 then a_record else if t == 28 then aaaa_record else []
answer_records _ t = []

abbrev pub answer_count : BlockingMode → ℕ → ℕ
answer_count zero_ip t = if t == 1 then 1 else if t == 28 then 1 else 0
answer_count _ t = 0

-- In every blocking mode the answer to a blocked query is a response to that query: it keeps its
-- number, its recursion bit and the bytes of its question up to `answer_offset`, sets the response
-- bit and the counts, and reports in its bytes the code that it is logged under. In `zero_ip` mode
-- one record follows for the type A, with the address 0.0.0.0, and one for the type AAAA, with the
-- address ::, both for 60 seconds; else none. The packet has a header and the question ends behind
-- it.
pub blocked-IsAnswer :
    (q : Query) (mode : BlockingMode)
    → 12 ≤ length q.raw
    → 12 ≤ q.answer_offset
    → IsAnswer q
        (answer_count mode q.query_type)
        (answer_records mode q.query_type)
        (blocked q mode)
unfolding zero_ip_of
blocked-IsAnswer q nx_domain long far = unfold blocked in nxdomain-IsAnswer q long far
blocked-IsAnswer q refused long far = unfold blocked in refused_reply-IsAnswer q long far
blocked-IsAnswer q zero_ip long far = elim (Bool-cases (q.query_type == 1)) [
  | inl a ↦
      rw (blocked_with q (v4 (zeros 4)) (rw (zero_ip_of, a) refl), a)
        (zero_ip_reply-IsAnswer q (v4 (zeros 4)) long far)
  | inr no_a ↦ elim (Bool-cases (q.query_type == 28)) [
    | inl aaaa ↦
        rw (blocked_with q (v6 (zeros 16)) (rw (zero_ip_of, no_a, aaaa) refl), no_a, aaaa)
          (zero_ip_reply-IsAnswer q (v6 (zeros 16)) long far)
    | inr other ↦
        rw (blocked_without q (rw (zero_ip_of, no_a, other) refl), no_a, other)
          (nxdomain-IsAnswer q long far)
  ]
]
