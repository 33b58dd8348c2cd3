-- ===== src/Handler/Upstream.antt =====
-- backend/src/handler/upstream.rs: the answers that the server writes itself.
pub mod Replies
use Prim.Native.Nat.{bit_or}
use denis.Base.{
  ℕ, ◌+◌, ◌%◌, ◌≤◌, ◌<◌, min, Option, none, some, List, [], ◌∷◌, ◌++◌, Bytes, ◌&&◌, leb, ltb,
  if◌then◌else◌, ◌==◌, length, get_elem?, set, take, u16_to_be_bytes, u32_to_be_bytes,
}
use denis.Config.{BlockingMode, nx_domain, refused, zero_ip, IpAddr, v4, v6, zero_ip_of}
use denis.Handler.Parser.{Query}

-- `hickory_proto::op::ResponseCode`, as far as the program names it.
pub data ResponseCode : Type 0 where
  no_error serv_fail nx_domain_code refused_code : ResponseCode
  unknown : ℕ → ResponseCode

pub record UpstreamResponse : Type 0 where
  pub code : ResponseCode
  pub raw : Bytes

-- The low nibble of byte 3.
abbrev code_of_nibble : ℕ → ResponseCode
code_of_nibble n =
    if n == 0
    then no_error
    else if n == 2
    then serv_fail
    else if n == 3
    then nx_domain_code
    else if n == 5
    then refused_code
    else unknown n

unfoldable pub rcode_from_raw : Bytes → ResponseCode
rcode_from_raw raw = elim (get_elem? raw 3) [ some b ↦ code_of_nibble (b % 16) | none ↦ serv_fail ]

abbrev pub byte_at : Bytes → ℕ → ℕ
byte_at raw i = elim (get_elem? raw i) [ some b ↦ b | none ↦ 0 ]

-- The transaction's number is copied from the query.
unfoldable pub cached : Query → Bytes → UpstreamResponse
cached query raw =
    let raw' =
      if leb 2 (length raw) && leb 2 (length query.raw)
      then set (set raw 0 (byte_at query.raw 0)) 1 (byte_at query.raw 1)
      else raw in
    record { code = rcode_from_raw raw'; raw = raw' }

-- The header and the question of the query, as far as the packet goes.
abbrev pub question_part : Query → Bytes
question_part query = take (min query.answer_offset (length query.raw)) query.raw

-- The header of an answer: flags, then the counts of answers, authorities and additions. The
-- recursion bit of the query is kept; `x & 0x01` is the remainder by 2.
abbrev pub answer_header : ℕ → ℕ → ℕ → Bytes → Bytes
answer_header flags_hi flags_lo answers raw =
    let rd = byte_at raw 2 % 2 in
    set
      (set
        (set (set (set (set (set (set raw 2 (bit_or flags_hi rd)) 3 flags_lo) 6 0) 7 answers) 8 0) 9
          0)
        10 0)
      11 0

unfoldable pub nxdomain : Query → UpstreamResponse
nxdomain query =
    let raw = question_part query in
    record {
      code = nx_domain_code;
      raw = if leb 12 (length raw) then answer_header 0x84 0x83 0 raw else raw;
    }

unfoldable pub refused_reply : Query → UpstreamResponse
refused_reply query =
    let raw = question_part query in
    record {
      code = refused_code;
      raw = if leb 12 (length raw) then answer_header 0x80 0x05 0 raw else raw;
    }

abbrev rtype_of : IpAddr → ℕ
rtype_of (v4 _) = 1
rtype_of (v6 _) = 28

abbrev rdata_of : IpAddr → Bytes
rdata_of (v4 octets) = octets
rdata_of (v6 octets) = octets

-- `const TTL` of `zero_ip`
abbrev pub zero_ip_ttl : ℕ
zero_ip_ttl = 60

-- The one answer record: a pointer to the name in the question, type, class, lifetime and data.
abbrev pub answer_record : IpAddr → Bytes
answer_record ip =
    u16_to_be_bytes 0xC00C
    ++ (u16_to_be_bytes (rtype_of ip)
        ++ (u16_to_be_bytes 1
            ++ (u32_to_be_bytes zero_ip_ttl
                ++ (u16_to_be_bytes (length (rdata_of ip)) ++ rdata_of ip))))

unfoldable pub zero_ip_reply : Query → IpAddr → UpstreamResponse
zero_ip_reply query ip =
    let raw = question_part query in
    if ltb (length raw) 12
    then nxdomain query
    else record { code = no_error; raw = answer_header 0x84 0x80 1 raw ++ answer_record ip }

unfoldable pub blocked : Query → BlockingMode → UpstreamResponse
blocked query nx_domain = nxdomain query
blocked query refused = refused_reply query
blocked query zero_ip = elim (zero_ip_of query.query_type) [
  | some ip ↦ zero_ip_reply query ip
  | none ↦ nxdomain query
]
