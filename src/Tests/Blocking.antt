-- ===== src/Tests/Blocking.antt =====
-- The cases of backend/src/repo/cache.rs on blocking, and examples of the theorems on decisions,
-- keys, configurations and written answers.
use denis.Base.{ℕ, true, [], ◌∷◌, ◌++◌, some, none, ◌≡◌, ◌↔◌, refl, arith}
use denis.Config.{zero_ip, RuntimeConfig, RuntimeConfigPatch, from_cli}
use denis.Handler.Parser.{Query}
use denis.Handler.Upstream.Replies.{IsAnswer, a_record, blocked-IsAnswer}
use denis.Handler.Upstream.{blocked}
use denis.Repo.Decide.Suffixes.{Covers, decide-Covers}
use denis.Repo.Decide.{DomainSet, decide}
use denis.Repo.Key.Collide.{query_key_injective}
use denis.Tests.Samples.{buffer, one_name}
use denis.Text.{codes, Str}

abbrev block : DomainSet
block = codes "example.com" ∷ []

abbrev allow : DomainSet
allow = codes "good.example.com" ∷ []

decide-Covers_example :
    (decide block allow (codes "ads.example.com") ≡ true)
    ↔ (Covers block (codes "ads.example.com") × ¬ Covers allow (codes "ads.example.com"))
decide-Covers_example = decide-Covers block allow (codes "ads.example.com")

abbrev asks : Str → Query
asks name = record { name = name; query_type = 1; raw = []; answer_offset = 0 }

query_key_injective_example : (codes "a.io" ≡ codes "a.io") × (codes "A" ≡ codes "A")
query_key_injective_example =
    query_key_injective buffer one_name (asks (codes "a.io")) (asks (codes "a.io")) (omega arith)
      (omega arith) refl

abbrev twenty_five : Str
twenty_five = codes "aaaaaaaaaaaaaaaaaaaaaaaaa"

abbrev long_tail : Str
long_tail = twenty_five ++ (twenty_five ++ (twenty_five ++ (twenty_five ++ twenty_five)))

abbrev config : RuntimeConfig
config = from_cli (1 ∷ 2 ∷ []) 5000

abbrev min_ttl_patch : ℕ → RuntimeConfigPatch
min_ttl_patch n = record {
  upstreams = none;
  upstream_timeout_ms = none;
  blocking_mode = none;
  cache_min_ttl = some n;
  cache_max_ttl = none;
  neg_ttl = none;
}

-- The question for `a`, of type A, with the recursion bit.
abbrev short_query : Query
short_query = record {
  name = codes "a";
  query_type = 1;
  raw = 7 ∷ 8 ∷ 1 ∷ 0 ∷ 0 ∷ 1 ∷ 0 ∷ 0 ∷ 0 ∷ 0 ∷ 0 ∷ 0 ∷ 1 ∷ b'a' ∷ 0 ∷ 0 ∷ 1 ∷ 0 ∷ 1 ∷ [];
  answer_offset = 19;
}

blocked-IsAnswer_example : IsAnswer short_query 1 a_record (blocked short_query zero_ip)
blocked-IsAnswer_example = blocked-IsAnswer short_query zero_ip (omega arith) (omega arith)
