-- ===== src/Tests/Admitting.antt =====
-- Examples of the theorems on the access list and on the workers that obey it.
use denis.Acl.{Action, allow, refuse, Networks, AclEntry, decide, first_match}
use denis.Base.{ℕ, none, some, [], ◌∷◌, ◌==◌, if◌then◌else◌, ok, take, ◌≡◌, refl, arith}
use denis.Dns.Mono.Agree.{SameService, run_round-handle}
use denis.Dns.Mono.{run_round, recv_buf}
use denis.Handler.Parser.{parse_udp, parse_question, parse_qtype}
use denis.Handler.Serve.{handle}
use denis.Tests.Samples.{tables, buffer, one_name}
use denis.Tests.Serving.{one_slot, number, ask, clock, proxy, packet, question}
use denis.Text.Utf8.{from_utf8_lossy}
use denis.Text.{codes, str_eq}

-- Networks of one address, of which "one" is the only name.
abbrev pub hosts : Networks
hosts = record {
  Addr = ℕ;
  Net = ℕ;
  parse_net = λ s. if str_eq s (codes "one") then some 1 else none;
  member = λ n a. n == a;
}

abbrev entry : Action → ℕ → AclEntry ℕ
entry a n = record { action = a; networks = n ∷ [] }

allowed : decide hosts [] 1 ≡ allow
unfolding decide
allowed = refl

run_round-handle_example :
    SameService tables one_slot buffer one_name number ask
      (run_round tables one_slot buffer one_name number ask hosts [] clock 1 packet proxy)
      (handle tables one_slot buffer one_name number ask clock packet proxy)
run_round-handle_example =
    run_round-handle tables one_slot buffer one_name number ask hosts [] clock 1 packet proxy
      allowed (omega arith)

refuses : decide hosts (entry refuse 1 ∷ []) 1 ≡ refuse
unfolding decide first_match
refuses = refl

parsed : parse_udp (take recv_buf packet) ≡ ok question
unfolding parse_udp parse_question parse_qtype from_utf8_lossy
parsed = refl
