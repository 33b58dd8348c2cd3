-- ===== src/Handler/Pool/Resolve.antt =====
-- The order in which `resolve` of backend/src/handler/upstream.rs asks the servers.
use mathlib.Core.List.{append_assoc}
use native.Mathlib.Nat.{mod-eq_of_lt}
use denis.Base.{
  ℕ, suc, ◌%◌, ◌≤◌, max, Option, none, some, List, [], ◌∷◌, ◌++◌, Result, ok, err, length,
  length-append, get_elem?, get_elem?-append, inl, inr, ◌≡◌, refl, sym, ◌∙◌, ap, arith,
  Result-cases,
}
use denis.Config.{RuntimeConfig, SocketAddr}
use denis.Handler.Parser.{Query}
use denis.Handler.Pool.Exchange.{exchange-Accepted}
use denis.Handler.Pool.{
  Attempt, Socket, query_dns, attempts, resolve, unwrap_or, all_failed, no_upstreams,
}
use denis.Handler.Serve.Answers.{Answers}
use denis.Handler.Serve.{UpstreamError}
use denis.Handler.Upstream.{UpstreamResponse}

-- The servers asked one after another, each once, from a number of attempt on, until one answers;
-- the error is the last one.
unfoldable pub walk :
    (ℕ → Attempt)
    → Query
    → List SocketAddr
    → ℕ
    → UpstreamError
    → List Socket
    → Result UpstreamError UpstreamResponse × List Socket
walk world q [] n last queue = (err last, queue)
walk world q (server ∷ servers) n last queue =
    let (res, queue') = query_dns (world n) server q queue in
    elim res [ ok response ↦ (ok response, queue') | err e ↦ walk world q servers (suc n) e queue' ]

module _ (world : ℕ → Attempt) (q : Query) where
  attempts-ok :
      (servers : List SocketAddr) (left n : ℕ) (server : SocketAddr) (last : Option UpstreamError)
      (queue : List Socket) (r : UpstreamResponse)
      → get_elem? servers (n % length servers) ≡ some server
      → (query_dns (world n) server q queue).0 ≡ ok r
      → attempts world servers q (suc left) n last queue
        ≡ (ok r, (query_dns (world n) server q queue).1)
  unfolding attempts
  attempts-ok servers left n server last queue r at_n e = rw (attempts, at_n, e) refl

  attempts-err :
      (servers : List SocketAddr) (left n : ℕ) (server : SocketAddr) (last : Option UpstreamError)
      (queue : List Socket) (f : UpstreamError)
      → get_elem? servers (n % length servers) ≡ some server
      → (query_dns (world n) server q queue).0 ≡ err f
      → attempts world servers q (suc left) n last queue
        ≡ attempts world servers q left (suc n) (some f) (query_dns (world n) server q queue).1
  unfolding attempts
  attempts-err servers left n server last queue f at_n e = rw (attempts, at_n, e) refl

  walk-ok :
      (server : SocketAddr) (servers : List SocketAddr) (n : ℕ) (last : UpstreamError)
      (queue : List Socket) (r : UpstreamResponse)
      → (query_dns (world n) server q queue).0 ≡ ok r
      → walk world q (server ∷ servers) n last queue
        ≡ (ok r, (query_dns (world n) server q queue).1)
  unfolding walk
  walk-ok server servers n last queue r e = rw (walk, e) refl

  walk-err :
      (server : SocketAddr) (servers : List SocketAddr) (n : ℕ) (last : UpstreamError)
      (queue : List Socket) (f : UpstreamError)
      → (query_dns (world n) server q queue).0 ≡ err f
      → walk world q (server ∷ servers) n last queue
        ≡ walk world q servers (suc n) f (query_dns (world n) server q queue).1
  unfolding walk
  walk-err server servers n last queue f e = rw (walk, e) refl

  attempts-walk :
      (pre post : List SocketAddr) (last : Option UpstreamError) (queue : List Socket)
      → attempts world (pre ++ post) q (length post) (length pre) last queue
        ≡ walk world q post (length pre) (unwrap_or last all_failed) queue
  unfolding attempts walk
  attempts-walk pre [] last queue = refl
  attempts-walk pre (server ∷ post) last queue =
      let whole = append_assoc pre (server ∷ []) post in
      let further = attempts-walk (pre ++ server ∷ []) post in
      let len : length (pre ++ server ∷ []) ≡ suc (length pre) =
        omega (arith, length-append pre (server ∷ [])) in
      let place : length pre % length (pre ++ server ∷ post) ≡ length pre =
        mod-eq_of_lt (omega (arith, length-append pre (server ∷ post))) in
      let at_n : get_elem? (pre ++ server ∷ post) (length pre % length (pre ++ server ∷ post))
          ≡ some server =
        rw place (get_elem?-append pre post server) in
      elim (Result-cases (query_dns (world (length pre)) server q queue).0) [
        | inr (r, e) ↦
            attempts-ok (pre ++ server ∷ post) (length post) (length pre) server last queue r at_n e
            ∙ sym (walk-ok server post (length pre) (unwrap_or last all_failed) queue r e)
        | inl (f, e) ↦
            attempts-err (pre ++ server ∷ post) (length post) (length pre) server last queue f at_n
              e
            ∙ (rw (whole, len) at
                  (further (some f) (query_dns (world (length pre)) server q queue).1)
                ∙ sym (walk-err server post (length pre) (unwrap_or last all_failed) queue f e))
      ]

  walk-last :
      (server : SocketAddr) (servers : List SocketAddr) (n : ℕ) (one two : UpstreamError)
      (queue : List Socket)
      → walk world q (server ∷ servers) n one queue ≡ walk world q (server ∷ servers) n two queue
  unfolding walk
  walk-last server servers n one two queue = refl

  resolve_all :
      (c : RuntimeConfig) (server : SocketAddr) (servers : List SocketAddr) (queue : List Socket)
      → c.upstreams ≡ server ∷ servers
      → resolve world c q queue
        ≡ attempts world (server ∷ servers) q (length (server ∷ servers)) 0 none queue
  unfolding resolve
  resolve_all c server servers queue e =
      let many : max (length (server ∷ servers)) 1 ≡ length (server ∷ servers) = omega arith in
      rw (resolve, e, many) refl

  resolve_none :
      (c : RuntimeConfig) (queue : List Socket)
      → c.upstreams ≡ []
      → resolve world c q queue ≡ (err no_upstreams, queue)
  unfolding resolve
  resolve_none c queue e = rw (resolve, e) refl

  -- `resolve` asks the configured servers in their order, each at most once, until one answers; no
  -- server is left out, and the error is the last one that occurred, or that there are no servers.
  pub resolve-walk :
      (c : RuntimeConfig) (queue : List Socket)
      → resolve world c q queue ≡ walk world q c.upstreams 0 no_upstreams queue
  unfolding walk
  resolve-walk c queue = go c.upstreams refl
    where
      go :
          (servers : List SocketAddr)
          → c.upstreams ≡ servers
          → resolve world c q queue ≡ walk world q c.upstreams 0 no_upstreams queue
      go [] e = resolve_none c queue e ∙ rw (walk, e) refl
      go (server ∷ servers) e =
          resolve_all c server servers queue e
          ∙ (attempts-walk [] (server ∷ servers) none queue
              ∙ (walk-last server servers 0 all_failed no_upstreams queue ∙ rw e refl))

  pub resolve-first :
      (c : RuntimeConfig) (server : SocketAddr) (servers : List SocketAddr) (queue : List Socket)
      (r : UpstreamResponse)
      → c.upstreams ≡ server ∷ servers
      → (query_dns (world 0) server q queue).0 ≡ ok r
      → (resolve world c q queue).0 ≡ ok r
  resolve-first c server servers queue r e came =
      ap (λ s. s.0)
        (resolve-walk c queue
          ∙ ap (λ (all : List SocketAddr). walk world q all 0 no_upstreams queue) e
          ∙ walk-ok server servers 0 no_upstreams queue r came)

  query_dns-Answers :
      (n : ℕ) (server : SocketAddr) (queue : List Socket) (r : UpstreamResponse)
      → 2 ≤ length q.raw
      → (query_dns (world n) server q queue).0 ≡ ok r
      → Answers q r
  unfolding query_dns
  query_dns-Answers n server (socket ∷ queue) r asked e =
      (exchange-Accepted (world n).net server q r asked e).1
  query_dns-Answers n server [] r asked e = elim (Result-cases (world n).bind) [
    | inl (f, unbound) ↦ let got = rw (query_dns, unbound) at e in absurd (cc got)
    | inr (socket, bound) ↦
        let got = rw (query_dns, bound) at e in
        (exchange-Accepted (world n).net server q r asked got).1
  ]

  walk-Answers :
      (servers : List SocketAddr) (n : ℕ) (last : UpstreamError) (queue : List Socket)
      (r : UpstreamResponse)
      → 2 ≤ length q.raw
      → (walk world q servers n last queue).0 ≡ ok r
      → Answers q r
  unfolding walk
  walk-Answers [] n last queue r asked e = absurd (cc e)
  walk-Answers (server ∷ servers) n last queue r asked e =
      let rest = walk-Answers servers (suc n) in
      elim (Result-cases (query_dns (world n) server q queue).0) [
        | inr (s, came) ↦
            let all = walk-ok server servers n last queue s came in
            let same : s ≡ r = cc (rw all at e) in
            query_dns-Answers n server queue r asked (came ∙ ap ok same)
        | inl (f, failed) ↦
            let all = walk-err server servers n last queue f failed in
            rest f (query_dns (world n) server q queue).1 r asked (rw all at e)
      ]

-- Whatever arrives on the network, an answer of `resolve` to a packet of two bytes at least carries
-- the number of the query and the code in its bytes: the condition under which the query handler is
-- right.
pub resolve-Answers :
    (world : ℕ → Attempt) (queue : List Socket) (c : RuntimeConfig) (q : Query)
    (r : UpstreamResponse)
    → 2 ≤ length q.raw
    → (resolve world c q queue).0 ≡ ok r
    → Answers q r
resolve-Answers world queue c q r asked e =
    walk-Answers world q c.upstreams 0 no_upstreams queue r asked
      (rw (resolve-walk world q c queue) at e)
