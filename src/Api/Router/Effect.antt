-- ===== src/Api/Router/Effect.antt =====
-- What a change of the block list through backend/src/api/mod.rs does to the queries that
-- backend/src/handler/query.rs answers.
use denis.Api.Auth.Handlers.{admit, bearer}
use denis.Api.Lists.{block_add_one, custom}
use denis.Api.Router.Passing.{Passes, router-Passes}
use denis.Api.Router.{Outside, Moment, ApiState, post_blocklist, handle, router}
use denis.Base.{ℕ, true, ◌||◌, Option, List, [], ◌∷◌, Result, ok, ◌≡◌, refl, ap, ◌∙◌, arith}
use denis.Config.{RuntimeConfig}
use denis.Dns.Mono.Agree.{handled-block}
use denis.Handler.Parser.{Query}
use denis.Handler.Serve.{
  Moka, Clock, Proxy, UpstreamError, DnsQueryEvent, handle_parsed, serve_blocked,
}
use denis.Handler.Upstream.{ResponseCode, UpstreamResponse, blocked}
use denis.Repo.Cache.Durable.{add_block_domains-members}
use denis.Repo.Cache.Members.{contains-cons}
use denis.Repo.Cache.{Lists, add_block_domain, add_block_domains, is_blocked}
use denis.Repo.Database.{Database}
use denis.Repo.Decide.Suffixes.{IsUnder, Covers, decide-Covers}
use denis.Repo.Decide.{contains}
use denis.Repo.Domains.{normalize, normalize_domains, is_valid_domain}
use denis.Repo.Key.{Heapless, TypeNames}
use denis.Text.{Str, str_eq, str_eq_iff}

contains-normalize_domains :
    (unicode : Str → Str) (d : Str)
    → is_valid_domain (normalize unicode d) ≡ true
    → contains (normalize_domains unicode (d ∷ [])) (normalize unicode d) ≡ true
unfolding normalize_domains
contains-normalize_domains unicode d valid =
    let v = normalize unicode d in
    let is_itself : str_eq v v ≡ true = (str_eq_iff v v).1 refl in
    rw valid (contains-cons v [] v ∙ ap (λ b. b || contains [] v) is_itself)

-- Adding a domain blocks what lies under it, unless an allowed domain covers it.
add_block_domain-is_blocked :
    (db : Database) (unicode : Str → Str) (list d name : Str) (c : Lists db.Pool)
    → is_valid_domain (normalize unicode d) ≡ true
    → IsUnder name (normalize unicode d)
    → ¬ Covers c.allow_list name
    → is_blocked db (add_block_domain db unicode list d c).1 name ≡ true
unfolding is_blocked add_block_domain
add_block_domain-is_blocked db unicode list d name c valid under clear =
    let v = normalize unicode d in
    let after = (add_block_domains db unicode list (d ∷ []) c).1 in
    let (members, same) = add_block_domains-members db unicode list (d ∷ []) c in
    let held : contains after.block_list v ≡ true =
      members v ∙ grind (arith, contains-normalize_domains unicode d valid) in
    (decide-Covers after.block_list after.allow_list name).1
      (record { domain = v; held = held; above = under }, rw same clear)

module _ (o : Outside) (moka : Moka) (h : Heapless) (names : TypeNames) (number : ResponseCode → ℕ)
    (resolve : ℕ → RuntimeConfig → Query → Result UpstreamError UpstreamResponse) where
  -- The handler of queries on the lists and the configuration that the management holds.
  abbrev pub after_change :
      ApiState o → moka.Store → List DnsQueryEvent → Proxy o.db.Pool moka.Store
  after_change s l1 sent = record {
    lists = s.cache;
    l1 = l1;
    config = s.settings.config;
    sent = sent;
  }

  -- A client that may pass asks through the router to block a domain, which is valid once it is
  -- normalised. On the lists and the configuration that this leaves, a query for that domain or a
  -- name below it, which no allowed domain covers, is answered as blocked, in the mode of the
  -- configuration: whatever the cache of answers holds, whatever the resolvers say, and also where
  -- the database failed.
  pub post_blocklist-blocked :
      (header : Option Str) (m : Moment) (d : Str) (s : ApiState o) (clock : Clock) (q : Query)
      (l1 : moka.Store) (sent : List DnsQueryEvent)
      → Passes o header m s
      → is_valid_domain (normalize o.unicode d) ≡ true
      → IsUnder q.name (normalize o.unicode d)
      → ¬ Covers s.cache.allow_list q.name
      → let s' = (router o header m (post_blocklist d) s).1 in
        (handle_parsed o.db moka h names number resolve clock q (after_change s' l1 sent)).0
        ≡ ok (blocked q s.settings.config.blocking_mode).raw
  unfolding handle block_add_one serve_blocked
  post_blocklist-blocked header m d s clock q l1 sent passes valid under clear =
      let auth = (admit o.accounts o.argon o.sha256 m.now (bearer header) s.auth).1 in
      let cache = (block_add_one o.show o.db o.unicode d s.cache).1 in
      let s' : ApiState o = record s { cache = cache; auth = auth } in
      let now_blocked : is_blocked o.db cache q.name ≡ true =
        add_block_domain-is_blocked o.db o.unicode custom d q.name s.cache valid under clear in
      ap (λ r. (handle_parsed o.db moka h names number resolve clock q (after_change r l1 sent)).0)
        (ap (λ r. r.1) (router-Passes o header m (post_blocklist d) s refl passes))
      ∙ ap (λ r. r.0)
          (handled-block o.db moka h names number resolve clock q (after_change s' l1 sent)
            now_blocked)
