-- ===== src/Startup/Start/Ready.antt =====
-- The state in which backend/src/main.rs starts to serve.
use denis.Acl.{Networks, AclEntry, load}
use denis.Api.Auth.Handlers.{login_handler, session_answer}
use denis.Api.Auth.Hex.{random_token}
use denis.Api.Auth.Rows.{AccountsSql, Verifies}
use denis.Api.Auth.Users.{new_auth-login}
use denis.Api.Auth.{Auth, session_ttl, ensure_schema, seed, new_auth}
use denis.Api.Router.{Outside, Moment, post_login, login_reply, handle, router}
use denis.Api.Settings.{load_or_init}
use denis.Base.Int.{ℤ}
use denis.Base.{
  Bool, Option, none, some, List, [], map, Result, ok, err, ◌>>=◌, ok_or, expect, ◌≡◌, refl, sym,
  ap, ◌∙◌,
}
use denis.Config.{RuntimeConfig, from_cli}
use denis.Repo.Cache.Durable.{Agrees}
use denis.Repo.Cache.Reload.{loaded}
use denis.Repo.Cache.{read_blocklist_db_memory, read_allowlist_db_memory}
use denis.Repo.Pages.{ensure_tables}
use denis.Startup.Start.{
  new_cache, brokers_of, clickhouse_on, Connected, Started, consumer_of, read_lists, assemble,
  start,
}
use denis.Analytics.Clients.{Rdkafka, ChClient, AnalyticsConsumer, kafka_of}
use denis.Startup.{Cli}
use denis.Text.{Str, codes}

expect-ok {ℓ κ} :
    {E : Type κ} {A : Type ℓ} (message : Str) (r : Result E A) (a : A)
    → expect message r ≡ ok a
    → r ≡ ok a
expect-ok message (ok b) a h = cc h
expect-ok message (err e) a h = absurd (cc h)

ok_or-ok {ℓ} :
    {A : Type ℓ} (x : Option A) (message : Str) (a : A) → ok_or x message ≡ ok a → x ≡ some a
ok_or-ok (some b) message a h = cc h
ok_or-ok none message a h = absurd (cc h)

and_then {ℓ} :
    {A B : Type 0} {G : Type ℓ} (r : Result Str A) (f : A → Result Str B) {b : B}
    → (r >>= f) ≡ ok b
    → ((a : A) → r ≡ ok a → f a ≡ ok b → G)
    → G
and_then (ok a) f h rest = rest a refl h
and_then (err e) f h rest = absurd (cc h)

same_ok : {A : Type 0} {a b : A} → Path (Result Str A) (ok a) (ok b) → a ≡ b
same_ok e = cc e

module _ (o : Outside) (nets : Networks) (kafka : Rdkafka) (clickhouse : ChClient) where
  -- What a start that succeeds has put together.
  record Parts (analytics : Bool) (cli : Cli) (m : Moment)
      (connected : Option (Connected o nets kafka clickhouse))
      (st : Started o nets kafka clickhouse) : Type 0 where
    pools : Connected o nets kafka clickhouse
    lists_pool : o.db.Pool
    acl : List (AclEntry nets.Net)
    settings : RuntimeConfig × o.table.Pool
    producer : Option kafka.Producer
    consumer : Option (AnalyticsConsumer kafka clickhouse)
    auth : Auth o.accounts.Pool
    opened : connected ≡ some pools
    authenticated :
        new_auth o.accounts o.argon o.sha256 m.salt m.now.unix pools.accounts_pool ≡ ok auth
    assembled :
        st
        ≡ assemble o nets kafka clickhouse analytics cli lists_pool acl settings producer consumer
            auth

  start-Parts :
      (analytics : Bool) (cli : Cli) (m : Moment)
      (connected : Option (Connected o nets kafka clickhouse))
      (st : Started o nets kafka clickhouse)
      → start o nets kafka clickhouse analytics cli m connected ≡ ok st
      → Parts analytics cli m connected st
  unfolding start
  start-Parts analytics cli m connected st h =
      and_then (ok_or connected (codes "cannot connect to database")) _ h (λ pools opened h1.
        and_then
          (expect (codes "failed to create blocklist/allowlist tables")
            (ensure_tables o.pages pools.lists_pool))
          _ h1
          (λ lists_pool made h2.
            and_then
              (ok_or (load nets pools.access_table pools.access)
                (codes "failed to load access control list"))
              _ h2
              (λ acl fetched h3.
                and_then
                  (expect (codes "failed to load runtime config") (
                    load_or_init o.table o.json pools.settings_pool
                      (from_cli cli.upstream.servers cli.upstream.timeout_ms)))
                  _ h3
                  (λ settings read h4.
                    and_then (kafka_of kafka (brokers_of analytics cli)) _ h4 (λ producer e5 h5.
                      and_then
                        (consumer_of o nets kafka clickhouse (clickhouse_on analytics cli) cli) _ h5
                        (λ consumer e6 h6.
                          and_then
                            (expect (codes "failed to init auth") (
                              new_auth o.accounts o.argon o.sha256 m.salt m.now.unix
                                pools.accounts_pool))
                            _ h6
                            (λ auth given h7. record {
                              pools = pools;
                              lists_pool = lists_pool;
                              acl = acl;
                              settings = settings;
                              auth = auth;
                              opened =
                                  ok_or-ok connected (codes "cannot connect to database") pools
                                    opened;
                              authenticated = expect-ok (codes "failed to init auth") _ auth given;
                              assembled = sym (same_ok h7);
                              producer = producer;
                              consumer = consumer;
                            })))))))

  read_lists-Agrees :
      (pool : o.db.Pool)
      → o.db.fetch_blocked (read_lists o nets kafka clickhouse (new_cache pool)).pool
        ≡ map some (o.db.blocked_rows (read_lists o nets kafka clickhouse (new_cache pool)).pool)
      → Agrees o.db (read_lists o nets kafka clickhouse (new_cache pool))
  unfolding read_lists read_allowlist_db_memory read_blocklist_db_memory new_cache
  read_lists-Agrees pool rows = loaded o.db (new_cache pool) rows

  new_auth-sessions :
      (pool : o.accounts.Pool) (salt : Str) (now : ℤ) (s : Auth o.accounts.Pool)
      → new_auth o.accounts o.argon o.sha256 salt now pool ≡ ok s
      → s.sessions ≡ []
  unfolding new_auth
  new_auth-sessions pool salt now s h =
      and_then (ensure_schema o.accounts o.argon o.sha256 pool) _ h (λ made e1 h1.
        and_then (o.accounts.count_users made) _ h1 (λ users e2 h2.
          and_then (seed o.accounts o.argon o.sha256 salt now users made) _ h2
            (λ seeded e3 h3. sym (ap (λ (t : Auth o.accounts.Pool). t.sessions) (same_ok h3)))))

  -- After a start that succeeds, and where every row of the block list could be read, the list in
  -- memory has exactly the domains of the rows, and nobody is logged in.
  pub start-Agrees :
      (analytics : Bool) (cli : Cli) (m : Moment)
      (connected : Option (Connected o nets kafka clickhouse))
      (st : Started o nets kafka clickhouse)
      → start o nets kafka clickhouse analytics cli m connected ≡ ok st
      → o.db.fetch_blocked st.state.cache.pool ≡ map some (o.db.blocked_rows st.state.cache.pool)
      → Agrees o.db st.state.cache × (st.state.auth.sessions ≡ [])
  start-Agrees analytics cli m connected st h rows =
      let p = start-Parts analytics cli m connected st h in
      rw p.assembled (
        unfold assemble in
            read_lists-Agrees p.lists_pool (unfold assemble in rw p.assembled at rows),
        unfold assemble in
            new_auth-sessions p.pools.accounts_pool m.salt m.now.unix p.auth p.authenticated,
      )

module _ (o : Outside) (nets : Networks) (kafka : Rdkafka) (clickhouse : ChClient)
    (laws : AccountsSql o.accounts) (hashes : Verifies o.argon) where
  -- On a database that does what SQL says, and with hashes that accept the password they were
  -- made from: after a start that succeeds where there are no users, anybody who sends the name
  -- `admin` with the password `admin` is logged in, once the query for the user succeeds.
  pub start-login :
      (analytics : Bool) (cli : Cli) (m at : Moment) (pools : Connected o nets kafka clickhouse)
      (st : Started o nets kafka clickhouse) (header : Option Str) (made : o.accounts.Pool)
      (row : Option (ℤ × Str))
      → start o nets kafka clickhouse analytics cli m (some pools) ≡ ok st
      → ensure_schema o.accounts o.argon o.sha256 pools.accounts_pool ≡ ok made
      → o.accounts.count_users made ≡ ok 0
      → o.accounts.find_user (codes "admin") st.state.auth.pool ≡ ok row
      → (router o header at
          (post_login (record { username = codes "admin"; password = codes "admin" }))
          st.state).0
        ≡ login_reply (session_answer (some (random_token at.bytes, session_ttl)))
  unfolding router handle login_handler
  start-login analytics cli m at pools st header made row h schema empty found =
      let p = start-Parts o nets kafka clickhouse analytics cli m (some pools) st h in
      let same_pools : p.pools ≡ pools = cc p.opened in
      let authenticated = rw same_pools at p.authenticated in
      let same_auth : st.state.auth ≡ p.auth =
        ap (λ (s : Started o nets kafka clickhouse). s.state.auth) p.assembled
        ∙ unfold assemble in refl in
      ap (λ opened. login_reply (session_answer opened))
        (new_auth-login o.accounts laws o.argon hashes o.sha256 m.salt m.now.unix
          pools.accounts_pool made st.state.auth at.now at.bytes row schema empty
          (authenticated ∙ ap ok (sym same_auth)) found)
