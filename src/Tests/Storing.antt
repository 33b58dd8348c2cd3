-- ===== src/Tests/Storing.antt =====
-- Examples of the theorems on the lists in memory and in the database.
use denis.Base.{◌≤◌, true, List, [], ◌∷◌, ok, err, ◌≡◌, refl, length}
use denis.Repo.Cache.Durable.{Agrees, add_block_domains-Agrees}
use denis.Repo.Cache.Reload.{Removes, remove_block_domain-Agrees, restarted, restarted-is_blocked}
use denis.Repo.Cache.Allowed.{AgreesAllowed}
use denis.Repo.Cache.{
  sql, Lists, add_block_domains, remove_block_domain, is_blocked, insert_chunks, chunks,
}
use denis.Repo.Decide.{contains}
use denis.Repo.Domains.{normalize_domains, is_valid_domain}
use denis.Tests.Samples.{Tables, tables, tables-Sql, broken_tables}
use denis.Text.{codes, Str, str_eq, trim}

-- Text beyond ASCII does not occur here.
abbrev unicode : Str → Str
unicode s = s

abbrev lists : Lists Tables
lists = record {
  block_list = codes "ads.io" ∷ [];
  allow_list = codes "good.ads.io" ∷ [];
  pool = (codes "ads.io" ∷ [], codes "good.ads.io" ∷ []);
}

lists-Agrees : Agrees tables lists
lists-Agrees d = refl

abbrev given : List Str
given = codes " Spam.net. " ∷ codes "nodot" ∷ codes "ads.io" ∷ []

adds :
    (add_block_domains tables unicode (codes "custom") given lists).0
    ≡ ok (record { added = 1; considered = 2 })
unfolding add_block_domains normalize_domains is_valid_domain trim insert_chunks chunks contains
    str_eq
adds = refl

add_block_domains-Agrees_example :
    Agrees tables (add_block_domains tables unicode (codes "custom") given lists).1
    × (1 ≤ 2)
    × (2 ≤ length given)
add_block_domains-Agrees_example =
    add_block_domains-Agrees tables tables-Sql unicode (codes "custom") given lists
      (record { added = 1; considered = 2 }) lists-Agrees adds

removes : (remove_block_domain tables unicode (codes "Ads.io") lists).0 ≡ ok true
unfolding remove_block_domain contains str_eq
removes = refl

remove_block_domain-Agrees_example :
    let after = (remove_block_domain tables unicode (codes "Ads.io") lists).1 in
    (true ≡ contains lists.block_list (codes "ads.io"))
    × Removes (codes "ads.io") lists after
    × Agrees tables after
remove_block_domain-Agrees_example =
    remove_block_domain-Agrees tables tables-Sql unicode (codes "Ads.io") lists true lists-Agrees
      removes

remove_fails : (remove_block_domain broken_tables unicode (codes "Ads.io") lists).0 ≡ err sql
unfolding remove_block_domain
remove_fails = refl

lists-AgreesAllowed : AgreesAllowed tables lists
lists-AgreesAllowed d = refl

restarted-is_blocked_example :
    Agrees tables (restarted tables lists.pool)
    × AgreesAllowed tables (restarted tables lists.pool)
    × ((name : Str)
        → is_blocked tables (restarted tables lists.pool) name ≡ is_blocked tables lists name)
restarted-is_blocked_example =
    restarted-is_blocked tables lists refl refl lists-Agrees lists-AgreesAllowed
