-- ===== src/Repo/Cache/Reload.antt =====
-- Removal from the block list of backend/src/repo/cache.rs, and the list that is loaded again.
use denis.Base.{
  ℕ, Bool, true, false, not, ◌&&◌, none, some, List, [], ◌∷◌, ◌++◌, map, ok, err, Option-cases, ◌≡◌,
  refl, sym, ◌∙◌, inl, inr,
}
use denis.Repo.Cache.Allowed.{AgreesAllowed}
use denis.Repo.Cache.Durable.{Agrees}
use denis.Repo.Cache.Members.{contains-cow_insert, contains-remove, load_rows-some}
use denis.Repo.Cache.{
  CacheError, sql, Lists, remove_block_domain, read_blocklist_db_memory, read_allowlist_db_memory,
  load_set, load_rows, insert, is_blocked, remove,
}
use denis.Repo.Database.{Database, Sql}
use denis.Repo.Decide.Suffixes.{Covers, decide-Covers}
use denis.Repo.Decide.{DomainSet, contains, decide}
use denis.Text.{Str, str_eq, to_lowercase}

module _ (db : Database) (unicode : Str → Str) where
  remove_hit :
      (domain : Str) (c : Lists db.Pool) (n : ℕ)
      → let lower = to_lowercase unicode domain in
        (db.delete_blocked lower c.pool).0 ≡ some n
        → remove_block_domain db unicode domain c ≡ (
          ok (contains c.block_list lower),
          record c {
            block_list = remove lower c.block_list;
            pool = (db.delete_blocked lower c.pool).1;
          },
        )
  unfolding remove_block_domain
  remove_hit domain c n e = rw (e, remove_block_domain) refl

  remove_miss :
      (domain : Str) (c : Lists db.Pool)
      → let lower = to_lowercase unicode domain in
        (db.delete_blocked lower c.pool).0 ≡ none
        → remove_block_domain db unicode domain c ≡ (
          err sql,
          record c {
            block_list = remove lower c.block_list;
            pool = (db.delete_blocked lower c.pool).1;
          },
        )
  unfolding remove_block_domain
  remove_miss domain c e = rw (e, remove_block_domain) refl

-- What a removal leaves: the domain in lower case is no longer in memory, all others stay.
abbrev pub Removes : {Pool : Type 0} → Str → Lists Pool → Lists Pool → Type 0
Removes lower before after =
    (d : Str) → contains after.block_list d ≡ (contains before.block_list d && not (str_eq d lower))

module _ (db : Database) (laws : Sql db) (unicode : Str → Str) where
  -- A removal that succeeds says whether the domain was in the list, takes it and nothing else out
  -- of memory, and leaves memory and database in agreement if they agreed.
  pub remove_block_domain-Agrees :
      (domain : Str) (c : Lists db.Pool) (found : Bool)
      → Agrees db c
      → (remove_block_domain db unicode domain c).0 ≡ ok found
      → let after = (remove_block_domain db unicode domain c).1 in
        (found ≡ contains c.block_list (to_lowercase unicode domain))
        × Removes (to_lowercase unicode domain) c after
        × Agrees db after
  remove_block_domain-Agrees domain c found agrees h =
      elim (Option-cases (db.delete_blocked (to_lowercase unicode domain) c.pool).0) [
        | inl e ↦ absurd (cc (remove_miss db unicode domain c e))
        | inr (n, e) ↦
            let same = remove_hit db unicode domain c n e in
            let gone = contains-remove (to_lowercase unicode domain) c.block_list in
            let rows = laws.delete_blocked_rows (to_lowercase unicode domain) c.pool n e in
            rw same (cc (same), gone, λ d. gone d ∙ rw (rows d, agrees d) refl)
      ]

  -- A removal that fails in the database has taken the domain, and nothing else, out of memory all
  -- the same, while the rows are as they were.
  pub remove_block_domain_fails :
      (domain : Str) (c : Lists db.Pool) (e : CacheError)
      → (remove_block_domain db unicode domain c).0 ≡ err e
      → let after = (remove_block_domain db unicode domain c).1 in
        Removes (to_lowercase unicode domain) c after × (after.pool ≡ c.pool)
  remove_block_domain_fails domain c x h =
      elim (Option-cases (db.delete_blocked (to_lowercase unicode domain) c.pool).0) [
        | inl e ↦ rw (remove_miss db unicode domain c e) (
          contains-remove (to_lowercase unicode domain) c.block_list,
          laws.delete_blocked_fails (to_lowercase unicode domain) c.pool e,
        )
        | inr (n, e) ↦ absurd (cc (remove_hit db unicode domain c n e))
      ]

-- Sets with the same members cover the same names, so they decide alike.
SameMembers : DomainSet → DomainSet → Type 0
SameMembers s t = (d : Str) → contains s d ≡ contains t d

Covers-SameMembers :
    (s t : DomainSet) (name : Str) → SameMembers s t → Covers s name → Covers t name
unfolding SameMembers
Covers-SameMembers s t name same v = record {
  domain = v.domain;
  held = sym (same v.domain) ∙ v.held;
  above = v.above;
}

Bool_ext : (a b : Bool) → ((a ≡ true) → (b ≡ true)) → ((b ≡ true) → (a ≡ true)) → a ≡ b
Bool_ext true b f g = sym (f refl)
Bool_ext false true f g = cc (g refl)
Bool_ext false false f g = refl

decide-SameMembers :
    (s t a b : DomainSet) (name : Str)
    → SameMembers s t
    → SameMembers t s
    → SameMembers a b
    → SameMembers b a
    → decide s a name ≡ decide t b name
decide-SameMembers s t a b name st ts ab ba =
    Bool_ext _ _
      (λ h.
        let (c, free) = (decide-Covers s a name).0 h in
        (decide-Covers t b name).1
          (Covers-SameMembers s t name st c, λ v. free (Covers-SameMembers b a name ba v)))
      (λ h.
        let (c, free) = (decide-Covers t b name).0 h in
        (decide-Covers s a name).1
          (Covers-SameMembers t s name ts c, λ v. free (Covers-SameMembers a b name ab v)))

module _ (db : Database) where
  pub loaded :
      (c : Lists db.Pool)
      → db.fetch_blocked c.pool ≡ map some (db.blocked_rows c.pool)
      → Agrees db (read_blocklist_db_memory db c)
  loaded c all_read d =
      unfold read_blocklist_db_memory load_set in
      rw (all_read, load_rows-some [] (db.blocked_rows c.pool))
        (contains-cow_insert [] (db.blocked_rows c.pool) d ∙ unfold contains in refl)

  loaded_allowed :
      (c : Lists db.Pool)
      → db.fetch_allowed c.pool ≡ map some (db.allowed_rows c.pool)
      → AgreesAllowed db (read_allowlist_db_memory db c)
  loaded_allowed c all_read d =
      unfold read_allowlist_db_memory load_set in
      rw (all_read, load_rows-some [] (db.allowed_rows c.pool))
        (contains-cow_insert [] (db.allowed_rows c.pool) d ∙ unfold contains in refl)

  -- The lists after a restart: both are empty at first, and are loaded one after the other.
  unfoldable pub restarted : db.Pool → Lists db.Pool
  restarted pool =
      read_allowlist_db_memory db
        (read_blocklist_db_memory db (record { block_list = []; allow_list = []; pool = pool }))

  restarted-Agrees :
      (pool : db.Pool)
      → db.fetch_blocked pool ≡ map some (db.blocked_rows pool)
      → db.fetch_allowed pool ≡ map some (db.allowed_rows pool)
      → Agrees db (restarted pool) × AgreesAllowed db (restarted pool)
  unfolding restarted read_allowlist_db_memory read_blocklist_db_memory
  restarted-Agrees pool blocked allowed =
      let empty : Lists db.Pool = record { block_list = []; allow_list = []; pool = pool } in
      (loaded empty blocked, loaded_allowed (read_blocklist_db_memory db empty) allowed)

  same_members : (s t rows : DomainSet) → SameMembers s rows → SameMembers t rows → SameMembers s t
  unfolding SameMembers
  same_members s t rows f g d = f d ∙ sym (g d)

  -- Where both lists in memory agree with the database and every row of both tables is read, a
  -- restart, which loads both lists again, leaves both in agreement with the database and decides
  -- every name as before.
  pub restarted-is_blocked :
      (c : Lists db.Pool)
      → db.fetch_blocked c.pool ≡ map some (db.blocked_rows c.pool)
      → db.fetch_allowed c.pool ≡ map some (db.allowed_rows c.pool)
      → Agrees db c
      → AgreesAllowed db c
      → Agrees db (restarted c.pool)
        × AgreesAllowed db (restarted c.pool)
        × ((name : Str) → is_blocked db (restarted c.pool) name ≡ is_blocked db c name)
  unfolding SameMembers restarted read_allowlist_db_memory read_blocklist_db_memory
  restarted-is_blocked c blocked allowed agrees agrees_allowed =
      let (again, again_allowed) = restarted-Agrees c.pool blocked allowed in
      let rows = db.blocked_rows c.pool in
      let allowed_rows = db.allowed_rows c.pool in
      let now = restarted c.pool in
      (
        again,
        again_allowed,
        λ name.
            unfold is_blocked in
            decide-SameMembers now.block_list c.block_list now.allow_list c.allow_list name
              (same_members now.block_list c.block_list rows again agrees)
              (same_members c.block_list now.block_list rows agrees again)
              (same_members now.allow_list c.allow_list allowed_rows again_allowed agrees_allowed)
              (same_members c.allow_list now.allow_list allowed_rows agrees_allowed again_allowed),
      )

-- A row that fails while the list is loaded ends the load, and the domains behind it are not in
-- the set, with no error reported.
pub load_set-error :
    (rows rest : List Str)
    → load_set (map some rows ++ none ∷ map some rest) ≡ load_set (map some rows)
unfolding load_set
load_set-error rows rest = cut_off rows []
  where
    cut_off :
        (rs : List Str) (set : DomainSet)
        → load_rows set (map some rs ++ none ∷ map some rest) ≡ load_rows set (map some rs)
    cut_off [] set = refl
    cut_off (r ∷ rs) set = cut_off rs (insert r set)
