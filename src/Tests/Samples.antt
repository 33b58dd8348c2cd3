-- ===== src/Tests/Samples.antt =====
-- Concrete values: texts, a buffer, the names of types and a small database.
use denis.Base.{
  ℕ, ◌+◌, ◌≤◌, ◌<◌, false, not, ◌||◌, leb, le→leb, Option, none, some, List, ◌++◌, map, filter,
  length, length-filter-le, if◌then◌else◌, ◌≡◌, refl, arith,
}
use denis.Repo.Cache.Members.{contains-append, contains-remove}
use denis.Repo.Cache.{remove}
use denis.Repo.Database.{Database, Sql}
use denis.Repo.Decide.{contains}
use denis.Repo.Key.{Heapless, TypeNames}
use denis.Text.{codes, Str}

abbrev pub push : ℕ → Str → Str → Option Str
push capacity buf s = if leb (length buf + length s) capacity then some (buf ++ s) else none

not_le : (a b : ℕ) → a < b → leb b a ≡ false
not_le a b h = ground arith

pub push_fits : (n : ℕ) (b s : Str) → length b + length s ≤ n → push n b s ≡ some (b ++ s)
push_fits n b s h = rw (le→leb _ _ h)

pub push_full : (n : ℕ) (b s : Str) → n < length b + length s → push n b s ≡ none
push_full n b s h = rw (not_le _ _ h)

abbrev pub buffer : Heapless
buffer = record { push_str = push; push_str_fits = push_fits; push_str_full = push_full }

-- Every type is shown as "A".
abbrev pub one_name : TypeNames
one_name = record { show = λ t. codes "A"; show_colon_free = λ t. refl }

abbrev pub fresh : List Str → List Str → ℕ
fresh rows ds = length (filter (λ d. not (contains rows d)) ds)

-- A pool of two lists of domains, whose statements always succeed.
abbrev pub Tables : Type 0
Tables = List Str × List Str

abbrev pub tables : Database
tables = record {
  Pool = Tables;
  insert_blocked = λ list ds p. (some (fresh p.0 ds), (p.0 ++ ds, p.1));
  insert_allowed = λ ds p. (some (fresh p.1 ds), (p.0, p.1 ++ ds));
  delete_blocked = λ d p. (some 1, (remove d p.0, p.1));
  blocked_rows = λ p. p.0;
  allowed_rows = λ p. p.1;
  fetch_blocked = λ p. map some p.0;
  fetch_allowed = λ p. map some p.1;
}

-- The same database with a `DELETE` that fails.
abbrev pub broken_tables : Database
broken_tables = record tables { delete_blocked = λ d p. (none, p) }

pub tables-add :
    (ds : List Str) (rows : List Str) (n : ℕ)
    → some (fresh rows ds) ≡ some n
    → (n ≤ length ds) × ((d : Str) → contains (rows ++ ds) d ≡ (contains rows d || contains ds d))
tables-add ds rows n e = (
  ground (arith, length-filter-le (λ (d : Str). not (contains rows d)) ds),
  contains-append rows ds,
)

pub tables-Sql : Sql tables
tables-Sql = record {
  insert_blocked_rows = λ list ds p n e. tables-add ds p.0 n e;
  insert_blocked_fails = λ list ds p e. cc;
  insert_allowed_rows = λ ds p n e. tables-add ds p.1 n e;
  delete_blocked_rows = λ e p n h d. contains-remove e p.0 d;
  delete_blocked_fails = λ e p h. cc;
}

pub broken_tables-Sql : Sql broken_tables
broken_tables-Sql = record {
  insert_blocked_rows = λ list ds p n e. tables-add ds p.0 n e;
  insert_blocked_fails = λ list ds p e. cc;
  insert_allowed_rows = λ ds p n e. tables-add ds p.1 n e;
  delete_blocked_rows = λ e p n h d. absurd (cc h);
  delete_blocked_fails = λ e p h. refl;
}
