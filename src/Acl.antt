-- ===== src/Acl.antt =====
-- backend/src/acl.rs: which clients may ask.
pub mod Order
use denis.Base.{
  ℕ, Bool, true, false, ◌&&◌, Option, none, some, List, [], ◌∷◌, map, filter, any, Result, ok, err,
  if◌then◌else◌,
}
use denis.Repo.Decide.{is_empty}
use denis.Text.{Str, str_eq, split, trim, to_ascii_lowercase}

pub data Action : Type 0 where
  allow deny refuse : Action

-- "deny" and "refuse".
abbrev deny_word : Str
deny_word = b'd' ∷ b'e' ∷ b'n' ∷ b'y' ∷ []

abbrev refuse_word : Str
refuse_word = b'r' ∷ b'e' ∷ b'f' ∷ b'u' ∷ b's' ∷ b'e' ∷ []

-- `Action::parse`
unfoldable pub parse_action : Str → Action
parse_action s =
    let word = map to_ascii_lowercase (trim s) in
    if str_eq word deny_word then deny else if str_eq word refuse_word then refuse else allow

-- `std::net::IpAddr` and the crate `ipnet`: reading a network, and whether an address lies in it.
pub record Networks : Type 1 where
  pub Addr : Type 0
  pub Net : Type 0
  pub parse_net : Str → Option Net
  pub member : Net → Addr → Bool

pub record AclEntry (Net : Type 0) : Type 0 where
  pub action : Action
  pub networks : List Net

-- A row of `SELECT enabled, action, networks FROM access ORDER BY id`.
pub record Row : Type 0 where
  pub enabled : Bool
  pub action : Str
  pub networks : Str

abbrev pub filter_map {ℓ κ} : {A : Type ℓ} {B : Type κ} → (A → Option B) → List A → List B
filter_map f [] = []
filter_map f (x ∷ xs) = elim (f x) [ some y ↦ y ∷ filter_map f xs | none ↦ filter_map f xs ]

module _ (nets : Networks) where
  unfoldable pub entry_of : Row → Option (AclEntry nets.Net)
  entry_of row =
      let found = filter_map (λ s. nets.parse_net (trim s)) (split b',' row.networks) in
      if is_empty found
      then none
      else some (record { action = parse_action row.action; networks = found })

  -- `fetch`, of the rows that the query returns; `none` is an error of the database.
  unfoldable pub fetch : Option (List Row) → Option (List (AclEntry nets.Net))
  fetch none = none
  fetch (some rows) = some (filter_map entry_of (filter (λ r. r.enabled) rows))

  -- `load`, of whether the table is there or can be made, and of the query's rows.
  unfoldable pub load : Bool → Option (List Row) → Option (List (AclEntry nets.Net))
  load made rows = if made then fetch rows else none

  -- `reload` keeps the entries when the query fails.
  unfoldable pub reload :
      Option (List Row) → List (AclEntry nets.Net) → Bool × List (AclEntry nets.Net)
  reload rows entries = elim (fetch rows) [ some fresh ↦ (true, fresh) | none ↦ (false, entries) ]

  -- The loop of `decide`.
  unfoldable pub first_match : List (AclEntry nets.Net) → nets.Addr → Action
  first_match [] ip = deny
  first_match (e ∷ es) ip =
      let rest = first_match es ip in
      if any (λ n. nets.member n ip) e.networks then e.action else rest

  unfoldable pub decide : List (AclEntry nets.Net) → nets.Addr → Action
  decide entries ip = if is_empty entries then allow else first_match entries ip
