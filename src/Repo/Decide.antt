-- ===== src/Repo/Decide.antt =====
-- backend/src/repo/cache.rs: the sets of domains, and the decision whether a name is blocked.
pub mod Suffixes
use denis.Base.{Bool, true, false, not, ◌&&◌, ◌||◌, List, [], ◌∷◌, any, ◌==◌, if◌then◌else◌}
use denis.Text.{Str, dot, str_eq}

-- A `HashSet<String>`: its members, with no order that the program sees.
abbrev pub DomainSet : Type 0
DomainSet = List Str

unfoldable pub contains : DomainSet → Str → Bool
contains s d = any (str_eq d) s

abbrev pub is_empty {ℓ} : {A : Type ℓ} → List A → Bool
is_empty [] = true
is_empty (x ∷ xs) = false

-- `memchr_iter(b'.', name)` and the slice behind each dot that it finds.
unfoldable pub dot_suffixes : Str → List Str
dot_suffixes [] = []
dot_suffixes (b ∷ s) = let rest = dot_suffixes s in if b == dot then s ∷ rest else rest

any_suffix_loop : DomainSet → List Str → Bool
unfolding contains
any_suffix_loop set [] = false
any_suffix_loop set (s ∷ ss) =
    let rest = any_suffix_loop set ss in if contains set s then true else rest

unfoldable pub any_suffix_match : DomainSet → Str → Bool
unfolding any_suffix_loop dot_suffixes contains
any_suffix_match set name =
    if is_empty set
    then false
    else if contains set name
    then true
    else any_suffix_loop set (dot_suffixes name)

-- The loop of `decide`, with the mutable `blocked`.
decide_loop : DomainSet → DomainSet → Bool → List Str → Bool
unfolding contains
decide_loop block allow blocked [] = blocked
decide_loop block allow blocked (s ∷ ss) =
    let blocked' = if not blocked && contains block s then true else blocked in
    let rest = decide_loop block allow blocked' ss in if contains allow s then false else rest

unfoldable pub decide : DomainSet → DomainSet → Str → Bool
unfolding any_suffix_match decide_loop dot_suffixes contains
decide block allow name_lc =
    if is_empty block
    then false
    else if is_empty allow
    then any_suffix_match block name_lc
    else if contains allow name_lc
    then false
    else decide_loop block allow (contains block name_lc) (dot_suffixes name_lc)
