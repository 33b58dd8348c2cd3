-- ===== src/Tests/Accounting.antt =====
-- Examples of the theorems on users, sessions and tokens.
use denis.Api.Auth.Hex.{random_token}
use denis.Api.Auth.Live.{live, HasRow, validate_iff}
use denis.Api.Auth.Rows.{UserRow, TokenRow, Accounts, AccountsSql, Argon2, Verifies, selects}
use denis.Api.Auth.Survive.{Call, check, change_password, drop_user, perform_all, login-validate}
use denis.Api.Auth.Users.{Knows}
use denis.Api.Auth.{Auth, Now, session_get, verify, login, validate}
use denis.Base.Int.{ℤ, pos, ltb_ℤ}
use denis.Base.{
  ℕ, ◌*◌, ◌||◌, true, false, not, Option, none, some, List, [], ◌∷◌, ◌++◌, map, Result, ok, length,
  any, filter, if◌then◌else◌, ◌≡◌, ◌↔◌, ◌⊎◌, inl, inr, refl, sym, ap, ◌∙◌, arith, Bool-cases,
}
use denis.Text.{Str, codes, str_eq, str_eq_refl}

-- A pool of users and tokens, whose statements always succeed.
abbrev pub Rows : Type 0
Rows = List UserRow × List TokenRow

unfoldable pub find_user_row : Str → List UserRow → Option (ℤ × Str)
find_user_row name [] = none
find_user_row name (u ∷ users) =
    let rest = find_user_row name users in
    if str_eq u.username name then some (u.id, u.password_hash) else rest

pub find_token_row : Str → ℤ → List TokenRow → Option ℤ
find_token_row hash now [] = none
find_token_row hash now (t ∷ tokens) =
    let rest = find_token_row hash now tokens in if selects hash now t then some t.id else rest

abbrev with_hash : Str → Str → UserRow → UserRow
with_hash hash name u = if str_eq u.username name then record u { password_hash = hash } else u

abbrev pub accounts : Accounts
accounts = record {
  Pool = Rows;
  create_users = λ p. ok p;
  create_api_tokens = λ p. ok p;
  count_users = λ p. ok (length p.0);
  insert_user = λ name hash now p.
      ok (p.0 ++ record { id = pos (length p.0); username = name; password_hash = hash } ∷ [], p.1);
  find_user = λ name p. ok (find_user_row name p.0);
  touch_user = λ now id p. p;
  update_password = λ hash name p. ok (1, (map (with_hash hash name) p.0, p.1));
  remove_user = λ name p. ok (1, (filter (λ u. not (str_eq u.username name)) p.0, p.1));
  select_users = λ p. ok [];
  insert_token = λ name hash now expires p. ok (
    p.0,
    p.1
        ++ record {
          id = pos (length p.1);
          name = name;
          token_hash = hash;
          created_at = now;
          expires_at = expires;
        }
          ∷ [],
  );
  find_token = λ hash now p. ok (find_token_row hash now p.1);
  touch_token = λ now id p. p;
  remove_token = λ id p. ok (1, (p.0, filter (λ t. ltb_ℤ t.id id || ltb_ℤ id t.id) p.1));
  select_tokens = λ p. ok [];
  users = λ p. p.0;
  tokens = λ p. p.1;
}

same_ok : {A : Type 0} {a b : A} → Path (Result Str A) (ok a) (ok b) → a ≡ b
same_ok e = cc e

no_users : (users : List UserRow) → length users ≡ 0 → users ≡ []
no_users [] e = refl
no_users (u ∷ users) e = absurd (omega (arith, e))

one_user :
    (u : UserRow) (users : List UserRow)
    → users ≡ u ∷ []
    → find_user_row u.username users ≡ some (u.id, u.password_hash)
unfolding find_user_row
one_user u users e = rw (e, str_eq_refl u.username) refl

token_some :
    (hash : Str) (now : ℤ) (tokens : List TokenRow) (id : ℤ)
    → find_token_row hash now tokens ≡ some id
    → any (selects hash now) tokens ≡ true
unfolding find_token_row
token_some hash now [] id e = absurd (cc e)
token_some hash now (t ∷ tokens) id e = elim (Bool-cases (selects hash now t)) [
  | inl hit ↦ rw hit refl
  | inr miss ↦ rw miss (token_some hash now tokens id (rw miss at e))
]

token_none :
    (hash : Str) (now : ℤ) (tokens : List TokenRow)
    → find_token_row hash now tokens ≡ none
    → any (selects hash now) tokens ≡ false
unfolding find_token_row
token_none hash now [] e = refl
token_none hash now (t ∷ tokens) e = elim (Bool-cases (selects hash now t)) [
  | inl hit ↦ absurd (cc (rw hit at e))
  | inr miss ↦ rw miss (token_none hash now tokens (rw miss at e))
]

pub accounts-Sql : AccountsSql accounts
accounts-Sql = record {
  count_users_zero = λ p e. no_users p.0 (same_ok e);
  insert_user_rows =
      λ name hash now p p' e. (pos (length p.0), ap (λ (q : Rows). q.0) (sym (same_ok e)));
  find_user_only = λ name hash id p o rows found.
      sym (same_ok found)
      ∙ one_user (record { id = id; username = name; password_hash = hash }) p.0 rows;
  insert_token_rows =
      λ name hash now expires p p' e. (pos (length p.1), ap (λ (q : Rows). q.1) (sym (same_ok e)));
  find_token_some = λ hash now p id e. token_some hash now p.1 id (same_ok e);
  find_token_none = λ hash now p e. token_none hash now p.1 (same_ok e);
}

-- Passwords that are their own hashes, and a digest that is the text itself.
abbrev pub plain : Argon2
plain = record {
  Phc = Str;
  hash_phc = λ salt password. password;
  parse_phc = λ text. some text;
  check = λ password phc. str_eq password phc;
}

pub plain-Verifies : Verifies plain
plain-Verifies = record { check_hash = λ salt password. (password, refl, str_eq_refl password) }

abbrev pub digest : Str → List ℕ
digest s = s

abbrev pub at_second : ℕ → Now
at_second n = record { instant = n * 1000; unix = pos n }

abbrev pub eve : UserRow
eve = record { id = pos 7; username = codes "eve"; password_hash = codes "pw" }

abbrev pub state : Auth Rows
state = record { pool = (eve ∷ [], []); sessions = [] }

eve_row : find_user_row (codes "eve") (eve ∷ []) ≡ some (pos 7, codes "pw")
unfolding find_user_row str_eq
eve_row = refl

eve_verified : verify plain (codes "pw") (codes "pw") ≡ true
unfolding verify str_eq
eve_verified = refl

pub eve_known : Knows accounts plain digest (codes "eve") (codes "pw") state
eve_known = (pos 7, codes "pw", ap ok eve_row, eve_verified)

abbrev bytes : List ℕ
bytes = 1 ∷ 171 ∷ []

-- A change of the password, the deletion of the user, and a look at the token, all within the day.
abbrev calls : List (Now × Call)
calls =
    (at_second 10, change_password [] (codes "eve") (codes "new"))
    ∷ (at_second 20, drop_user (codes "eve"))
    ∷ (at_second 30, check (random_token bytes))
    ∷ []

login-validate_example :
    (validate accounts plain digest (at_second 60) (random_token bytes) (
      perform_all accounts plain digest calls
        (login accounts plain digest (at_second 0) bytes (codes "eve") (codes "pw") state).1)).0
    ≡ true
login-validate_example =
    login-validate accounts plain digest calls (at_second 0) (at_second 60) bytes (codes "eve")
      (codes "pw") state eve_known ((omega arith, tt), ((omega arith, tt), ((omega arith, tt), tt)))
      (omega arith)

validate_iff_example :
    ((validate accounts plain digest (at_second 60) (codes "x") state).0 ≡ true) ↔ (
      (live 60_000 (session_get (codes "x") state.sessions) ≡ true)
      ⊎ HasRow accounts plain digest (at_second 60) (codes "x") state)
validate_iff_example = validate_iff accounts plain digest (at_second 60) (codes "x") state
