-- ===== src/Api/Auth/Handlers.antt =====
-- The handlers of backend/src/api/auth.rs, and the guard of the protected routes.
pub mod Guard
use denis.Api.Auth.Rows.{Accounts, Argon2, Sqlx, UserInfo, TokenInfo}
use denis.Api.Auth.{
  Auth, Now, login, validate, list_users, list_tokens, create_user, set_password, delete_user,
  create_token, revoke_token,
}
use denis.Api.{ApiError, ApiResponse, ok_response, internal, unauthorized, not_found}
use denis.Base.Int.{ℤ}
use denis.Base.{
  ℕ, Bool, true, false, Option, none, some, List, [], ◌∷◌, Result, ok, err, ◌==◌, if◌then◌else◌,
}
use denis.Text.{Str, codes, strip_prefix}

pub record LoginReq : Type 0 where
  pub username : Str
  pub password : Str

pub record LoginResp : Type 0 where
  pub token : Str
  pub expires_in : ℕ

pub record CreateUserReq : Type 0 where
  pub username : Str
  pub password : Str

pub record PasswordReq : Type 0 where
  pub password : Str

pub record CreateTokenReq : Type 0 where
  pub name : Str
  pub ttl_secs : Option ℤ

pub record TokenCreated : Type 0 where
  pub token : Str

pub record Changed : Type 0 where
  pub changed : Bool

abbrev pub Answer : Type 0 → Type 0
Answer T = Result ApiError (ApiResponse T)

unfoldable pub invalid_credentials : ApiError
invalid_credentials = record { status = unauthorized; message = codes "invalid credentials" }

unfoldable pub user_not_found : ApiError
user_not_found = record { status = not_found; message = codes "user not found" }

unfoldable pub token_not_found : ApiError
token_not_found = record { status = not_found; message = codes "token not found" }

unfoldable pub unauthorized_error : ApiError
unauthorized_error = record { status = unauthorized; message = codes "unauthorized" }

abbrev pub session_answer : Option (Str × ℕ) → Answer LoginResp
session_answer (some (token, expires_in)) =
    ok (ok_response (record { token = token; expires_in = expires_in }))
session_answer none = err invalid_credentials

-- `.map_err(ApiError::internal)?`
abbrev pub answer_of {ℓ} : {A : Type ℓ} {T : Type 0} → (A → T) → Result Str A → Answer T
answer_of f (ok a) = ok (ok_response (f a))
answer_of f (err e) = err (internal e)

abbrev pub changed_answer : ApiError → Sqlx Bool → Answer Changed
changed_answer missing (ok true) = ok (ok_response (record { changed = true }))
changed_answer missing (ok false) = err missing
changed_answer missing (err e) = err (internal e)

-- The text behind "Bearer ". The header `Authorization` is `none` where there is none, or where its
-- value is no text (`to_str`).
unfoldable pub bearer : Option Str → Option Str
bearer none = none
bearer (some header) = strip_prefix (codes "Bearer ") header

module _ (db : Accounts) (argon : Argon2) (sha256 : Str → List ℕ) where
  abbrev State : Type 0
  State = Auth db.Pool

  unfoldable pub login_handler : Now → List ℕ → LoginReq → State → Answer LoginResp × State
  login_handler now bytes req s =
      let (session, s') = login db argon sha256 now bytes req.username req.password s in
      (session_answer session, s')

  unfoldable pub list_users_handler : State → Answer (List UserInfo) × State
  list_users_handler s = (answer_of (λ users. users) (list_users db argon sha256 s), s)

  unfoldable pub create_user_handler : Now → Str → CreateUserReq → State → Answer Changed × State
  create_user_handler now salt req s =
      let (res, s') = create_user db argon sha256 now salt req.username req.password s in
      (answer_of (λ done. record { changed = true }) res, s')

  unfoldable pub set_password_handler : Str → Str → PasswordReq → State → Answer Changed × State
  set_password_handler salt username req s =
      let (res, s') = set_password db argon sha256 salt username req.password s in
      (changed_answer user_not_found res, s')

  unfoldable pub delete_user_handler : Str → State → Answer Changed × State
  delete_user_handler username s =
      let (res, s') = delete_user db argon sha256 username s in
      (changed_answer user_not_found res, s')

  unfoldable pub create_token_handler :
      Now → List ℕ → CreateTokenReq → State → Answer TokenCreated × State
  create_token_handler now bytes req s =
      let (res, s') = create_token db argon sha256 now bytes req.name req.ttl_secs s in
      (answer_of (λ token. record { token = token }) res, s')

  unfoldable pub list_tokens_handler : State → Answer (List TokenInfo) × State
  list_tokens_handler s = (answer_of (λ tokens. tokens) (list_tokens db argon sha256 s), s)

  unfoldable pub revoke_token_handler : ℤ → State → Answer Changed × State
  revoke_token_handler id s =
      let (res, s') = revoke_token db argon sha256 id s in (changed_answer token_not_found res, s')

  -- The guard of `require_auth`: whether the request may go on.
  unfoldable pub admit : Now → Option Str → State → Bool × State
  admit now none s = (false, s)
  admit now (some token) s = validate db argon sha256 now token s
