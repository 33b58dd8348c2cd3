-- ===== src/Api/Auth/Handlers/Guard.antt =====
-- Who passes the guard of backend/src/api/auth.rs.
use denis.Api.Auth.Handlers.{admit}
use denis.Api.Auth.Live.{
  live, HasRow, validate_iff, validate-live, validate-not_live, dropped, dropped-pool,
}
use denis.Api.Auth.Rows.{Accounts, Argon2}
use denis.Api.Auth.{Auth, Now, session_get, validate_token}
use denis.Base.{
  ℕ, true, false, Option, none, some, List, ◌≡◌, ◌↔◌, ◌⊎◌, inl, inr, refl, ap, ◌∙◌, Bool-cases,
  Option-cases, Result-cases,
}
use denis.Api.Auth.Hex.{sha256_hex}
use denis.Text.{Str}

module _ (db : Accounts) (argon : Argon2) (sha256 : Str → List ℕ) where
  -- A session that has not run out, or a token with a row that has not.
  abbrev pub MayPass : Now → Option Str → Auth db.Pool → Type 0
  MayPass now none s = ⊥
  MayPass now (some token) s =
      (live now.instant (session_get token s.sessions) ≡ true) ⊎ HasRow db argon sha256 now token s

  pub admit_iff :
      (now : Now) (token : Option Str) (s : Auth db.Pool)
      → ((admit db argon sha256 now token s).0 ≡ true) ↔ MayPass now token s
  unfolding admit
  admit_iff now none s = (λ e. absurd (cc e), λ never. absurd never)
  admit_iff now (some token) s = validate_iff db argon sha256 now token s

  refused-token :
      (now : Now) (token : Str) (s : Auth db.Pool)
      → (validate_token db argon sha256 now token s).0 ≡ false
      → (validate_token db argon sha256 now token s).1 ≡ s
  unfolding validate_token
  refused-token now token s h =
      elim (Result-cases (db.find_token (sha256_hex sha256 token) now.unix s.pool)) [
        | inl (u, e) ↦ rw (validate_token, e) refl
        | inr (found, e) ↦ elim (Option-cases found) [
          | inl n ↦ rw (validate_token, e, n) refl
          | inr (id, y) ↦ absurd (cc (rw (validate_token, e, y) at h))
        ]
      ]

  -- One who is refused changes nothing in the database.
  pub admit-refused :
      (now : Now) (token : Option Str) (s : Auth db.Pool)
      → (admit db argon sha256 now token s).0 ≡ false
      → (admit db argon sha256 now token s).1.pool ≡ s.pool
  unfolding admit
  admit-refused now none s h = refl
  admit-refused now (some token) s h =
      elim (Bool-cases (live now.instant (session_get token s.sessions))) [
        | inl l ↦ absurd (cc (rw (validate-live db argon sha256 now token s l) at h))
        | inr n ↦
            let before = dropped db argon sha256 token (session_get token s.sessions) s in
            let same = validate-not_live db argon sha256 now token s n in
            rw same (
              ap (λ (t : Auth db.Pool). t.pool) (refused-token now token before (rw same at h))
              ∙ dropped-pool db argon sha256 token (session_get token s.sessions) s)
      ]
