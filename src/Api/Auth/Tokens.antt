-- ===== src/Api/Auth/Tokens.antt =====
-- The tokens that backend/src/api/auth.rs makes for programs.
use denis.Api.Auth.Hex.{random_token, sha256_hex}
use denis.Api.Auth.Live.{validate_iff}
use denis.Api.Auth.Rows.{Accounts, AccountsSql, Argon2, unexpired, selects}
use denis.Api.Auth.{Auth, Now, expiry_of, create_token, validate}
use denis.Base.Int.{ℤ}
use denis.Base.{
  ℕ, Bool, true, false, ◌||◌, Option, List, [], ◌∷◌, ◌++◌, ok, any, any-append, ◌≡◌, inl, inr, refl,
  ap, ◌∙◌, Option-cases, Result-cases,
}
use denis.Text.{Str, str_eq, str_eq_refl}

module _ (db : Accounts) (laws : AccountsSql db) (argon : Argon2) (sha256 : Str → List ℕ) where
  created :
      (now : Now) (bytes : List ℕ) (name token : Str) (ttl : Option ℤ) (s : Auth db.Pool)
      → (create_token db argon sha256 now bytes name ttl s).0 ≡ ok token
      → (token ≡ random_token bytes)
        × (db.insert_token name
              (sha256_hex sha256 (random_token bytes))
              now.unix
              (expiry_of db argon sha256 now.unix ttl)
              s.pool
            ≡ ok (create_token db argon sha256 now bytes name ttl s).1.pool)
  unfolding create_token
  created now bytes name token ttl s h =
      elim (Result-cases (
        db.insert_token name (sha256_hex sha256 (random_token bytes)) now.unix
          (expiry_of db argon sha256 now.unix ttl) s.pool)) [
            | inl (u, e) ↦ absurd (cc (rw (create_token, e) at h))
            | inr (pool, e) ↦
                let got = rw (create_token, e) at h in
                let same : token ≡ random_token bytes = cc got in (same, rw (create_token, e) refl)
          ]

  -- On a database that does what SQL says, a token that has been created is accepted in the state
  -- that this leaves as long as it has not run out, once the query for it succeeds; one without a
  -- lifetime never runs out.
  pub create_token-validate :
      (at now : Now) (bytes : List ℕ) (name token : Str) (ttl : Option ℤ) (s : Auth db.Pool)
      (found : Option ℤ)
      → (create_token db argon sha256 at bytes name ttl s).0 ≡ ok token
      → unexpired now.unix (expiry_of db argon sha256 at.unix ttl) ≡ true
      → db.find_token
          (sha256_hex sha256 token)
          now.unix
          (create_token db argon sha256 at bytes name ttl s).1.pool
        ≡ ok found
      → (validate db argon sha256 now token (create_token db argon sha256 at bytes name ttl s).1).0
        ≡ true
  create_token-validate at now bytes name token ttl s found made lasts asked =
      let (same, stored_row) = created at bytes name token ttl s made in
      let (id, rows) = laws.insert_token_rows name _ at.unix _ s.pool _ stored_row in
      elim (Option-cases found) [
        | inr (row, e) ↦ (validate_iff db argon sha256 now token _).1 (inr (row, asked ∙ ap ok e))
        | inl e ↦
            let absent =
              laws.find_token_none (sha256_hex sha256 token) now.unix _ (asked ∙ ap ok e) in
            absurd (cc (absent, present id rows same lasts))
      ]
    where
      after : db.Pool
      after = (create_token db argon sha256 at bytes name ttl s).1.pool

      or_true : (b : Bool) → (b || true) ≡ true
      or_true true = refl
      or_true false = refl

      present :
          (id : ℤ)
          → db.tokens after
            ≡ db.tokens s.pool
              ++ record {
                id = id;
                name = name;
                token_hash = sha256_hex sha256 (random_token bytes);
                created_at = at.unix;
                expires_at = expiry_of db argon sha256 at.unix ttl;
              }
                ∷ []
          → token ≡ random_token bytes
          → unexpired now.unix (expiry_of db argon sha256 at.unix ttl) ≡ true
          → any (selects (sha256_hex sha256 token) now.unix) (db.tokens after) ≡ true
      present id rows same lasts =
          let hit : str_eq (sha256_hex sha256 (random_token bytes)) (sha256_hex sha256 token)
              ≡ true =
            rw same (str_eq_refl (sha256_hex sha256 (random_token bytes))) in
          rw
            (
              rows,
              any-append (selects (sha256_hex sha256 token) now.unix) (db.tokens s.pool),
              hit,
              lasts,
            )
            (or_true (any (selects (sha256_hex sha256 token) now.unix) (db.tokens s.pool)))
