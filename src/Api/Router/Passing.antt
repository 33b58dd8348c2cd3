-- ===== src/Api/Router/Passing.antt =====
-- Which requests reach the protected handlers of backend/src/api/mod.rs.
use denis.Api.Auth.Handlers.Guard.{MayPass, admit_iff, admit-refused}
use denis.Api.Auth.Handlers.{LoginReq, unauthorized_error, bearer, admit}
use denis.Api.Auth.Hex.{random_token}
use denis.Api.Auth.Handlers.{session_answer, login_handler}
use denis.Api.Auth.Live.{live, validate-live}
use denis.Api.Auth.Users.{Knows, login_iff, login-session}
use denis.Api.Auth.{session_ttl, session_get}
use denis.Api.Router.{
  Outside, Moment, Request, is_public, ApiState, refusal, login_reply, handle, require_auth, router,
  post_login,
}
use denis.Base.{
  ◌+◌, ◌*◌, ◌<◌, true, false, Option, some, [], ◌∷◌, ◌++◌, ◌≡◌, inl, inr, refl, ap, arith, lt→ltb,
  Bool-cases,
}
use denis.Text.{Str, codes, strip_prefix}

-- The header of a client that names a text.
unfoldable pub bearer_of : Str → Option Str
bearer_of token = some (codes "Bearer " ++ token)

strip_prefix-append : (prefix text : Str) → strip_prefix prefix (prefix ++ text) ≡ some text
unfolding strip_prefix
strip_prefix-append [] text = refl
strip_prefix-append (c ∷ prefix) text = ground (arith, strip_prefix-append prefix text)

bearer-bearer_of : (token : Str) → bearer (bearer_of token) ≡ some token
unfolding bearer bearer_of
bearer-bearer_of token = strip_prefix-append (codes "Bearer ") token

module _ (o : Outside) where
  abbrev pub Passes : Option Str → Moment → ApiState o → Type 0
  Passes header m s = MayPass o.accounts o.argon o.sha256 m.now (bearer header) s.auth

  -- A request to a protected route whose header names neither a session that has not run out nor
  -- a token with a row that has not run out is answered with 401, and changes neither the lists,
  -- nor the configuration, nor the metrics, nor anything in the database.
  pub router-refused :
      (header : Option Str) (m : Moment) (request : Request) (s : ApiState o)
      → is_public request ≡ false
      → (Passes header m s → ⊥)
      → let after = router o header m request s in
        (after.0 ≡ refusal unauthorized_error)
        × (after.1.cache ≡ s.cache)
        × (after.1.settings ≡ s.settings)
        × (after.1.metrics ≡ s.metrics)
        × (after.1.auth.pool ≡ s.auth.pool)
  unfolding router require_auth
  router-refused header m request s protected stranger =
      let refused = not_admitted in
      rw (protected, require_auth, refused)
        (
          refl,
          refl,
          refl,
          refl,
          admit-refused o.accounts o.argon o.sha256 m.now (bearer header) s.auth refused,
        )
    where
      not_admitted : (admit o.accounts o.argon o.sha256 m.now (bearer header) s.auth).0 ≡ false
      not_admitted =
          elim (Bool-cases (admit o.accounts o.argon o.sha256 m.now (bearer header) s.auth).0) [
            | inl passed ↦ absurd (
                stranger
                  ((admit_iff o.accounts o.argon o.sha256 m.now (bearer header) s.auth).0 passed))
            | inr refused ↦ refused
          ]

  -- A request to a protected route whose header names a session that has not run out, or a token
  -- with a row that has not run out, is answered by the route's handler, on the state that
  -- looking at the text leaves.
  pub router-Passes :
      (header : Option Str) (m : Moment) (request : Request) (s : ApiState o)
      → is_public request ≡ false
      → Passes header m s
      → router o header m request s
        ≡ handle o request m
            (record s { auth = (admit o.accounts o.argon o.sha256 m.now (bearer header) s.auth).1 })
  unfolding router require_auth
  router-Passes header m request s protected known =
      rw
        (
          protected,
          require_auth,
          (admit_iff o.accounts o.argon o.sha256 m.now (bearer header) s.auth).1 known,
        )
        refl

  session-passes :
      (token : Str) (m : Moment) (request : Request) (s : ApiState o)
      → is_public request ≡ false
      → live m.now.instant (session_get token s.auth.sessions) ≡ true
      → router o (bearer_of token) m request s ≡ handle o request m s
  unfolding router require_auth admit
  session-passes token m request s protected fresh =
      rw
        (
          protected,
          require_auth,
          bearer-bearer_of token,
          admit,
          validate-live o.accounts o.argon o.sha256 m.now token s.auth fresh,
        )
        refl

  -- After a login of a known user through the router, a request to a protected route that names
  -- the token of the answer is answered by the route's handler for a day.
  pub login-router :
      (header : Option Str) (at m : Moment) (req : LoginReq) (request : Request) (s : ApiState o)
      → Knows o.accounts o.argon o.sha256 req.username req.password s.auth
      → is_public request ≡ false
      → m.now.instant < at.now.instant + session_ttl * 1000
      → let (reply, s') = router o header at (post_login req) s in
        (reply ≡ login_reply (session_answer (some (random_token at.bytes, session_ttl))))
        × (router o (bearer_of (random_token at.bytes)) m request s' ≡ handle o request m s')
  unfolding router handle login_handler
  login-router header at m req request s known protected soon = (
    ap (λ found. login_reply (session_answer found))
        ((login_iff o.accounts o.argon o.sha256 at.now at.bytes req.username req.password s.auth).1
          known),
    session-passes (random_token at.bytes) m request (router o header at (post_login req) s).1
        protected
        (rw
          (login-session o.accounts o.argon o.sha256 at.now at.bytes req.username req.password
            s.auth known)
          (lt→ltb m.now.instant (at.now.instant + session_ttl * 1000) soon)),
  )
