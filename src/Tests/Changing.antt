-- ===== src/Tests/Changing.antt =====
-- An example of the theorem on a change of the block list and the queries behind it.
use denis.Api.Auth.{session_get}
use denis.Api.Auth.Handlers.{bearer}
use denis.Api.Router.Effect.{after_change, post_blocklist-blocked}
use denis.Api.Router.Passing.{Passes}
use denis.Api.Router.{ApiState, post_blocklist, router}
use denis.Base.{true, Option, none, some, [], ◌∷◌, ok, inl, ◌≡◌, refl}
use denis.Handler.Serve.{handle_parsed}
use denis.Handler.Upstream.{blocked}
use denis.Repo.Decide.Suffixes.{itself, Covers}
use denis.Repo.Decide.{contains}
use denis.Repo.Domains.{normalize, is_valid_domain}
use denis.Tests.Samples.{buffer, one_name}
use denis.Tests.Serving.{one_slot, number, ask, clock, question}
use denis.Tests.Outside.{outside, moment, api}
use denis.Text.{Str, codes, split, trim, trim_end_matches, str_eq, strip_prefix}

abbrev in_session : ApiState outside
in_session = record api { auth = record api.auth { sessions = (codes "t", 9000) ∷ [] } }

abbrev session_header : Option Str
session_header = some (codes "Bearer t")

passes : Passes outside session_header (moment 1) in_session
unfolding bearer strip_prefix session_get str_eq
passes = inl refl

normalized : normalize outside.unicode (codes " A.io. ") ≡ codes "a.io"
unfolding normalize trim trim_end_matches
normalized = refl

is_valid : is_valid_domain (normalize outside.unicode (codes " A.io. ")) ≡ true
unfolding normalize trim trim_end_matches is_valid_domain split
is_valid = refl

nothing_allowed : ¬ Covers [] (codes "a.io")
unfolding contains
nothing_allowed c = cc (c.held)

post_blocklist-blocked_example :
    let s' =
      (router outside session_header (moment 1) (post_blocklist (codes " A.io. ")) in_session).1 in
    (handle_parsed outside.db one_slot buffer one_name number ask clock question
      (after_change outside one_slot buffer one_name number ask s' none [])).0
    ≡ ok (blocked question in_session.settings.config.blocking_mode).raw
post_blocklist-blocked_example =
    post_blocklist-blocked outside one_slot buffer one_name number ask session_header (moment 1)
      (codes " A.io. ") in_session clock question none [] passes is_valid
      (itself (rw normalized refl)) nothing_allowed
