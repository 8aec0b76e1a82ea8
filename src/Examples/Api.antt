-- ===== src/Examples/Api.antt =====
-- The API on a lookup by a caller and on one by a stranger.
use geotagger.Prelude.{◌≡◌, refl, Bool, [], ◌∷◌, ◌++◌, err}
use geotagger.Text.Bytes.{codes}
use geotagger.Text.Strings.{has_prefix}
use geotagger.Audit.{Event}
use geotagger.Auth.{verify_authorization, unauthorized}
use geotagger.HttpApi.Server.{Response, Request, lookup_get}
use geotagger.HttpApi.Routes.{serve}
use geotagger.HttpApi.Answered.{Answered}
use geotagger.HttpApi.Audited.{caller_of}
use geotagger.HttpApi.Served.{MakesIds, made_id, with_id, serve-Answered}
use geotagger.HttpApi.Denied.{serve_unauthenticated_same, serve_unauthenticated}
use geotagger.Examples.Fixtures.{hash, verifier, outside, server, start, lookup_with}

makes : MakesIds outside
makes = record { random = λ n bytes h e. cc; time = λ t e. cc }

abbrev known_caller : Request
known_caller = lookup_with (codes "Bearer app.secret")

abbrev stranger : Request
stranger = lookup_with (codes "Basic app")

abbrev other_stranger : Request
other_stranger = record stranger { route = lookup_get; body = [] }

serve-Answered_example :
    Answered server
      (made_id outside 1)
      (caller_of (verify_authorization hash verifier 2000 (codes "Bearer app.secret")))
      (with_id (made_id outside 1) start)
      (serve server outside known_caller start)
serve-Answered_example = serve-Answered server outside known_caller start makes tt

stranger_refused : verify_authorization hash verifier 2000 (codes "Basic app") ≡ err unauthorized
unfolding verify_authorization has_prefix
stranger_refused = refl

serve_unauthenticated_same_example :
    serve server outside stranger start ≡ serve server outside other_stranger start
serve_unauthenticated_same_example =
    serve_unauthenticated_same server outside makes stranger other_stranger start unauthorized tt tt
      refl stranger_refused

serve_unauthenticated_example :
    (event : Event) × (accepted : Bool) × (response : Response) × ((serve server outside stranger
        start).audits
      ≡ start.audits ++ (event, accepted) ∷ [])
    × ((serve server outside stranger start).sent ≡ start.sent ++ response ∷ [])
    × ((serve server outside stranger start).lookups ≡ start.lookups)
    × (event.caller_id ≡ codes "unauthenticated")
    × (event.ip_value ≡ [])
    × (response.status ≡ 401)
serve_unauthenticated_example =
    serve_unauthenticated server outside makes stranger start unauthorized tt stranger_refused
