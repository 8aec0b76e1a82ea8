-- ===== src/HttpApi/Denied.antt =====
-- Requests that do not authenticate.
use geotagger.Prelude.{◌+◌, ◌≡◌, refl, sym, ap, ◌∙◌, Bool, false, [], ◌∷◌, ◌++◌, Option, none, err}
use geotagger.Text.Bytes.{Str, codes, is_empty}
use geotagger.Text.Dict.{insert}
use geotagger.Net.{invalid, is_valid}
use geotagger.Audit.{Event}
use geotagger.Geo.{no_result}
use geotagger.Metrics.{add_64}
use geotagger.Auth.{AuthError, verify_authorization}
use geotagger.HttpApi.Server.{
  Outside, Server, Request, Response, Route, country, lookup_post, lookup_get, me, unmatched, World,
  Action, error, ◌>>=◌,
}
use geotagger.HttpApi.Actions.{now, audit_event, publish_audit, set_header, write_error}
use geotagger.HttpApi.Handlers.{authenticate, admit, deny_caller}
use geotagger.HttpApi.Routes.{
  serve_country, serve_lookup_post, serve_lookup_get, serve_me, dispatch, close_request, serve,
}
use geotagger.HttpApi.Answered.{publish_audit-Published, publish_audit_audits}
use geotagger.HttpApi.Audited.{verdict}
use geotagger.HttpApi.Served.{IsKnown, MakesIds, made_id, made_id-ne-nil, opened, serve_lem}

module _ (s : Server) (o : Outside) (id : Str) (some_id : is_empty id ≡ false) where
  abbrev counted : World → World
  counted w = record w {
    metrics = record w.metrics { auth_failures = add_64 w.metrics.auth_failures 1 };
  }

  abbrev denial_audit : World → Option Bool × World
  denial_audit w =
      publish_audit o s id (codes "unauthenticated") invalid no_result "unauthorized" 401 0
        (counted w)

  denial : World → Event
  denial w =
      audit_event o s (o.clock w.readings) id (codes "unauthenticated") invalid no_result
        "unauthorized" 401 0

  abbrev challenge : World → Response
  challenge w = record {
    status = 401;
    headers =
        insert (codes "Content-Type") (codes "application/json")
          (insert (codes "WWW-Authenticate") (codes "Bearer") (denial_audit w).1.headers);
    body = error "unauthorized";
  }

  -- What a denial leaves behind: an event without an address, and a challenge.
  pub record Denied (w : World) (r : Option Str × World) : Type 0 where
    pub returned : r.0 ≡ none
    pub event : Event
    pub accepted : Bool
    pub response : Response
    pub audits : r.1.audits ≡ w.audits ++ (event, accepted) ∷ []
    pub sent : r.1.sent ≡ w.sent ++ response ∷ []
    pub lookups : r.1.lookups ≡ w.lookups
    pub of_nobody : event.caller_id ≡ codes "unauthenticated"
    pub no_address : event.ip_value ≡ []
    pub status : response.status ≡ 401

  deny_caller-Denied : (w : World) → Denied w (deny_caller s o id w)
  unfolding deny_caller set_header write_error audit_event is_valid denial
  deny_caller-Denied w =
      let p =
        publish_audit-Published s o id some_id (codes "unauthenticated") invalid no_result
          "unauthorized" 401 0 (counted w) in
      let published =
        publish_audit_audits s o id some_id (codes "unauthenticated") invalid no_result
          "unauthorized" 401 0 (counted w) in
      rw p.value (record {
        returned = refl;
        event = denial w;
        accepted = o.publish w.audits (denial w);
        response = challenge w;
        audits = published;
        sent = ap (λ l. l ++ challenge w ∷ []) p.sent;
        lookups = p.lookups;
        of_nobody = refl;
        no_address = refl;
        status = refl;
      })

  bind_denied :
      (header : Str) (k : Str → Action (Unit {0})) (w : World) {e : AuthError}
      → verdict s o header w ≡ err e
      → (authenticate s o id header >>= k) w
        ≡ (none, (deny_caller s o id (record w { readings = w.readings + 1 })).1)
  unfolding authenticate admit now
  bind_denied header k w refused =
      rw refused (rw (deny_caller-Denied (record w { readings = w.readings + 1 })).returned refl)

  -- A request that does not authenticate is answered from its header alone.
  dispatch_denied :
      (route : Route) (r : Request) (w : World) {e : AuthError}
      → IsKnown route
      → verdict s o r.authorization w ≡ err e
      → dispatch s o route id r w
        ≡ (none, (deny_caller s o id (record w { readings = w.readings + 1 })).1)
  unfolding dispatch serve_country serve_lookup_post serve_lookup_get serve_me
  dispatch_denied country r w _ refused = bind_denied r.authorization _ w refused
  dispatch_denied lookup_post r w _ refused = bind_denied r.authorization _ w refused
  dispatch_denied lookup_get r w _ refused = bind_denied r.authorization _ w refused
  dispatch_denied me r w _ refused = bind_denied r.authorization _ w refused
  dispatch_denied (unmatched status) r w known refused = absurd known

module _ (s : Server) (o : Outside) (makes : MakesIds o) where
  serve_denied :
      (r : Request) (w : World) {e : AuthError}
      → IsKnown r.route
      → verify_authorization o.sha256 s.auth (o.clock (w.readings + 1 + 1)) r.authorization ≡ err e
      → serve s o r w
        ≡ (close_request o
            (o.clock w.readings)
            (deny_caller s o
              (made_id o (w.readings + 1))
              (record (opened o w) { readings = w.readings + 1 + 1 + 1 })).1).1
  unfolding opened
  serve_denied r w known refused =
      serve_lem s o r w
      ∙ ap (λ t. (close_request o (o.clock w.readings) t.1).1)
          (dispatch_denied s o (made_id o (w.readings + 1))
            (made_id-ne-nil o (w.readings + 1) makes) r.route r (opened o w) known refused)

  -- Where random bytes and printed times are not empty: a request to a route of the API whose
  -- Authorization header is refused leaves nothing behind that
  -- depends on its route, body, query, forwarding headers or remote address.
  pub serve_unauthenticated_same :
      (r r' : Request) (w : World) (e : AuthError)
      → IsKnown r.route
      → IsKnown r'.route
      → r.authorization ≡ r'.authorization
      → verify_authorization o.sha256 s.auth (o.clock (w.readings + 1 + 1)) r.authorization ≡ err e
      → serve s o r w ≡ serve s o r' w
  serve_unauthenticated_same r r' w e known known' same refused =
      serve_denied r w {e = e} known refused
      ∙ sym (serve_denied r' w {e = e} known' (rw (← same) refused))

  -- Where random bytes and printed times are not empty: a request to a route of the API whose
  -- Authorization header is refused is answered with one
  -- response, a 401. Its one event names no caller and holds no address, and nothing is looked up.
  pub serve_unauthenticated :
      (r : Request) (w : World) (e : AuthError)
      → IsKnown r.route
      → verify_authorization o.sha256 s.auth (o.clock (w.readings + 1 + 1)) r.authorization ≡ err e
      → (event : Event) × (accepted : Bool) × (response : Response) × ((serve s o r w).audits
          ≡ w.audits ++ (event, accepted) ∷ [])
        × ((serve s o r w).sent ≡ w.sent ++ response ∷ [])
        × ((serve s o r w).lookups ≡ w.lookups)
        × (event.caller_id ≡ codes "unauthenticated")
        × (event.ip_value ≡ [])
        × (response.status ≡ 401)
  unfolding close_request opened
  serve_unauthenticated r w e known refused =
      let d =
        deny_caller-Denied s o (made_id o (w.readings + 1))
          (made_id-ne-nil o (w.readings + 1) makes)
          (record (opened o w) { readings = w.readings + 1 + 1 + 1 }) in
      rw (serve_denied r w known refused) (
        d.event, d.accepted, d.response, d.audits, d.sent, d.lookups, d.of_nobody, d.no_address,
        d.status,
      )
