-- ===== src/HttpApi/Routes.antt =====
-- The handlers of the four routes, the middleware round them and the probes.
use geotagger.Prelude.{ℕ, Bool, true, false, [], ◌∷◌, ◌++◌, Option, none, some, if◌then◌else◌}
use geotagger.Text.Bytes.{Str, codes, is_empty}
use geotagger.Text.Trim.{trim_space}
use geotagger.Net.{Addr, invalid}
use geotagger.Geo.{GeoResult}
use geotagger.Metrics.{Metrics, add_64, dec_64, observe_request}
use geotagger.HttpApi.Server.{
  Outside, Server, Request, Route, country, lookup_post, lookup_get, me, unmatched, World, Action,
  error, country_only, full, plain, pure, ◌>>=◌, ◌>>◌,
}
use geotagger.HttpApi.Actions.{
  change_metrics, set_header, micros, now, request_id, request_id_from_context, publish_audit,
  refuse,
}
use geotagger.HttpApi.ClientIp.{client_ip}
use geotagger.HttpApi.Handlers.{
  authenticate, check_allowed, parse_ip, ip_from_json, perform_lookup, conclude,
  build_lookup_response,
}

abbrev pub begin_request : Metrics → Metrics
begin_request m = record m { requests = add_64 m.requests 1; inflight = add_64 m.inflight 1 }

abbrev pub end_request : ℕ → Metrics → Metrics
end_request us m = observe_request us (record m { inflight = dec_64 m.inflight })

module _ (o : Outside) where
  -- requestMiddleware, up to the call of the handler; the id that it makes.
  unfoldable pub open_request : Action (ℕ × Str)
  unfolding now request_id set_header
  open_request = do
    started ← now o
    change_metrics begin_request
    id ← request_id o
    set_header "X-Request-ID" id
    set_header "X-Content-Type-Options" (codes "nosniff")
    set_header "Cache-Control" (codes "no-store")
    pure (started, id)

  -- The deferred function runs however the handler returned.
  unfoldable pub close_request : ℕ → Action (Unit {0})
  unfolding now
  close_request started = do ended ← now o; change_metrics (end_request (micros started ended))

module _ (s : Server) (o : Outside) where
  -- The answer of /v1/country to a lookup that found the address.
  unfoldable pub send_country : Str → Str → Addr → GeoResult → ℕ → Action (Unit {0})
  unfolding conclude
  send_country id caller ip result latency_us =
      if is_empty result.country
      then (do
        accepted ← publish_audit o s id caller ip result "not_found" 404 latency_us
        conclude accepted 404 (error "country not found"))
      else (do
        accepted ← publish_audit o s id caller ip result "ok" 200 latency_us
        conclude accepted 200 (country_only result.country))

  unfoldable pub serve_country : Str → Request → Action (Unit {0})
  unfolding authenticate ip_from_json perform_lookup send_country
  serve_country id r = do
    caller ← authenticate s o id r.authorization
    ip ← ip_from_json s o id caller r
    (result, latency_us) ← perform_lookup s o id caller ip "country"
    send_country id caller ip result latency_us

  -- The response is built, and the context's id read, after the event was accepted.
  unfoldable pub send_full : Bool → Str → Addr → GeoResult → ℕ → Action (Unit {0})
  unfolding conclude
  send_full false id ip result latency_us = conclude false 200 plain
  send_full true id ip result latency_us = do
    response_id ← request_id_from_context o id
    conclude true 200 (full (build_lookup_response o.addr_string result ip latency_us response_id))

  unfoldable pub full_lookup : Str → Str → Addr → Action (Unit {0})
  unfolding perform_lookup send_full
  full_lookup id caller ip = do
    (result, latency_us) ← perform_lookup s o id caller ip "lookup"
    accepted ← publish_audit o s id caller ip result "ok" 200 latency_us
    send_full accepted id ip result latency_us

  unfoldable pub serve_lookup_post : Str → Request → Action (Unit {0})
  unfolding authenticate ip_from_json full_lookup
  serve_lookup_post id r = do
    caller ← authenticate s o id r.authorization
    ip ← ip_from_json s o id caller r
    full_lookup id caller ip

  unfoldable pub query_ip : Str → Str → Str → Action Addr
  unfolding parse_ip
  query_ip id caller raw =
      if is_empty raw
      then refuse o s id caller invalid "invalid_request" 400 "ip query parameter is required"
      else parse_ip s o id caller raw

  unfoldable pub serve_lookup_get : Str → Request → Action (Unit {0})
  unfolding authenticate query_ip full_lookup
  serve_lookup_get id r = do
    caller ← authenticate s o id r.authorization
    ip ← query_ip id caller (trim_space r.query_ip)
    full_lookup id caller ip

  unfoldable pub caller_ip : Str → Str → Option Addr → Action Addr
  unfolding check_allowed
  caller_ip id caller none =
      refuse o s id caller invalid "client_ip_unavailable" 400
        "unable to determine caller IP address"
  caller_ip id caller (some ip) =
      check_allowed s o id caller ip "caller IP address is not a permitted public address"

  unfoldable pub serve_me : Str → Request → Action (Unit {0})
  unfolding authenticate client_ip caller_ip full_lookup
  serve_me id r = do
    caller ← authenticate s o id r.authorization
    ip ← caller_ip id caller (client_ip o r)
    full_lookup id caller ip

  -- What ServeMux writes by itself for a path or a method that it has no route for.
  abbrev plain_status : ℕ → Action (Unit {0})
  plain_status status w = (
    none,
    record w {
      sent = w.sent ++ record { status = status; headers = w.headers; body = plain } ∷ [];
    },
  )

  unfoldable pub dispatch : Route → Str → Request → Action (Unit {0})
  unfolding serve_country serve_lookup_post serve_lookup_get serve_me
  dispatch country id r = serve_country id r
  dispatch lookup_post id r = serve_lookup_post id r
  dispatch lookup_get id r = serve_lookup_get id r
  dispatch me id r = serve_me id r
  dispatch (unmatched status) id r = plain_status status

  -- APIHandler on one request, over headers that are still empty.
  unfoldable pub serve : Request → World → World
  unfolding open_request dispatch close_request
  serve r w =
      let opened = open_request o (record w { headers = [] }) in
      elim opened.0 [
        | none ↦ opened.1
        | some (started, id) ↦ (close_request o started (dispatch r.route id r opened.1).1).1
      ]
