-- ===== src/HttpApi/RouteEnds.antt =====
-- The four handlers by the rules of Ends.
use geotagger.Prelude.{
  ℕ, ◌%◌, ◌^◌, ◌≡◌, refl, ◌∙◌, Bool, true, false, String, [], ◌∷◌, Option, none, some, arith,
  Bool-cases, inl, inr,
}
use geotagger.Text.Bytes.{Str, is_empty}
use geotagger.Text.Trim.{trim_space}
use geotagger.Net.{Addr, invalid}
use geotagger.Audit.{Event}
use geotagger.Geo.{GeoResult, no_result}
use geotagger.Metrics.{add_64}
use geotagger.HttpApi.Server.{
  Outside, Server, Request, World, Body, Action, Looked, failed, looked, error, plain, ◌>>=◌,
}
use geotagger.HttpApi.Actions.{request_id_from_context, publish_audit, now}
use geotagger.HttpApi.ClientIp.{client_ip}
use geotagger.HttpApi.Handlers.{
  conclude, is_disallowed, authenticate, ip_from_json, timed_lookup, after_lookup, perform_lookup,
}
use geotagger.HttpApi.Routes.{
  send_country, serve_country, send_full, full_lookup, serve_lookup_post, query_ip,
  serve_lookup_get, caller_ip, serve_me,
}
use geotagger.HttpApi.Answered.{publish_audit-Published}
use geotagger.HttpApi.Ends.{
  Ends, Looks-same, Ends-pure, Ends-after, Ends-bind, Ends-publish, Closed, conclude-Closed,
}
use geotagger.HttpApi.Audited.{
  caller_of, refuse-Ends, verdict, authenticate-Ends, IsAllowed, check_allowed-Ends, parse_ip-Ends,
  ip_from_json-Ends,
}

module _ (s : Server) (o : Outside) (id : Str) (some_id : is_empty id ≡ false) where
  timed_lookup-Ends :
      (caller : Str) (ip : Addr) (w : World)
      → is_disallowed s ip ≡ false
      → Ends s id caller (λ _. Unit {0}) w (timed_lookup s o ip w)
  unfolding timed_lookup now
  timed_lookup-Ends caller ip w allowed =
      Ends-pure _ _
        (record {
          audits = refl;
          sent = refl;
          labelled = refl;
          looks = record { searched = ip ∷ []; lookups = refl; allowed = (allowed, tt) };
        })
        tt

  -- An event and the response that it stands for.
  conclude-Ends :
      {A : Type 0} {Q : A → Type 0} (caller : Str) (ip : Addr) (result : GeoResult)
      (outcome : String) (status latency_us : ℕ) (body : Body) (w : World)
      → status % 2 ^ 16 ≡ status
      → Ends s id caller Q w (
          (publish_audit o s id caller ip result outcome status latency_us >>= λ accepted.
          conclude accepted status body)
            w)
  conclude-Ends caller ip result outcome status latency_us body w fits =
      let p = publish_audit-Published s o id some_id caller ip result outcome status latency_us w in
      Ends-publish w _ _ p (conclude-Closed p.event p.accepted status body _ (p.with_status ∙ fits))

  after_lookup-Ends :
      (caller : Str) (ip : Addr) (kind : String) (found : Looked) (latency_us : ℕ) (w : World)
      → Ends s id caller (λ _. Unit {0}) w (after_lookup s o id caller ip kind found latency_us w)
  unfolding after_lookup
  after_lookup-Ends caller ip kind failed latency_us w =
      let w' : World = record w {
        metrics = record w.metrics { lookup_failures = add_64 w.metrics.lookup_failures 1 };
      } in
      Ends-after _
        (record { audits = refl; sent = refl; labelled = refl; looks = Looks-same s w w' refl })
        (conclude-Ends caller ip no_result "lookup_error" 500 latency_us (error "lookup failed") w'
          refl)
  after_lookup-Ends caller ip kind (looked result true) latency_us w =
      Ends-pure _ _
        (record { audits = refl; sent = refl; labelled = refl; looks = Looks-same s w w refl }) tt
  after_lookup-Ends caller ip kind (looked result false) latency_us w =
      conclude-Ends caller ip result "not_found" 404 latency_us _ w refl

  perform_lookup-Ends :
      (caller : Str) (ip : Addr) (kind : String) (w : World)
      → is_disallowed s ip ≡ false
      → Ends s id caller (λ _. Unit {0}) w (perform_lookup s o id caller ip kind w)
  unfolding perform_lookup
  perform_lookup-Ends caller ip kind w allowed =
      Ends-bind (timed_lookup s o ip) _ w (timed_lookup-Ends caller ip w allowed)
        λ timed w' _. after_lookup-Ends caller ip kind timed.0 timed.1 w'

  send_country-Ends :
      (caller : Str) (ip : Addr) (result : GeoResult) (latency_us : ℕ) (w : World)
      → Ends s id caller (λ _. ⊥) w (send_country s o id caller ip result latency_us w)
  unfolding send_country
  send_country-Ends caller ip result latency_us w = elim (Bool-cases (is_empty result.country)) [
    | inl missing ↦ rw missing (conclude-Ends caller ip result "not_found" 404 latency_us _ w refl)
    | inr named ↦ rw named (conclude-Ends caller ip result "ok" 200 latency_us _ w refl)
  ]

  send_full-Closed :
      (event : Event) (accepted : Bool) (ip : Addr) (result : GeoResult) (latency_us : ℕ)
      (w : World)
      → event.status_code ≡ 200
      → Closed {A = Unit {0}} event accepted w (send_full s o accepted id ip result latency_us w)
  unfolding send_full request_id_from_context
  send_full-Closed event false ip result latency_us w same =
      conclude-Closed event false 200 plain w same
  send_full-Closed event true ip result latency_us w same =
      rw some_id (conclude-Closed event true 200 _ w same)

  full_lookup-Ends :
      (caller : Str) (ip : Addr) (w : World)
      → is_disallowed s ip ≡ false
      → Ends s id caller (λ _. ⊥) w (full_lookup s o id caller ip w)
  unfolding full_lookup
  full_lookup-Ends caller ip w allowed =
      Ends-bind (perform_lookup s o id caller ip "lookup") _ w
        (perform_lookup-Ends caller ip "lookup" w allowed)
        λ found w' _.
          let p = publish_audit-Published s o id some_id caller ip found.0 "ok" 200 found.1 w' in
          Ends-publish w' _ _ p
            (send_full-Closed p.event p.accepted ip found.0 found.1 _ p.with_status)

  after_authenticate-Ends :
      (header : Str) (k : Str → Action (Unit {0})) (w : World)
      → ((caller : Str) (w' : World) → Ends s id caller (λ _. ⊥) w' (k caller w'))
      → Ends s id
          (caller_of (verdict s o header w))
          (λ _. ⊥)
          w
          ((authenticate s o id header >>= k) w)
  after_authenticate-Ends header k w rest =
      Ends-bind (authenticate s o id header) k w (authenticate-Ends s o id some_id header w)
        λ caller w' by. rw by (rest caller w')

  pub serve_country-Ends :
      (r : Request) (w : World)
      → Ends s id (caller_of (verdict s o r.authorization w)) (λ _. ⊥) w (serve_country s o id r w)
  unfolding serve_country
  serve_country-Ends r w = after_authenticate-Ends r.authorization _ w λ caller w₁.
      Ends-bind (ip_from_json s o id caller r) _ w₁ (ip_from_json-Ends s o id some_id caller r w₁)
        λ ip w₂ allowed.
          Ends-bind (perform_lookup s o id caller ip "country") _ w₂
            (perform_lookup-Ends caller ip "country" w₂ allowed)
            λ found w₃ _. send_country-Ends caller ip found.0 found.1 w₃

  pub serve_lookup_post-Ends :
      (r : Request) (w : World)
      → Ends s id
          (caller_of (verdict s o r.authorization w))
          (λ _. ⊥)
          w
          (serve_lookup_post s o id r w)
  unfolding serve_lookup_post
  serve_lookup_post-Ends r w = after_authenticate-Ends r.authorization _ w λ caller w₁.
      Ends-bind (ip_from_json s o id caller r) _ w₁ (ip_from_json-Ends s o id some_id caller r w₁)
        λ ip w₂ allowed. full_lookup-Ends caller ip w₂ allowed

  query_ip-Ends :
      (caller raw : Str) (w : World)
      → Ends s id caller (IsAllowed s o id some_id) w (query_ip s o id caller raw w)
  unfolding query_ip
  query_ip-Ends caller [] w =
      refuse-Ends s o id some_id caller invalid "invalid_request" 400
        "ip query parameter is required" w refl (omega arith)
  query_ip-Ends caller (c ∷ raw) w = parse_ip-Ends s o id some_id caller (c ∷ raw) w

  pub serve_lookup_get-Ends :
      (r : Request) (w : World)
      → Ends s id
          (caller_of (verdict s o r.authorization w))
          (λ _. ⊥)
          w
          (serve_lookup_get s o id r w)
  unfolding serve_lookup_get
  serve_lookup_get-Ends r w = after_authenticate-Ends r.authorization _ w λ caller w₁.
      Ends-bind (query_ip s o id caller (trim_space r.query_ip)) _ w₁
        (query_ip-Ends caller (trim_space r.query_ip) w₁)
        λ ip w₂ allowed. full_lookup-Ends caller ip w₂ allowed

  caller_ip-Ends :
      (caller : Str) (found : Option Addr) (w : World)
      → Ends s id caller (IsAllowed s o id some_id) w (caller_ip s o id caller found w)
  unfolding caller_ip
  caller_ip-Ends caller none w =
      refuse-Ends s o id some_id caller invalid "client_ip_unavailable" 400 _ w refl (omega arith)
  caller_ip-Ends caller (some ip) w = check_allowed-Ends s o id some_id caller ip _ w

  pub serve_me-Ends :
      (r : Request) (w : World)
      → Ends s id (caller_of (verdict s o r.authorization w)) (λ _. ⊥) w (serve_me s o id r w)
  unfolding serve_me
  serve_me-Ends r w = after_authenticate-Ends r.authorization _ w λ caller w₁.
      Ends-bind (caller_ip s o id caller (client_ip o r)) _ w₁
        (caller_ip-Ends caller (client_ip o r) w₁)
        λ ip w₂ allowed. full_lookup-Ends caller ip w₂ allowed
