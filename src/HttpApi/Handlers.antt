-- ===== src/HttpApi/Handlers.antt =====
-- The handlers of the lookup API and the middleware round them. `id` is the request id that the
-- middleware has put into the context.
use geotagger.Prelude.{
  Result, ℕ, ◌+◌, ◌-◌, ◌^◌, Bool, true, false, ◌&&◌, not, String, [], ◌∷◌, ◌++◌, Option, none, some,
  ltb, leb, if◌then◌else◌, length, take, ok, err,
}
use text.Mathlib.Text.{◌==◌ as text_eq}
use geotagger.Text.Bytes.{Str, codes, is_empty}
use geotagger.Text.Trim.{trim_space}
use geotagger.Net.{
  Addr, invalid, unmap, is_4, is_private, is_loopback, is_link_local_unicast, public_target,
}
use geotagger.Geo.{GeoResult, no_result}
use geotagger.Auth.{AuthError, verify_authorization}
use geotagger.Metrics.{add_64, observe_lookup}
use geotagger.HttpApi.Server.{
  Outside, Server, Request, Action, Decoded, malformed, decoded, Looked, failed, looked,
  LookupResponse, Body, error, pure, ◌>>=◌, ◌>>◌,
}
use geotagger.HttpApi.Actions.{
  stop, change_metrics, set_header, write_json, write_error, micros, now, publish_audit, refuse,
}

-- io.LimitReader(r.Body, s.maxBodyBytes+1): the sum is an int64, and a negative limit reads
-- nothing.
unfoldable pub read_limit : ℕ → ℕ
read_limit max = if ltb max (2 ^ 63 - 1) then max + 1 else 0

-- io.ReadAll on the limited body: a failure behind the limit is not met.
unfoldable pub read_body : ℕ → Request → Option Str
unfolding read_limit
read_body max r =
    if leb (read_limit max) (length r.body)
    then some (take (read_limit max) r.body)
    else if r.body_fails
    then none
    else some r.body

-- buildLookupResponse
module _ (addr_string : Addr → Str) where
  unfoldable pub build_lookup_response : GeoResult → Addr → ℕ → Str → LookupResponse
  build_lookup_response result ip latency_us id = record {
    ip = addr_string ip;
    network = result.network;
    continent_code = result.continent_code;
    continent_name = result.continent;
    country_code = result.country_code;
    country_name = result.country;
    region_code = result.region_code;
    region_name = result.region;
    city = result.city;
    postal_code = result.postal_code;
    latitude = result.latitude;
    longitude = result.longitude;
    accuracy_radius_km = result.accuracy_radius_km;
    time_zone = result.time_zone;
    asn_number = result.asn;
    asn_organization = result.asn_organization;
    public = public_target ip;
    private = is_private ip;
    loopback = is_loopback ip;
    link_local = is_link_local_unicast ip;
    ip_version = if is_4 ip then "IPv4" else "IPv6";
    city_database = result.city_database_version;
    asn_database = result.asn_database_version;
    lookup_latency_us = latency_us;
    request_id = id;
  }

-- The end of a request after its last event: the response that it stands for, or 503 if the
-- event was not accepted.
unfoldable pub conclude : {A : Type 0} → Bool → ℕ → Body → Action A
conclude true status body = do write_json status body; stop
conclude false status body = do write_error 503 "audit transport unavailable"; stop

-- !s.allowPrivateIPs && !publicTarget(ip)
unfoldable pub is_disallowed : Server → Addr → Bool
is_disallowed s ip = not s.allow_private_ips && not (public_target ip)

module _ (s : Server) (o : Outside) where
  -- The failing half of authenticate.
  unfoldable pub deny_caller : Str → Action Str
  deny_caller id = do
    change_metrics (λ m. record m { auth_failures = add_64 m.auth_failures 1 })
    accepted ← publish_audit o s id (codes "unauthenticated") invalid no_result "unauthorized" 401 0
    set_header "WWW-Authenticate" (codes "Bearer")
    write_error 401 "unauthorized"
    stop

  unfoldable pub admit : Str → Result AuthError Str → Action Str
  unfolding deny_caller
  admit id (ok caller) = pure caller
  admit id (err e) = deny_caller id

  -- A reading of the clock is made for every header; the code makes it for a managed id only.
  unfoldable pub authenticate : Str → Str → Action Str
  unfolding admit
  authenticate id header = do
    instant ← now o
    admit id (verify_authorization o.sha256 s.auth instant header)

  unfoldable pub check_allowed : Str → Str → Addr → String → Action Addr
  unfolding is_disallowed
  check_allowed id caller ip message =
      if is_disallowed s ip then refuse o s id caller ip "disallowed_ip" 422 message else pure ip

  unfoldable pub parse_ip : Str → Str → Str → Action Addr
  unfolding check_allowed
  parse_ip id caller raw = elim (o.parse_addr (trim_space raw)) [
    | none ↦ refuse o s id caller invalid "invalid_ip" 422 "invalid IP address"
    | some ip ↦ check_allowed id caller (unmap ip) "IP address is not a permitted public address"
  ]

  -- The decoding of the body that was read.
  unfoldable pub ip_from_decoded : Str → Str → Decoded → Action Addr
  unfolding parse_ip
  ip_from_decoded id caller malformed =
      refuse o s id caller invalid "invalid_request" 400 "body must be JSON with an ip field"
  ip_from_decoded id caller (decoded ip at_end) =
      if is_empty ip
      then refuse o s id caller invalid "invalid_request" 400 "body must be JSON with an ip field"
      else if not at_end
      then refuse o s id caller invalid "invalid_request" 400 "body must contain one JSON object"
      else parse_ip id caller ip

  unfoldable pub ip_from_json : Str → Str → Request → Action Addr
  unfolding read_body ip_from_decoded
  ip_from_json id caller r = elim (read_body s.max_body_bytes r) [
    | none ↦ refuse o s id caller invalid "invalid_request" 400 "invalid request body"
    | some body ↦
        if ltb s.max_body_bytes (length body)
        then refuse o s id caller invalid "request_too_large" 413 "request body too large"
        else ip_from_decoded id caller (o.decode_ip body)
  ]

  -- s.lookup.Lookup(ip), between two readings of the clock; the latency in microseconds.
  unfoldable pub timed_lookup : Addr → Action (Looked × ℕ)
  timed_lookup ip = do
    started ← now o
    found ← λ w. (some (o.lookup w.readings ip), record w { lookups = w.lookups ++ ip ∷ [] })
    ended ← now o
    let latency_us = micros started ended
    change_metrics (observe_lookup latency_us)
    pure (found, latency_us)

  -- performLookup behind the call of the lookup.
  unfoldable pub after_lookup : Str → Str → Addr → String → Looked → ℕ → Action (GeoResult × ℕ)
  unfolding conclude
  after_lookup id caller ip kind failed latency_us = do
    change_metrics (λ m. record m { lookup_failures = add_64 m.lookup_failures 1 })
    accepted ← publish_audit o s id caller ip no_result "lookup_error" 500 latency_us
    conclude accepted 500 (error "lookup failed")
  after_lookup id caller ip kind (looked result true) latency_us = pure (result, latency_us)
  after_lookup id caller ip kind (looked result false) latency_us = do
    accepted ← publish_audit o s id caller ip result "not_found" 404 latency_us
    conclude accepted 404 (
        error (if text_eq kind "country" then "country not found" else "IP intelligence not found"))

  unfoldable pub perform_lookup : Str → Str → Addr → String → Action (GeoResult × ℕ)
  unfolding timed_lookup after_lookup
  perform_lookup id caller ip kind = do
    timed ← timed_lookup ip
    after_lookup id caller ip kind timed.0 timed.1
