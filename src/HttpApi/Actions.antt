-- ===== src/HttpApi/Actions.antt =====
-- The steps that the handlers share: readings, request ids, headers, responses and the audit.
use geotagger.Prelude.{
  ℕ, ◌+◌, ◌-◌, ◌/◌, ◌%◌, ◌^◌, Bool, true, false, ◌&&◌, String, [], ◌∷◌, ◌++◌, none, some,
  if◌then◌else◌,
}
use geotagger.Text.Bytes.{Str, codes, is_empty}
use geotagger.Text.Trim.{trim_space}
use geotagger.Text.Hex.{hex_encode}
use geotagger.Text.Dict.{insert}
use geotagger.Net.{Addr, is_valid}
use geotagger.Audit.{Event, ip_value}
use geotagger.Geo.{GeoResult, no_result}
use geotagger.Metrics.{Metrics, add_64, observe_audit_publish}
use geotagger.HttpApi.Server.{Outside, Server, Action, Body, error, done, pure, ◌>>=◌, ◌>>◌}

-- The handler returns.
abbrev pub stop : {A : Type 0} → Action A
stop w = (none, w)

abbrev pub change_metrics : (Metrics → Metrics) → Action (Unit {0})
change_metrics f w = (some done, record w { metrics = f w.metrics })

-- w.Header().Set
unfoldable pub set_header : String → Str → Action (Unit {0})
set_header name value w = (some done, record w { headers = insert (codes name) value w.headers })

-- The headers go out with the status, once.
unfoldable pub write_json : ℕ → Body → Action (Unit {0})
unfolding set_header
write_json status body = do
  set_header "Content-Type" (codes "application/json")
  λ w. (
    some done,
    record w { sent = w.sent ++ record { status = status; headers = w.headers; body = body } ∷ [] },
  )

unfoldable pub write_error : ℕ → String → Action (Unit {0})
unfolding write_json
write_error status message = write_json status (error message)

-- Microseconds between two readings; the clock is monotonic.
abbrev pub micros : ℕ → ℕ → ℕ
micros started ended = (ended - started) / 1000

module _ (o : Outside) where
  -- time.Now()
  unfoldable pub now : Action ℕ
  now w = (some (o.clock w.readings), record w { readings = w.readings + 1 })

  -- requestID
  unfoldable pub request_id : Action Str
  request_id w = (
    some (elim (o.random_bytes w.readings) [
      | none ↦ hex_encode (o.rfc3339_nano (o.clock w.readings))
      | some bytes ↦ hex_encode bytes
    ]),
    record w { readings = w.readings + 1 },
  )

  -- requestIDFromContext, from the id that the context holds
  unfoldable pub request_id_from_context : Str → Action Str
  unfolding request_id
  request_id_from_context id = if is_empty id then request_id else pure id

  unfoldable pub audit_mmdb_version : GeoResult → Str
  audit_mmdb_version result =
      let city = trim_space result.city_database_version in
      let asn = trim_space result.asn_database_version in
      if is_empty city && is_empty asn
      then o.lookup_version
      else codes "city=" ++ city ++ codes ";asn=" ++ asn

  -- s.audit.Publish
  unfoldable pub publish : Event → Action Bool
  publish event w =
      let accepted = o.publish w.audits event in
      (some accepted, record w { audits = w.audits ++ (event, accepted) ∷ [] })

  unfoldable pub count_audit_failure : Bool → Action Bool
  count_audit_failure true = pure true
  count_audit_failure false = do
    change_metrics (λ m. record m { audit_failures = add_64 m.audit_failures 1 })
    pure false

  module _ (s : Server) where
    unfoldable pub audit_event : ℕ → Str → Str → Addr → GeoResult → String → ℕ → ℕ → Event
    audit_event timestamp id caller ip result outcome status latency_us = record {
      timestamp = timestamp;
      request_id = id;
      caller_id = caller;
      ip_value =
          if is_valid ip
          then ip_value o.hmac_sha256 o.addr_string s.audit_ip_mode s.audit_hmac_key ip
          else [];
      ip_mode = s.audit_ip_mode;
      country_code = result.country_code;
      country = result.country;
      outcome = outcome;
      status_code = status % 2 ^ 16;
      lookup_latency_us = latency_us;
      mmdb_version = audit_mmdb_version result;
    }

    -- publishAudit; its argument `id` is the request id of the context.
    unfoldable pub publish_audit : Str → Str → Addr → GeoResult → String → ℕ → ℕ → Action Bool
    unfolding now request_id_from_context audit_event publish count_audit_failure
    publish_audit id caller ip result outcome status latency_us = do
      timestamp ← now
      event_id ← request_id_from_context id
      started ← now
      accepted ← publish (audit_event timestamp event_id caller ip result outcome status latency_us)
      ended ← now
      change_metrics (observe_audit_publish (micros started ended))
      count_audit_failure accepted

    unfoldable pub publish_failure_audit : Str → Str → Addr → String → ℕ → ℕ → Action (Unit {0})
    unfolding publish_audit
    publish_failure_audit id caller ip outcome status latency_us = do
      accepted ← publish_audit id caller ip no_result outcome status latency_us
      pure done

    -- The common end of a refusal: the event, the error response, the return.
    unfoldable pub refuse : {A : Type 0} → Str → Str → Addr → String → ℕ → String → Action A
    unfolding publish_failure_audit write_error
    refuse id caller ip outcome status message = do
      publish_failure_audit id caller ip outcome status 0
      write_error status message
      stop
