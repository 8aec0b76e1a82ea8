-- ===== src/HttpApi/Answered.antt =====
-- What a handler leaves behind when it returns: one event and one response that agree.
use geotagger.Prelude.{
  ℕ, ◌%◌, ◌^◌, ◌≡◌, refl, Bool, true, false, String, List, [], ◌∷◌, ◌++◌, Option, some, All,
}
use geotagger.Text.Bytes.{Str, codes, is_empty}
use geotagger.Text.Dict.{Dict, lookup}
use geotagger.Net.{Addr}
use geotagger.Audit.{Event}
use geotagger.Geo.{GeoResult}
use geotagger.HttpApi.Server.{Outside, Server, World, Response}
use geotagger.HttpApi.Actions.{audit_event, count_audit_failure, publish_audit}
use geotagger.HttpApi.Handlers.{is_disallowed}

-- The id that headers give.
abbrev pub header_id : Dict Str → Option Str
header_id headers = lookup (codes "X-Request-ID") headers

-- The response has the event's status, and is a success only if the event was accepted; or the
-- event was not accepted, and the response is 503.
pub data Agrees (event : Event) (accepted : Bool) (response : Response) : Type 0 where
  as_audited :
      response.status ≡ event.status_code
      → (response.status ≡ 200 → accepted ≡ true)
      → Agrees event accepted response
  unavailable : accepted ≡ false → response.status ≡ 503 → Agrees event accepted response

-- Lookups are made for addresses only that the server allows.
pub record Looks (s : Server) (w w' : World) : Type 0 where
  pub searched : List Addr
  pub lookups : w'.lookups ≡ w.lookups ++ searched
  pub allowed : All (λ ip. is_disallowed s ip ≡ false) searched

-- One event, with the request's id and its caller, and one response that agrees with it and has
-- the X-Request-ID that was set.
pub record Answered (s : Server) (id caller : Str) (w w' : World) : Type 0 where
  pub event : Event
  pub accepted : Bool
  pub response : Response
  pub audits : w'.audits ≡ w.audits ++ (event, accepted) ∷ []
  pub sent : w'.sent ≡ w.sent ++ response ∷ []
  pub of_request : event.request_id ≡ id
  pub by : event.caller_id ≡ caller
  pub agrees : Agrees event accepted response
  pub labelled : header_id response.headers ≡ header_id w.headers
  pub looks : Looks s w w'

-- No event and no response yet, and the same X-Request-ID.
pub record Untouched (s : Server) (w w' : World) : Type 0 where
  pub audits : w'.audits ≡ w.audits
  pub sent : w'.sent ≡ w.sent
  pub labelled : header_id w'.headers ≡ header_id w.headers
  pub looks : Looks s w w'

-- What publishAudit leaves behind.
pub record Published (id caller : Str) (status : ℕ) (w : World) (r : Option Bool × World)
    : Type 0 where
  pub event : Event
  pub accepted : Bool
  pub value : r.0 ≡ some accepted
  pub audits : r.1.audits ≡ w.audits ++ (event, accepted) ∷ []
  pub sent : r.1.sent ≡ w.sent
  pub of_request : event.request_id ≡ id
  pub by : event.caller_id ≡ caller
  pub lookups : r.1.lookups ≡ w.lookups
  pub headers : r.1.headers ≡ w.headers
  pub with_status : event.status_code ≡ status % 2 ^ 16

count_audit_failure_lem :
    (o : Outside) (accepted : Bool) (w : World)
    → let r = count_audit_failure o accepted w in
      (r.0 ≡ some accepted)
      × (r.1.audits ≡ w.audits)
      × (r.1.sent ≡ w.sent)
      × (r.1.lookups ≡ w.lookups)
      × (r.1.headers ≡ w.headers)
unfolding count_audit_failure
count_audit_failure_lem o true w = (refl, refl, refl, refl, refl)
count_audit_failure_lem o false w = (refl, refl, refl, refl, refl)

module _ (s : Server) (o : Outside) (id : Str) (some_id : is_empty id ≡ false) where
  pub publish_audit-Published :
      (caller : Str) (ip : Addr) (result : GeoResult) (outcome : String) (status latency_us : ℕ)
      (w : World)
      → Published id caller status w
          (publish_audit o s id caller ip result outcome status latency_us w)
  unfolding publish_audit
  publish_audit-Published caller ip result outcome status latency_us w =
      let event : Event =
        audit_event o s (o.clock w.readings) id caller ip result outcome status latency_us in
      let counted = count_audit_failure_lem o (o.publish w.audits event) in
      rw some_id (record {
        event = event;
        accepted = o.publish w.audits event;
        value = (counted _).0;
        audits = (counted _).1;
        sent = (counted _).2;
        of_request = refl;
        by = refl;
        lookups = (counted _).3;
        headers = (counted _).4;
        with_status = refl;
      })

  -- The event itself, and the publisher's answer to it.
  pub publish_audit_audits :
      (caller : Str) (ip : Addr) (result : GeoResult) (outcome : String) (status latency_us : ℕ)
      (w : World)
      → let event =
          audit_event o s (o.clock w.readings) id caller ip result outcome status latency_us in
        (publish_audit o s id caller ip result outcome status latency_us w).1.audits
        ≡ w.audits ++ (event, o.publish w.audits event) ∷ []
  unfolding publish_audit
  publish_audit_audits caller ip result outcome status latency_us w =
      let event : Event =
        audit_event o s (o.clock w.readings) id caller ip result outcome status latency_us in
      let counted = count_audit_failure_lem o (o.publish w.audits event) in rw some_id (counted _).1
