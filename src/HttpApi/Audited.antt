-- ===== src/HttpApi/Audited.antt =====
-- The steps of the handlers by the rules of Ends.
use geotagger.Prelude.{
  ℕ, ◌+◌, ◌%◌, ◌^◌, ◌≡◌, ◌≢◌, refl, sym, ◌∙◌, Bool, true, false, String, [], ◌∷◌, arith, Bool-cases,
  Option-cases, inl, inr, Result, ok, err, ltb, length,
}
use geotagger.Text.Bytes.{Str, codes, is_empty, str_eq}
use geotagger.Text.Trim.{trim_space}
use geotagger.Net.{Addr, invalid, unmap}
use geotagger.Audit.{Event}
use geotagger.Geo.{no_result}
use geotagger.Auth.{AuthError, verify_authorization}
use geotagger.Metrics.{add_64}
use geotagger.HttpApi.Server.{
  Outside, Server, Request, World, Decoded, malformed, decoded, continue, ◌>>◌,
}
use geotagger.HttpApi.Actions.{
  set_header, write_error, publish_audit, publish_failure_audit, refuse, stop, now,
}
use geotagger.HttpApi.Handlers.{
  is_disallowed, deny_caller, admit, authenticate, check_allowed, parse_ip, ip_from_decoded,
  ip_from_json, read_body,
}
use geotagger.HttpApi.Answered.{as_audited, publish_audit-Published}
use geotagger.HttpApi.Ends.{
  Ends, Looks-same, Ends-pure, Ends-after, Ends-publish, Closed, header_id-insert,
  write_error-Closed,
}

-- Whom the event names: the caller that the header authenticates, or nobody.
abbrev pub caller_of : Result AuthError Str → Str
caller_of (ok caller) = caller
caller_of (err e) = codes "unauthenticated"

-- What the header authenticates at the reading of the clock that comes next.
abbrev pub verdict : Server → Outside → Str → World → Result AuthError Str
verdict s o header w = verify_authorization o.sha256 s.auth (o.clock w.readings) header

module _ (s : Server) (o : Outside) (id : Str) (some_id : is_empty id ≡ false) where
  pub refuse-Ends :
      {A : Type 0} {Q : A → Type 0} (caller : Str) (ip : Addr) (outcome : String) (status : ℕ)
      (message : String) (w : World)
      → status % 2 ^ 16 ≡ status
      → status ≢ 200
      → Ends s id caller Q w (refuse o s id caller ip outcome status message w)
  unfolding refuse publish_failure_audit
  refuse-Ends {A} {Q} caller ip outcome status message w fits failure =
      let p = publish_audit-Published s o id some_id caller ip no_result outcome status 0 w in
      let ended : Ends s id caller Q w (
          continue (publish_audit o s id caller ip no_result outcome status 0 w).0
            (λ _. write_error status message >> stop)
            (publish_audit o s id caller ip no_result outcome status 0 w).1) =
        Ends-publish w (publish_audit o s id caller ip no_result outcome status 0 w)
          (λ _. write_error status message >> stop) p
          (write_error-Closed p.event p.accepted status message _ (p.with_status ∙ fits) failure) in
      rw p.value (rw p.value at ended)

  challenge-Closed :
      (event : Event) (accepted : Bool) (w : World)
      → event.status_code ≡ 401
      → Closed {A = Str} event accepted w (
          (set_header "WWW-Authenticate" (codes "Bearer")
              >> (write_error 401 "unauthorized" >> stop))
            w)
  unfolding write_error set_header
  challenge-Closed event accepted w same = record {
    returned = refl;
    response = _;
    audits = refl;
    sent = refl;
    lookups = refl;
    labelled =
        header_id-insert (codes "Content-Type") _ _ (unfold str_eq in refl)
        ∙ header_id-insert (codes "WWW-Authenticate") _ w.headers (unfold str_eq in refl);
    agrees = as_audited (sym same) (λ e. absurd (omega arith));
  }

  deny_caller-Ends :
      {Q : Str → Type 0} (w : World)
      → Ends s id (codes "unauthenticated") Q w (deny_caller s o id w)
  unfolding deny_caller
  deny_caller-Ends w =
      let w' : World = record w {
        metrics = record w.metrics { auth_failures = add_64 w.metrics.auth_failures 1 };
      } in
      let p =
        publish_audit-Published s o id some_id (codes "unauthenticated") invalid no_result
          "unauthorized" 401 0 w' in
      Ends-after _
        (record { audits = refl; sent = refl; labelled = refl; looks = Looks-same s w w' refl })
        (Ends-publish w' _ _ p (challenge-Closed p.event p.accepted _ p.with_status))

  admit-Ends :
      (r : Result AuthError Str) (w : World)
      → Ends s id (caller_of r) (λ c. r ≡ ok c) w (admit s o id r w)
  unfolding admit
  admit-Ends (ok caller) w =
      Ends-pure _ caller
        (record { audits = refl; sent = refl; labelled = refl; looks = Looks-same s w w refl }) refl
  admit-Ends (err e) w = deny_caller-Ends w

  pub authenticate-Ends :
      (header : Str) (w : World)
      → Ends s id
          (caller_of (verdict s o header w))
          (λ c. verdict s o header w ≡ ok c)
          w
          (authenticate s o id header w)
  unfolding authenticate now
  authenticate-Ends header w =
      let w' : World = record w { readings = w.readings + 1 } in
      Ends-after _
        (record { audits = refl; sent = refl; labelled = refl; looks = Looks-same s w w' refl })
        (admit-Ends (verdict s o header w) w')

  abbrev pub IsAllowed : Addr → Type 0
  IsAllowed ip = is_disallowed s ip ≡ false

  pub check_allowed-Ends :
      (caller : Str) (ip : Addr) (message : String) (w : World)
      → Ends s id caller IsAllowed w (check_allowed s o id caller ip message w)
  unfolding check_allowed
  check_allowed-Ends caller ip message w = elim (Bool-cases (is_disallowed s ip)) [
    | inl bad ↦ rw bad (refuse-Ends caller ip "disallowed_ip" 422 message w refl (omega arith))
    | inr good ↦ rw good (
        Ends-pure IsAllowed ip
          (record { audits = refl; sent = refl; labelled = refl; looks = Looks-same s w w refl })
          good)
  ]

  pub parse_ip-Ends :
      (caller raw : Str) (w : World) → Ends s id caller IsAllowed w (parse_ip s o id caller raw w)
  unfolding parse_ip
  parse_ip-Ends caller raw w = elim (Option-cases (o.parse_addr (trim_space raw))) [
    | inl bad ↦
        rw (bad, parse_ip)
          (refuse-Ends caller invalid "invalid_ip" 422 "invalid IP address" w refl (omega arith))
    | inr (ip, found) ↦
        rw (found, parse_ip)
          (check_allowed-Ends caller (unmap ip) "IP address is not a permitted public address" w)
  ]

  ip_from_decoded-Ends :
      (caller : Str) (d : Decoded) (w : World)
      → Ends s id caller IsAllowed w (ip_from_decoded s o id caller d w)
  unfolding ip_from_decoded
  ip_from_decoded-Ends caller malformed w =
      refuse-Ends caller invalid "invalid_request" 400 "body must be JSON with an ip field" w refl
        (omega arith)
  ip_from_decoded-Ends caller (decoded [] at_end) w =
      refuse-Ends caller invalid "invalid_request" 400 "body must be JSON with an ip field" w refl
        (omega arith)
  ip_from_decoded-Ends caller (decoded (c ∷ ip) false) w =
      refuse-Ends caller invalid "invalid_request" 400 "body must contain one JSON object" w refl
        (omega arith)
  ip_from_decoded-Ends caller (decoded (c ∷ ip) true) w = parse_ip-Ends caller (c ∷ ip) w

  pub ip_from_json-Ends :
      (caller : Str) (r : Request) (w : World)
      → Ends s id caller IsAllowed w (ip_from_json s o id caller r w)
  unfolding ip_from_json
  ip_from_json-Ends caller r w = elim (Option-cases (read_body s.max_body_bytes r)) [
    | inl bad ↦
        rw (bad, ip_from_json)
          (refuse-Ends caller invalid "invalid_request" 400 "invalid request body" w refl
            (omega arith))
    | inr (body, found) ↦
        rw (found, ip_from_json)
          (elim (Bool-cases (ltb s.max_body_bytes (length body))) [
            | inl long ↦ rw long (
                refuse-Ends caller invalid "request_too_large" 413 "request body too large" w refl
                  (omega arith))
            | inr short ↦ rw short (ip_from_decoded-Ends caller (o.decode_ip body) w)
          ])
  ]
