-- ===== src/AdminHttp/Checks.antt =====
-- The checks of the handlers let them go on, or answer and change nothing else.
use geotagger.Prelude.{
  ℕ, ◌+◌, ◌≡◌, refl, ◌⊎◌, inl, inr, true, false, [], Option, none, some, Result, ok, err, ltb,
  length, if◌then◌else◌, Bool-cases,
}
use geotagger.Text.Bytes.{Str, codes, str_eq, str_eq_iff}
use geotagger.Text.Trim.{trim_space}
use geotagger.Auth.{has_static_id}
use geotagger.KeyStore.Records.{CreateInput, StoreError, validate_key_id}
use geotagger.AdminHttp.Server.{
  Decoded, malformed, decoded, MetadataError, Body, Request, World, Outside, Server,
}
use geotagger.AdminHttp.Actions.{
  set_header, write_json, answer, tick, is_cross_site, to_lower, mutation_allowed, read_body,
  decoded_json, read_json, decode_media, decode_json,
}
use geotagger.AdminHttp.Verdicts.{
  Quiet, Verdict, passed, refused, same, bind-Verdict, IsPlain, answer-Verdict, give-Verdict,
}
use geotagger.AdminHttp.Handlers as Handlers

-- The request has passed mutationAllowed.
pub record Allows (r : Request) : Type 0 where
  pub csrf : r.csrf ≡ codes "1"
  pub same_site : is_cross_site (to_lower (trim_space r.sec_fetch_site)) ≡ false

module _ {S : Type 0} where
  Refuses : Request → World S → Type 0
  Refuses r w = (v : World S) × (mutation_allowed r w ≡ (none, v)) × Quiet w v

  forbidden :
      (r : Request) (w : World S) (body : Body)
      → IsPlain body
      → mutation_allowed r w ≡ answer 403 body w
      → Refuses r w
  unfolding answer write_json set_header Refuses
  forbidden r w body plain same = (
    _,
    same,
    record { response = _; sent = refl; bucket = refl; auth = refl; log = refl; plain = plain },
  )

  pub mutation_allowed-cases :
      (r : Request) (w : World S)
      → (Allows r × (mutation_allowed r w ≡ (some tt, w)))
        ⊎ ((v : World S) × (mutation_allowed r w ≡ (none, v)) × Quiet w v)
  unfolding mutation_allowed Refuses
  mutation_allowed-cases r w = elim (Bool-cases (str_eq r.csrf (codes "1"))) [
    | inr wrong ↦ inr (forbidden r w (Body.error "admin CSRF header required") tt (rw wrong refl))
    | inl csrf ↦ elim (Bool-cases (is_cross_site (to_lower (trim_space r.sec_fetch_site)))) [
      | inl crossing ↦ inr (
          forbidden r w (Body.error "cross-site admin mutation rejected") tt
            (rw (csrf, crossing) refl))
      | inr fine ↦ inl (
        record { csrf = (str_eq_iff r.csrf (codes "1")).0 csrf; same_site = fine },
        rw (csrf, fine) refl,
      )
    ]
  ]

  pub decode_json-Verdict :
      {A : Type 0} (o : Outside S) (s : Server) (decode : Str → Decoded A) (r : Request)
      (w : World S)
      → Verdict w (decode_json o s decode r w)
  unfolding decode_json decode_media read_json decoded_json
  decode_json-Verdict {A} o s decode r w = media (o.media_type r.content_type)
    where
      value : (d : Decoded A) → Verdict w (decoded_json d w)
      value malformed = answer-Verdict _ _ tt w
      value (decoded a true) = give-Verdict a w
      value (decoded a false) = answer-Verdict _ _ tt w

      text : (b : Option Str) → Verdict w (read_json s decode b w)
      text none = answer-Verdict _ _ tt w
      text (some body) = elim (Bool-cases (ltb s.max_body_size (length body))) [
        | inl large ↦ rw large (answer-Verdict _ _ tt w)
        | inr fits ↦ rw fits (value (decode body))
      ]

      media : (m : Option Str) → Verdict w (decode_media s decode r m w)
      media none = answer-Verdict _ _ tt w
      media (some m) = elim (Bool-cases (str_eq m (codes "application/json"))) [
        | inl json ↦ rw json (text (read_body s.max_body_size r))
        | inr other ↦ rw other (answer-Verdict _ _ tt w)
      ]

  module _ (o : Outside S) where
    pub validate_metadata-Verdict :
        (input : CreateInput) (w : World S) → Verdict w (Handlers.validate_metadata o input w)
    unfolding Handlers.validate_metadata Handlers.check_future Handlers.check_id Handlers.now tick
    validate_metadata-Verdict input w =
        bind-Verdict
          (Handlers.check_id o (λ e. Body.metadata_error (MetadataError.bad_id e))
            (validate_key_id input.id))
          (λ _.
            if Handlers.is_too_long input
            then answer 400 (Body.metadata_error MetadataError.too_long)
            else Handlers.check_future o input.expires_at)
          w (identified (validate_key_id input.id))
          (λ _ u. elim (Bool-cases (Handlers.is_too_long input)) [
            | inl long ↦ rw long (answer-Verdict _ _ tt u)
            | inr fits ↦ rw fits (future input.expires_at u)
          ])
      where
        identified :
            (r : Result StoreError (Unit {0}))
            → Verdict w
                (Handlers.check_id o (λ e. Body.metadata_error (MetadataError.bad_id e)) r w)
        identified (ok _) = give-Verdict tt w
        identified (err e) = answer-Verdict _ _ tt w

        ticked :
            (u : World S) (r : Option (Unit {0}) × World S)
            → Verdict (record u { readings = u.readings + 1 }) r
            → Verdict u r
        ticked u r (passed a v c) =
            passed a v (record { bucket = c.bucket; auth = c.auth; log = c.log; sent = c.sent })
        ticked u r (refused v q) = refused v (record {
          response = q.response;
          sent = q.sent;
          bucket = q.bucket;
          auth = q.auth;
          log = q.log;
          plain = q.plain;
        })

        future : (expiry : Option ℕ) (u : World S) → Verdict u (Handlers.check_future o expiry u)
        future none u = give-Verdict tt u
        future (some expiry) u = ticked u _ (elim (Bool-cases (ltb (o.clock u.readings) expiry)) [
          | inl later ↦ rw later (give-Verdict tt _)
          | inr past ↦ rw past (answer-Verdict _ _ tt _)
        ])

    pub check_id-Verdict :
        (body : StoreError → Body) (plain : (e : StoreError) → IsPlain (body e))
        (r : Result StoreError (Unit {0})) (w : World S)
        → Verdict w (Handlers.check_id o body r w)
    unfolding Handlers.check_id
    check_id-Verdict body plain (ok _) w = give-Verdict tt w
    check_id-Verdict body plain (err e) w = answer-Verdict _ _ (plain e) w

    pub check_reserved-Verdict :
        (input : CreateInput) (w : World S) → Verdict w (Handlers.check_reserved o input w)
    unfolding Handlers.check_reserved
    check_reserved-Verdict input w = elim (Bool-cases (has_static_id w.auth input.id)) [
      | inl reserved ↦ rw reserved (answer-Verdict _ _ tt w)
      | inr free ↦ rw free (give-Verdict tt w)
    ]

    pub read_reason-Verdict :
        (s : Server) (r : Request) (w : World S) → Verdict w (Handlers.read_reason o s r w)
    unfolding Handlers.read_reason
    read_reason-Verdict s r w = elim (Bool-cases r.has_content) [
      | inl content ↦ rw content (decode_json-Verdict o s o.decode_revoke r w)
      | inr empty ↦ rw empty (give-Verdict [] w)
    ]

    pub check_reason-Verdict :
        (reason : Str) (w : World S) → Verdict w (Handlers.check_reason o reason w)
    unfolding Handlers.check_reason
    check_reason-Verdict reason w = elim (Bool-cases (ltb 256 (length reason))) [
      | inl long ↦ rw long (answer-Verdict _ _ tt w)
      | inr fits ↦ rw fits (give-Verdict tt w)
    ]
