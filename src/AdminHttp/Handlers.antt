-- ===== src/AdminHttp/Handlers.antt =====
-- The handlers of the admin API.
use geotagger.Prelude.{
  ℕ, Bool, false, ◌&&◌, ◌||◌, not, String, List, [], ◌∷◌, ◌++◌, Option, none, some, Result, ok, err,
  ltb, length, is_some, if◌then◌else◌,
}
use geotagger.Text.Bytes.{Str, codes}
use geotagger.Text.Trim.{trim_space}
use geotagger.Auth.{ManagedKey, has_expired, has_static_id, managed_counts, replace_managed}
use geotagger.KeyStore.Records.{KeyRecord, CreateInput, StoreError, validate_key_id}
use geotagger.KeyStore.Operations.{create, rotate, revoke}
use geotagger.KeyStore.Listing.{list_records}
use geotagger.KeyStore.Issued.{managed_key}
use geotagger.AdminHttp.Server.{
  Session, KeyView, bad_id, too_long, not_in_future, Body, error, store_error, metadata_error,
  status, keys, issued, revoked, asset, plain, Request, Outside, Server, Action, give, ◌>>=◌, ◌>>◌,
}
use geotagger.AdminHttp.Actions.{
  set_header, write_json, answer, log_mutation, call, tick, mutation_allowed, decode_json,
}

-- The status of `view`: a revocation goes before an expiry.
unfoldable pub key_status : ℕ → KeyRecord → String
key_status now r =
    if is_some r.revoked_at
    then "revoked"
    else if has_expired now r.expires_at
    then "expired"
    else "active"

unfoldable pub view : ℕ → KeyRecord → KeyView
unfolding key_status
view now r = record {
  id = r.id;
  display_name = r.display_name;
  owner = r.owner;
  environment = r.environment;
  created_at = r.created_at;
  rotated_at = r.rotated_at;
  expires_at = r.expires_at;
  revoked_at = r.revoked_at;
  revocation_reason = r.revocation_reason;
  status = key_status now r;
}

unfoldable pub views : ℕ → List KeyRecord → List KeyView
unfolding view
views now [] = []
views now (r ∷ records) = view now r ∷ views now records

-- The loop of refreshVerifier.
unfoldable pub managed_keys : List KeyRecord → List ManagedKey
managed_keys [] = []
managed_keys (r ∷ records) = managed_key r ∷ managed_keys records

-- The lengths that validateMetadata allows.
unfoldable pub is_too_long : CreateInput → Bool
is_too_long input =
    ltb 128 (length input.display_name)
    || ltb 128 (length input.owner)
    || ltb 64 (length input.environment)

unfoldable pub trim_input : CreateInput → CreateInput
trim_input input = record input {
  id = trim_space input.id;
  display_name = trim_space input.display_name;
  owner = trim_space input.owner;
  environment = trim_space input.environment;
}

module _ {S : Type 0} (o : Outside S) where
  unfoldable pub now : Action S ℕ
  unfolding tick
  now = do n ← tick; give (o.clock n)

  -- expiresAt != nil && !expiresAt.After(now): the clock is read for a key that expires only.
  unfoldable pub check_future : Option ℕ → Action S (Unit {0})
  unfolding now answer
  check_future none = give tt
  check_future (some expiry) = do
    instant ← now
    if ltb instant expiry then give tt else answer 400 (metadata_error not_in_future)

  unfoldable pub check_id : (StoreError → Body) → Result StoreError (Unit {0}) → Action S (Unit {0})
  check_id body (ok _) = give tt
  check_id body (err e) = answer 400 (body e)

  unfoldable pub validate_metadata : CreateInput → Action S (Unit {0})
  unfolding check_id check_future is_too_long
  validate_metadata input = do
    check_id (λ e. metadata_error (bad_id e)) (validate_key_id input.id)
    if is_too_long input
        then answer 400 (metadata_error too_long)
        else check_future input.expires_at

  -- The verifier takes over the records, where List has given them.
  unfoldable pub take_over : Result StoreError (List KeyRecord) → Action S Bool
  unfolding managed_keys
  take_over (err e) w = (some false, w)
  take_over (ok records) w =
      let r = replace_managed w.auth (managed_keys records) in
      (some (not (is_some r.1)), record w { auth = r.0 })

  -- refreshVerifier: whether it returned no error.
  unfoldable pub refresh_verifier : Action S Bool
  unfolding take_over call
  refresh_verifier = do records ← call (list_records o.kv o.unmarshal); take_over records

  -- The part that Create, Rotate and Revoke end with: the answer warns where the replica has not
  -- refreshed its verifier.
  unfoldable pub finish_mutation : Session → String → Str → ℕ → (Bool → Body) → Action S (Unit {0})
  unfolding refresh_verifier log_mutation write_json
  finish_mutation who operation id code body = do
    refreshed ← refresh_verifier
    log_mutation who operation id (if refreshed then "ok" else "stored_refresh_pending")
    write_json code (body (not refreshed))

  unfoldable pub send_issued :
      Session → String → Str → ℕ → Result StoreError (KeyRecord × Str) → Action S (Unit {0})
  unfolding finish_mutation view
  send_issued who operation id code (err e) = answer 409 (store_error e)
  send_issued who operation id code (ok (r, token)) = do
    instant ← now
    finish_mutation who operation id code (λ pending. issued (view instant r) token pending)

  unfoldable pub send_revoked : Session → Str → Result StoreError KeyRecord → Action S (Unit {0})
  unfolding finish_mutation view
  send_revoked who id (err e) = answer 409 (store_error e)
  send_revoked who id (ok r) = do
    instant ← now
    finish_mutation who "revoke" id 200 (λ pending. revoked (view instant r) pending)

  -- createKey behind its checks.
  unfoldable pub create_checked : Session → CreateInput → Action S (Unit {0})
  unfolding send_issued call tick
  create_checked who input = do
    n ← tick
    made ← call (create o.kv o.sha256 o.marshal o.unmarshal (o.clock n) (o.random n) input)
    send_issued who "create" input.id 201 made

  unfoldable pub check_reserved : CreateInput → Action S (Unit {0})
  unfolding answer
  check_reserved input w =
      if has_static_id w.auth input.id
      then answer 409 (error "key id is reserved by a static API_KEYS credential") w
      else give tt w

  unfoldable pub create_key : Server → Session → Request → Action S (Unit {0})
  unfolding create_checked check_reserved validate_metadata trim_input mutation_allowed decode_json
  create_key s who r = do
    mutation_allowed r
    raw ← decode_json o s o.decode_create r
    let input = trim_input raw
    validate_metadata input
    check_reserved input
    create_checked who input

  unfoldable pub rotate_key : Session → Str → Request → Action S (Unit {0})
  unfolding send_issued call tick check_id mutation_allowed
  rotate_key who path r = do
    mutation_allowed r
    let id = trim_space path
    check_id store_error (validate_key_id id)
    n ← tick
    made ← call (rotate o.kv o.sha256 o.marshal o.unmarshal (o.clock n) (o.random n) id)
    send_issued who "rotate" id 200 made

  -- The reason of a revocation: a request without content has none.
  unfoldable pub read_reason : Server → Request → Action S Str
  unfolding decode_json
  read_reason s r = if r.has_content then decode_json o s o.decode_revoke r else give []

  unfoldable pub check_reason : Str → Action S (Unit {0})
  unfolding answer
  check_reason reason =
      if ltb 256 (length reason)
      then answer 400 (error "revocation reason must be 256 characters or fewer")
      else give tt

  unfoldable pub revoke_key : Server → Session → Str → Request → Action S (Unit {0})
  unfolding send_revoked call tick check_id read_reason check_reason mutation_allowed
  revoke_key s who path r = do
    mutation_allowed r
    let id = trim_space path
    check_id store_error (validate_key_id id)
    reason ← read_reason s r
    check_reason reason
    n ← tick
    done ← call (revoke o.kv o.sha256 o.marshal o.unmarshal (o.clock n) reason id)
    send_revoked who id done

  unfoldable pub send_keys : Result StoreError (List KeyRecord) → Action S (Unit {0})
  unfolding views now answer
  send_keys (err e) = answer 503 (error "managed key store unavailable")
  send_keys (ok records) = do instant ← now; write_json 200 (keys (views instant records))

  unfoldable pub list_keys : Action S (Unit {0})
  unfolding send_keys call
  list_keys = do records ← call (list_records o.kv o.unmarshal); send_keys records

  unfoldable pub get_status : Server → Action S (Unit {0})
  unfolding now write_json
  get_status s = do
    instant ← now
    λ w.
        write_json 200
          (status (record {
            ready = s.has_audit && o.audit_healthy && o.keys_healthy;
            audit_transport = s.has_audit && o.audit_healthy;
            managed_key_store = o.keys_healthy;
            managed_keys = managed_counts instant w.auth;
            mmdb_version = o.lookup_version;
            server_time = instant;
          }))
          w

  -- http.Error(w, "asset unavailable", http.StatusInternalServerError)
  unfoldable pub send_plain : ℕ → Action S (Unit {0})
  unfolding set_header
  send_plain code = do
    set_header "Content-Type" (codes "text/plain; charset=utf-8")
    set_header "X-Content-Type-Options" (codes "nosniff")
    λ w. (
      some tt,
      record w {
        sent = w.sent ++ record { status = code; headers = w.headers; body = plain } ∷ [];
      },
    )

  unfoldable pub send_asset : String → Option Str → Action S (Unit {0})
  unfolding send_plain set_header
  send_asset content_type none = send_plain 500
  send_asset content_type (some body) = do
    set_header "Content-Type" (codes content_type)
    λ w. (
      some tt,
      record w {
        sent = w.sent ++ record { status = 200; headers = w.headers; body = asset body } ∷ [];
      },
    )

  unfoldable pub serve_embedded : String → String → Action S (Unit {0})
  unfolding send_asset
  serve_embedded path content_type = send_asset content_type (o.asset path)
