-- ===== src/Examples/Admin.antt =====
-- Requests to the admin API.
use geotagger.Prelude.{
  ◌≡◌, ◌≢◌, refl, true, false, [], ◌∷◌, ◌++◌, Option, none, some, ok, arith, IsSorted, All,
}
use geotagger.Text.Bytes.{Str, codes, str_eq}
use geotagger.Auth.{bearer, verify_authorization}
use geotagger.Auth.Verify.{never}
use geotagger.KeyStore.Records.{CreateInput, Entry}
use geotagger.KeyStore.Listing.{by_id, list_records}
use geotagger.KeyStore.Listed.{Stored, Lists, list_records_lem}
use geotagger.AdminHttp.Server.{
  Session, decoded, create_key, revoke_key, Request, World, Outside, Server,
}
use geotagger.AdminHttp.Promises.{IsSound}
use geotagger.AdminHttp.Routes.{serve}
use geotagger.AdminHttp.Outcomes.{Guarded, serve-Guarded}
use geotagger.AdminHttp.Tokens.{serve_issued, serve_revoked}
use geotagger.Text.Trim.{trim_space}
use geotagger.Text.Strings.{contains}
use geotagger.Text.Hex.{hex_encode, hex_decode}
use geotagger.Text.Base64.{base64_encode}
use geotagger.Text.Dict.{lookup, insert}
use geotagger.Auth.{
  has_static_id, clone_time, validate_id, decode_digest, add_managed, build_managed,
  replace_managed,
}
use geotagger.KeyStore.Records.{validate_key_id, decode_entry, generate_secret}
use geotagger.KeyStore.Operations.{with_errors, payload_of, create, revoke}
use geotagger.KeyStore.Issued.{managed_key}
use geotagger.Examples.Fixtures.{zeros, hash}
use geotagger.Examples.Slot.{shown, slot, slot-IsBucket, json, live, marshal, unmarshal}

abbrev request_of_ui : Request
request_of_ui = record {
  route = create_key;
  access_jwt = codes "jwt";
  csrf = codes "1";
  sec_fetch_site = codes "same-origin";
  content_type = codes "application/json";
  has_content = true;
  body = codes "{}";
  body_fails = false;
}

abbrev creation : Request
creation = request_of_ui

abbrev revocation : Request
revocation = record request_of_ui { route = revoke_key (codes "web"); has_content = false }

abbrev admin : Session
admin = record { email = codes "a@b.c"; subject = codes "a"; expires_at = 90 }

abbrev input : CreateInput
input = record {
  id = codes " web";
  display_name = [];
  owner = [];
  environment = [];
  expires_at = none;
}

abbrev admin_outside : Outside (Option Entry)
admin_outside = record {
  kv = slot;
  sha256 = hash;
  marshal = marshal;
  unmarshal = unmarshal;
  clock = λ n. 5;
  random = λ n. some (7 ∷ []);
  random_16 = λ n. some (9 ∷ []);
  rfc3339_nano = λ n. codes "1970";
  access = λ token n. some admin;
  media_type = λ text. some text;
  decode_create = λ text. decoded input true;
  decode_revoke = λ text. decoded [] true;
  asset = λ name. some [];
  audit_healthy = true;
  keys_healthy = true;
  lookup_version = codes "v1";
}

abbrev admin_server : Server
admin_server = record { configured = true; has_audit = true; max_body_size = 4096 }

abbrev empty_world : World (Option Entry)
empty_world = record {
  bucket = none;
  auth = record { static = (codes "app", zeros) ∷ []; managed = [] };
  readings = 0;
  log = [];
  headers = [];
  sent = [];
}

abbrev with_key : World (Option Entry)
with_key = record empty_world {
  bucket = some (record { key = codes "web"; value = codes "live"; revision = 1 });
}

sound : IsSound admin_outside shown
sound = record {
  bucket = slot-IsBucket;
  json = json;
  sized = λ text. (omega arith, refl);
  filled = λ n e. cc e;
}

serve-Guarded_example :
    Guarded admin_server admin_outside creation empty_world
      (serve admin_server admin_outside creation empty_world)
serve-Guarded_example = serve-Guarded admin_server admin_outside creation empty_world

list_records_lem_example :
    (with_key.bucket ≡ with_key.bucket)
    × (IsSorted by_id (record live { revision = 1 } ∷ [])
        × (All (Stored slot shown unmarshal with_key.bucket) (record live { revision = 1 } ∷ [])
            × ((id : Str)
                → Lists slot shown unmarshal
                    (record live { revision = 1 } ∷ [])
                    (shown with_key.bucket id))))
unfolding list_records decode_entry hex_decode str_eq clone_time validate_key_id
list_records_lem_example =
    list_records_lem slot shown unmarshal slot-IsBucket with_key.bucket with_key.bucket
      (record live { revision = 1 } ∷ []) was_listed
  where
    was_listed :
        list_records slot unmarshal with_key.bucket
        ≡ (with_key.bucket, ok (record live { revision = 1 } ∷ []))
    was_listed = refl

serve_issued_example :
    verify_authorization hash
      (serve admin_server admin_outside creation empty_world).auth
      50
      (bearer ++ codes "web.Bw")
    ≡ ok (codes "web")
unfolding serve trim_space str_eq validate_key_id has_static_id create revoke with_errors payload_of
    generate_secret base64_encode hex_encode decode_entry hex_decode clone_time list_records
    replace_managed build_managed add_managed validate_id decode_digest managed_key contains lookup
    insert
serve_issued_example =
    serve_issued admin_outside shown sound admin_server creation empty_world _ _ (codes "web.Bw") 50
      refl refl never

serve_revoked_example :
    verify_authorization hash
      (serve admin_server admin_outside revocation with_key).auth
      50
      (codes "Bearer web.Bw")
    ≢ ok (codes "web")
unfolding serve trim_space str_eq validate_key_id has_static_id create revoke with_errors payload_of
    generate_secret base64_encode hex_encode decode_entry hex_decode clone_time list_records
    replace_managed build_managed add_managed validate_id decode_digest managed_key contains lookup
    insert
serve_revoked_example =
    serve_revoked admin_outside shown sound admin_server revocation with_key _ _
      (codes "Bearer web.Bw") 50 refl refl
