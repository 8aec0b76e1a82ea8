-- ===== src/Examples/Keys.antt =====
-- A managed key that is created, rotated and revoked, on a bucket of one entry.
use geotagger.Prelude.{
  All, length, ◌≤◌, ℕ, suc, ◌≡◌, ◌≢◌, refl, [], ◌∷◌, ◌++◌, Option, none, some, ok, arith,
}
use geotagger.Text.Bytes.{Str, codes, str_eq}
use geotagger.Text.Strings.{contains, Lacks}
use geotagger.Text.Trim.{trim_space}
use geotagger.Text.Graphic.{IsGraphic}
use geotagger.Text.Hex.{hex_encode, hex_decode}
use geotagger.Text.Base64.{base64_encode}
use geotagger.Text.Dict.{lookup, insert}
use geotagger.Auth.{
  Verifier, bearer, clone_time, validate_id, decode_digest, add_managed, build_managed,
  replace_managed, verify_authorization,
}
use geotagger.Auth.Verify.{until}
use geotagger.Auth.Static.{IsKeyId}
use geotagger.Auth.Managed.{find_key}
use geotagger.Keygen.RoundTrip.{IsDigest}
use geotagger.KeyStore.Records.{
  validate_key_id-IsKeyId, KeyRecord, CreateInput, Entry, validate_key_id, decode_entry,
  generate_secret,
}
use geotagger.KeyStore.Operations.{KeyValue, with_errors, payload_of, create, rotate, revoke}
use geotagger.KeyStore.Changed.{Replaced}
use geotagger.KeyStore.Issued.{managed_key, Holds, create_accepted, rotate_accepted, revoke_refused}
use geotagger.Examples.Fixtures.{zeros, hash}

-- The state counts the writes.
abbrev kv : KeyValue ℕ
kv = record {
  get = λ id s. (s, ok (record { key = id; value = codes "json"; revision = s }));
  create = λ id value s. (suc s, ok (suc s));
  update = λ id value revision s. (suc s, ok (suc s));
  keys = λ s. (s, ok (codes "web" ∷ []));
}

abbrev zeros_hex : Str
zeros_hex = codes "0000000000000000000000000000000000000000000000000000000000000000"

abbrev created : KeyRecord
created = record {
  id = codes "web";
  secret_sha256 = zeros_hex;
  display_name = [];
  owner = [];
  environment = [];
  created_at = 5;
  rotated_at = none;
  expires_at = some 100;
  revoked_at = none;
  revocation_reason = [];
  revision = 1;
}

abbrev rotated : KeyRecord
rotated = record created { rotated_at = some 7; revision = 2 }

abbrev revoked : KeyRecord
revoked = record created { revoked_at = some 9; revision = 2 }

abbrev input : CreateInput
input = record {
  id = codes "web";
  display_name = [];
  owner = [];
  environment = [];
  expires_at = some 100;
}

abbrev marshal : KeyRecord → Option Str
marshal r = some (codes "json")

abbrev unmarshal : Str → Option KeyRecord
unmarshal value = some created

abbrev random : Option Str
random = some (7 ∷ [])

abbrev token : Str
token = codes "web.Bw"

abbrev before : Verifier
before = record { static = (codes "app", zeros) ∷ []; managed = [] }

abbrev holding : KeyRecord → Verifier
holding r = record before {
  managed =
      (codes "web", record { digest = zeros; expires_at = r.expires_at; revoked_at = r.revoked_at })
      ∷ [];
}

was_created : create kv hash marshal unmarshal 5 random input 0 ≡ (1, ok (created, token))
unfolding create validate_key_id generate_secret with_errors payload_of trim_space base64_encode
    hex_encode clone_time
was_created = refl

was_rotated : rotate kv hash marshal unmarshal 7 random (codes "web") 1 ≡ (2, ok (rotated, token))
unfolding rotate decode_entry generate_secret with_errors payload_of base64_encode hex_encode
    clone_time str_eq hex_decode
was_rotated = refl

was_revoked : revoke kv hash marshal unmarshal 9 [] (codes "web") 1 ≡ (2, ok revoked)
unfolding revoke decode_entry with_errors payload_of clone_time str_eq hex_decode trim_space
was_revoked = refl

created_held : Holds before (holding created) (managed_key created ∷ []) created
unfolding managed_key replace_managed build_managed add_managed validate_id decode_digest hex_decode
    contains str_eq lookup insert clone_time find_key
created_held = record { replaced = refl; listed = refl }

rotated_held : Holds before (holding rotated) (managed_key rotated ∷ []) rotated
unfolding managed_key replace_managed build_managed add_managed validate_id decode_digest hex_decode
    contains str_eq lookup insert clone_time find_key
rotated_held = record { replaced = refl; listed = refl }

revoked_held : Holds before (holding revoked) (managed_key revoked ∷ []) revoked
unfolding managed_key replace_managed build_managed add_managed validate_id decode_digest hex_decode
    contains str_eq lookup insert clone_time find_key
revoked_held = record { replaced = refl; listed = refl }

sized : (s : Str) → IsDigest (hash s)
sized s = (omega arith, refl)

keyed : (id : Str) (s t : ℕ) (e : Entry) → kv.get id s ≡ (t, ok e) → e.key ≡ id
keyed id s t e h = cc

id_accepted : validate_key_id (codes "web") ≡ ok tt
unfolding validate_key_id
id_accepted = refl

validate_key_id-IsKeyId_example :
    IsKeyId (codes "web")
    × Lacks b',' (codes "web")
    × All IsGraphic (codes "web")
    × (length (codes "web") ≤ 64)
validate_key_id-IsKeyId_example = validate_key_id-IsKeyId (codes "web") id_accepted

create_accepted_example :
    verify_authorization hash (holding created) 50 (bearer ++ token) ≡ ok (codes "web")
create_accepted_example =
    create_accepted hash sized before (holding created) (managed_key created ∷ []) kv marshal
      unmarshal 5 random input 0 1 created token 50 (λ e. cc) was_created created_held
      (until (omega arith))

rotate_accepted_example :
    Replaced kv (codes "web") 1 2
    × (verify_authorization hash (holding rotated) 50 (bearer ++ token) ≡ ok (codes "web"))
rotate_accepted_example =
    rotate_accepted hash sized before (holding rotated) (managed_key rotated ∷ []) kv marshal
      unmarshal keyed 7 random (codes "web") 1 2 rotated token 50 (λ e. cc) was_rotated rotated_held
      (until (omega arith))

revoke_refused_example :
    verify_authorization hash (holding revoked) 50 (codes "Bearer web.Bw") ≢ ok (codes "web")
revoke_refused_example =
    revoke_refused hash sized before (holding revoked) (managed_key revoked ∷ []) kv marshal
      unmarshal keyed 9 [] (codes "web") 1 2 revoked (codes "Bearer web.Bw") 50 was_revoked
      revoked_held
