-- ===== src/KeyStore/Records.antt =====
-- The records of the bucket: their validation, their decoding, and the secrets made for them.
-- JSON and SHA-256 are arguments; `UTC()` is the identity on instants.
use geotagger.Prelude.{
  ℕ, ◌*◌, ◌≤◌, ◌≡◌, Bool, ◌&&◌, ◌||◌, not, [], ◌∷◌, Option, none, some, arith, Result, ok, err,
  ◌>>◌, ltb, leb, ◌==◌, if◌then◌else◌, length, is_some, All,
}
use geotagger.Text.Bytes.{Str, str_eq}
use geotagger.Text.Strings.{Lacks}
use geotagger.Text.Graphic.{IsGraphic}
use geotagger.Text.Hex.{hex_encode, hex_decode}
use geotagger.Text.Base64.{base64_encode}
use geotagger.Auth.{digest_size, clone_time}
use geotagger.Auth.Static.{IsKeyId}

pub record KeyRecord : Type 0 where
  pub id : Str
  pub secret_sha256 : Str
  pub display_name : Str
  pub owner : Str
  pub environment : Str
  pub created_at : ℕ
  pub rotated_at : Option ℕ
  pub expires_at : Option ℕ
  pub revoked_at : Option ℕ
  pub revocation_reason : Str
  pub revision : ℕ

pub record CreateInput : Type 0 where
  pub id : Str
  pub display_name : Str
  pub owner : Str
  pub environment : Str
  pub expires_at : Option ℕ

-- An entry of the bucket.
pub record Entry : Type 0 where
  pub key : Str
  pub value : Str
  pub revision : ℕ

pub data StoreError : Type 0 where
  bad_length bad_character : StoreError
  not_found get_failed undecodable id_mismatch bad_secret_digest : Str → StoreError
  already_revoked already_exists update_failed : Str → StoreError
  no_random unmarshalable create_failed list_failed : StoreError

-- A letter, a digit, '-' or '_'; a rune beyond ASCII has bytes that are none of these.
unfoldable pub is_id_byte : ℕ → Bool
is_id_byte r =
    (leb b'a' r && leb r b'z')
    || (leb b'A' r && leb r b'Z')
    || (leb b'0' r && leb r b'9')
    || r == b'-'
    || r == b'_'

unfoldable pub check_characters : Str → Result StoreError (Unit {0})
unfolding is_id_byte
check_characters [] = ok tt
check_characters (r ∷ id) =
    let rest = check_characters id in if is_id_byte r then rest else err bad_character

-- keystore.ValidateID
unfoldable pub validate_key_id : Str → Result StoreError (Unit {0})
unfolding check_characters
validate_key_id id =
    if ltb (length id) 1 || ltb 64 (length id) then err bad_length else check_characters id

-- normalizeTime
abbrev pub normalize_time : Option ℕ → Option ℕ
normalize_time = clone_time

-- hex.DecodeString fails, or the text is not of a digest's length.
unfoldable pub bad_digest : Str → Bool
bad_digest digest = not (is_some (hex_decode digest)) || not (length digest == digest_size * 2)

module _ (unmarshal : Str → Option KeyRecord) where
  -- decodeEntry behind the decoding of the JSON value.
  unfoldable pub check_record : Entry → Option KeyRecord → Result StoreError KeyRecord
  unfolding validate_key_id bad_digest
  check_record entry none = err (undecodable entry.key)
  check_record entry (some r) = if not (str_eq r.id entry.key) then err (id_mismatch r.id) else do
    validate_key_id r.id
    if bad_digest r.secret_sha256
        then err (bad_secret_digest r.id)
        else ok (record r {
          rotated_at = normalize_time r.rotated_at;
          expires_at = normalize_time r.expires_at;
          revoked_at = normalize_time r.revoked_at;
          revision = entry.revision;
        })

  unfoldable pub decode_entry : Entry → Result StoreError KeyRecord
  unfolding check_record
  decode_entry entry = check_record entry (unmarshal entry.value)

-- generateSecret, from the outcome of rand.Read on 32 bytes: the secret and its digest.
unfoldable pub generate_secret : (Str → Str) → Option Str → Result StoreError (Str × Str)
generate_secret sha256 none = err no_random
generate_secret sha256 (some bytes) =
    let secret = base64_encode bytes in ok (secret, hex_encode (sha256 secret))

check_characters_sound :
    (id : Str)
    → check_characters id ≡ ok tt
    → Lacks b'.' id × Lacks b':' id × Lacks b',' id × All IsGraphic id
unfolding check_characters is_id_byte
check_characters_sound [] h = (tt, tt, tt, tt)
check_characters_sound (r ∷ id) h = ground (arith, check_characters_sound id)

-- An id that the key store accepts has 1 to 64 bytes of graphic ASCII, with no dot, no colon and no
-- comma: it can stand in a token and in a specification of static keys.
pub validate_key_id-IsKeyId :
    (id : Str)
    → validate_key_id id ≡ ok tt
    → IsKeyId id × Lacks b',' id × All IsGraphic id × (length id ≤ 64)
unfolding validate_key_id
validate_key_id-IsKeyId [] h = absurd (ground arith)
validate_key_id-IsKeyId (r ∷ id) h =
    let (no_dot, no_colon, no_comma, graphic) = check_characters_sound (r ∷ id) (ground arith) in
    (
      record { present = λ e. cc; no_dot = no_dot; no_colon = no_colon },
      no_comma,
      graphic,
      ground arith,
    )
