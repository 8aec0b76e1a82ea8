-- ===== src/KeyStore/Operations.antt =====
-- Create, Rotate and Revoke over the key-value bucket.
use geotagger.Prelude.{
  ℕ, Bool, true, false, List, [], ◌∷◌, ◌++◌, Option, none, some, Result, ok, err, is_some,
}
use geotagger.Text.Bytes.{Str}
use geotagger.Text.Trim.{trim_space}
use geotagger.KeyStore.Records.{
  KeyRecord, CreateInput, Entry, StoreError, not_found, get_failed, already_revoked, already_exists,
  update_failed, unmarshalable, create_failed, validate_key_id, normalize_time, decode_entry,
  generate_secret,
}

-- The errors of nats.KeyValue that the store tells apart, and the others.
pub data KvError : Type 0 where
  key_not_found key_deleted key_exists key_revision_mismatch no_keys_found kv_unavailable : KvError

-- The calls of nats.KeyValue, over a state of the bucket.
pub record KeyValue (S : Type 0) : Type 0 where
  pub get : Str → S → S × Result KvError Entry
  pub create : Str → Str → S → S × Result KvError ℕ
  pub update : Str → Str → ℕ → S → S × Result KvError ℕ
  pub keys : S → S × Result KvError (List Str)

-- A method of the store: a value or an error, beside the bucket that it leaves.
abbrev pub Store : Type 0 → Type 0 → Type 0
Store S A = S → S × Result StoreError A

abbrev pub chain : {S A B : Type 0} → Result StoreError A → (A → Store S B) → Store S B
chain (ok a) f s = f a s
chain (err e) f s = (s, err e)

infixl 5 ◌>>=◌
abbrev pub ◌>>=◌ : {S A B : Type 0} → Store S A → (A → Store S B) → Store S B
◌>>=◌ m f s = let r = m s in chain r.1 f r.0

abbrev pub lift : {S A : Type 0} → Result StoreError A → Store S A
lift r s = (s, r)

-- mapGetError
unfoldable pub map_get_error : Str → KvError → StoreError
map_get_error id key_not_found = not_found id
map_get_error id key_deleted = not_found id
map_get_error id key_exists = get_failed id
map_get_error id key_revision_mismatch = get_failed id
map_get_error id no_keys_found = get_failed id
map_get_error id kv_unavailable = get_failed id

-- The error of Create for one of the call.
unfoldable pub map_create_error : Str → KvError → StoreError
map_create_error id key_exists = already_exists id
map_create_error id key_revision_mismatch = already_exists id
map_create_error id key_not_found = create_failed
map_create_error id key_deleted = create_failed
map_create_error id no_keys_found = create_failed
map_create_error id kv_unavailable = create_failed

abbrev pub map_error :
    {A : Type 0} → (KvError → StoreError) → Result KvError A → Result StoreError A
map_error f (ok a) = ok a
map_error f (err e) = err (f e)

unfoldable pub with_errors :
    {S A : Type 0} → (KvError → StoreError) → S × Result KvError A → S × Result StoreError A
with_errors f r = (r.0, map_error f r.1)

unfoldable pub payload_of : Option Str → Result StoreError Str
payload_of none = err unmarshalable
payload_of (some payload) = ok payload

module _ {S : Type 0} (kv : KeyValue S) (sha256 : Str → Str) (marshal : KeyRecord → Option Str)
    (unmarshal : Str → Option KeyRecord) where
  -- The instant of the call and the outcome of rand.Read are arguments.
  unfoldable pub create : ℕ → Option Str → CreateInput → Store S (KeyRecord × Str)
  create now random input = do
    _ ← lift (validate_key_id input.id)
    secret ← lift (generate_secret sha256 random)
    let r : KeyRecord = record {
      id = input.id;
      secret_sha256 = secret.1;
      display_name = trim_space input.display_name;
      owner = trim_space input.owner;
      environment = trim_space input.environment;
      created_at = now;
      rotated_at = none;
      expires_at = normalize_time input.expires_at;
      revoked_at = none;
      revocation_reason = [];
      revision = 0;
    }
    payload ← lift (payload_of (marshal r))
    revision ← λ s. with_errors (map_create_error r.id) (kv.create r.id payload s)
    lift (ok (record r { revision = revision }, r.id ++ b'.' ∷ secret.0))

  -- kv.Get and decodeEntry, as Rotate and Revoke start.
  unfoldable pub load : Str → Store S (Entry × KeyRecord)
  load id = do
    entry ← λ s. with_errors (map_get_error id) (kv.get id s)
    r ← lift (decode_entry unmarshal entry)
    lift (ok (entry, r))

  -- json.Marshal and kv.Update, as Rotate and Revoke end.
  unfoldable pub save : Str → Entry → KeyRecord → Store S KeyRecord
  save id entry r = do
    payload ← lift (payload_of (marshal r))
    revision ← λ s. with_errors (λ _. update_failed id) (kv.update id payload entry.revision s)
    lift (ok (record r { revision = revision }))

  unfoldable pub rotate_loaded :
      ℕ → Option Str → Str → Entry → KeyRecord → Bool → Store S (KeyRecord × Str)
  unfolding save
  rotate_loaded now random id entry r true = lift (err (already_revoked id))
  rotate_loaded now random id entry r false = do
    secret ← lift (generate_secret sha256 random)
    saved ← save id entry (record r { secret_sha256 = secret.1; rotated_at = some now })
    lift (ok (saved, id ++ b'.' ∷ secret.0))

  unfoldable pub rotate : ℕ → Option Str → Str → Store S (KeyRecord × Str)
  unfolding load rotate_loaded
  rotate now random id = do
    loaded ← load id
    rotate_loaded now random id loaded.0 loaded.1 (is_some loaded.1.revoked_at)

  unfoldable pub revoke_loaded : ℕ → Str → Str → Entry → KeyRecord → Bool → Store S KeyRecord
  unfolding save
  revoke_loaded now reason id entry r true = lift (ok r)
  revoke_loaded now reason id entry r false =
      save id entry (record r { revoked_at = some now; revocation_reason = trim_space reason })

  unfoldable pub revoke : ℕ → Str → Str → Store S KeyRecord
  unfolding load revoke_loaded
  revoke now reason id = do
    loaded ← load id
    revoke_loaded now reason id loaded.0 loaded.1 (is_some loaded.1.revoked_at)
