-- ===== src/Examples/Syncs.antt =====
-- The synchronisation on two keys, the record of one of which becomes undecodable.
use geotagger.Prelude.{◌≡◌, refl, true, false, [], ◌∷◌, List, Option, none, some, ok, err}
use geotagger.Text.Bytes.{Str, codes, str_eq}
use geotagger.Text.Strings.{contains}
use geotagger.Text.Hex.{hex_decode}
use geotagger.Text.Dict.{lookup, insert}
use geotagger.Auth.{
  Verifier, clone_time, validate_id, decode_digest, add_managed, build_managed, replace_managed,
}
use geotagger.KeyStore.Records.{KeyRecord, Entry, undecodable, decode_entry}
use geotagger.KeyStore.Issued.{managed_key}
use geotagger.KeyStore.Sync.{Update, put, snapshot_end, Sync, keys_of, start_sync, sync_run}
use geotagger.KeyStore.Synced.{IsSynced}
use geotagger.KeyStore.Follows.{sync_run-IsSynced, sync_run_stale}
use geotagger.Examples.Fixtures.{zeros}

abbrev record_of : Str → KeyRecord
record_of id = record {
  id = id;
  secret_sha256 = codes "0000000000000000000000000000000000000000000000000000000000000000";
  display_name = [];
  owner = [];
  environment = [];
  created_at = 5;
  rotated_at = none;
  expires_at = some 100;
  revoked_at = none;
  revocation_reason = [];
  revision = 1;
}

-- The text of a record is its id.
abbrev unmarshal : Str → Option KeyRecord
unmarshal [] = none
unmarshal (c ∷ id) = some (record_of (c ∷ id))

abbrev entry : Str → Str → Entry
entry key value = record { key = key; value = value; revision = 1 }

abbrev empty : Verifier
empty = record { static = (codes "app", zeros) ∷ []; managed = [] }

abbrev first_updates : List Update
first_updates = put (entry (codes "web") (codes "web")) ∷ snapshot_end ∷ []

abbrev synced : Sync
synced = sync_run unmarshal first_updates (start_sync empty)

sync_run-IsSynced_example : IsSynced (sync_run unmarshal first_updates (start_sync empty))
sync_run-IsSynced_example = sync_run-IsSynced unmarshal first_updates empty

bad_undecoded : decode_entry unmarshal (entry (codes "web") []) ≡ err (undecodable (codes "web"))
unfolding decode_entry
bad_undecoded = refl

good_decoded :
    decode_entry unmarshal (entry (codes "api") (codes "api")) ≡ ok (record_of (codes "api"))
unfolding decode_entry str_eq hex_decode clone_time
good_decoded = refl

started : (synced.running ≡ true) × (synced.initialized ≡ true)
unfolding sync_run start_sync decode_entry str_eq hex_decode clone_time insert replace_managed
    build_managed add_managed validate_id decode_digest contains lookup managed_key
started = (refl, refl)

distinct : str_eq (codes "api") (codes "web") ≡ false
unfolding str_eq
distinct = refl

taken :
    (replace_managed synced.verifier
      (keys_of (insert (codes "api") (record_of (codes "api")) synced.state))).1
    ≡ none
unfolding sync_run start_sync decode_entry str_eq hex_decode clone_time insert replace_managed
    build_managed add_managed validate_id decode_digest contains lookup managed_key
taken = refl

sync_run_stale_example :
    ((sync_run unmarshal (put (entry (codes "web") []) ∷ []) synced).healthy ≡ false)
    × ((sync_run unmarshal
          (put (entry (codes "web") []) ∷ put (entry (codes "api") (codes "api")) ∷ [])
          synced).healthy
        ≡ true)
    × (lookup
          (codes "web")
          (sync_run unmarshal
            (put (entry (codes "web") []) ∷ put (entry (codes "api") (codes "api")) ∷ [])
            synced).state
        ≡ lookup (codes "web") synced.state)
sync_run_stale_example =
    sync_run_stale unmarshal (entry (codes "web") []) (entry (codes "api") (codes "api"))
      (record_of (codes "api")) (undecodable (codes "web")) synced
      (sync_run-IsSynced unmarshal first_updates empty) started.0 started.1 bad_undecoded
      good_decoded distinct taken
