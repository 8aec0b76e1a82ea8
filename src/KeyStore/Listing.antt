-- ===== src/KeyStore/Listing.antt =====
-- List and Healthy.
use geotagger.Prelude.{Bool, ◌&&◌, ◌||◌, not, List, [], ◌∷◌, ◌++◌, Option, Result, ok, err, sort}
use geotagger.Text.Bytes.{Str}
use geotagger.Text.Order.{str_lt}
use geotagger.KeyStore.Records.{KeyRecord, Entry, StoreError, get_failed, list_failed, decode_entry}
use geotagger.KeyStore.Operations.{
  KvError, key_not_found, key_deleted, key_exists, key_revision_mismatch, no_keys_found,
  kv_unavailable, KeyValue, Store, chain,
}

-- records[i].ID < records[j].ID
abbrev pub by_id : KeyRecord → KeyRecord → Bool
by_id a b = str_lt a.id b.id

module _ {S : Type 0} (kv : KeyValue S) (unmarshal : Str → Option KeyRecord) where
  -- One round of the loop of List, from the answer of kv.Get: a record to append, nothing for a key
  -- that is gone, or an error.
  unfoldable pub listed : Str → Result KvError Entry → Result StoreError (List KeyRecord)
  listed key (ok entry) = elim (decode_entry unmarshal entry) [ ok r ↦ ok (r ∷ []) | err e ↦ err e ]
  listed key (err key_not_found) = ok []
  listed key (err key_deleted) = ok []
  listed key (err key_exists) = err (get_failed key)
  listed key (err key_revision_mismatch) = err (get_failed key)
  listed key (err no_keys_found) = err (get_failed key)
  listed key (err kv_unavailable) = err (get_failed key)

  unfoldable pub list_keys : List Str → List KeyRecord → Store S (List KeyRecord)
  unfolding listed
  list_keys [] records s = (s, ok records)
  list_keys (key ∷ keys) records s =
      let r = kv.get key s in
      chain (listed key r.1) (λ found. list_keys keys (records ++ found)) r.0

  -- sort.Slice by id, behind the loop.
  unfoldable pub sorted :
      S × Result StoreError (List KeyRecord) → S × Result StoreError (List KeyRecord)
  unfolding sort
  sorted (s, ok records) = (s, ok (sort by_id records))
  sorted (s, err e) = (s, err e)

  unfoldable pub list_from : S × Result KvError (List Str) → S × Result StoreError (List KeyRecord)
  unfolding list_keys sorted
  list_from (s, ok keys) = sorted (list_keys keys [] s)
  list_from (s, err no_keys_found) = (s, ok [])
  list_from (s, err key_not_found) = (s, err list_failed)
  list_from (s, err key_deleted) = (s, err list_failed)
  list_from (s, err key_exists) = (s, err list_failed)
  list_from (s, err key_revision_mismatch) = (s, err list_failed)
  list_from (s, err kv_unavailable) = (s, err list_failed)

  unfoldable pub list_records : Store S (List KeyRecord)
  unfolding list_from
  list_records s = list_from (kv.keys s)

-- Healthy of a store whose connection stands or not, from its two flags.
unfoldable pub is_healthy : Bool → Bool → Bool → Bool
is_healthy connected sync_started sync_healthy = connected && (not sync_started || sync_healthy)
