-- ===== src/KeyStore/Opening.antt =====
-- Open: the bucket is bound, or created, or bound after another process created it, and refused
-- unless it is durable. The connection's own errors end Open before.
use geotagger.Prelude.{ℕ, ◌*◌, ◌^◌, Bool, true, false, not, Result, ok, err, ltb, if◌then◌else◌}
use geotagger.Text.Bytes.{Str, codes, is_empty}
use geotagger.NatsAudit.Stream.{Storage, file, is_file}

pub record KeyValueConfig : Type 0 where
  pub bucket : Str
  pub storage : Storage
  pub history : ℕ
  pub max_bytes : ℕ
  pub replicas : ℕ

pub data BucketError : Type 0 where
  bucket_not_found bucket_unavailable : BucketError

pub data OpenError : Type 0 where
  not_opened no_status not_file_backed invalid_history : OpenError

-- js.KeyValue and js.CreateKeyValue, which bind a bucket, and kv.Status, which tells its settings.
pub record Buckets (S : Type 0) : Type 0 where
  pub key_value : Str → S → S × Result BucketError (Unit {0})
  pub create_key_value : KeyValueConfig → S → S × Bool
  pub status : Str → S → S × Result BucketError KeyValueConfig

abbrev pub default_bucket : Str
default_bucket = codes "GEOTAGGER_API_KEYS"

unfoldable pub bucket_config : Str → KeyValueConfig
bucket_config bucket = record {
  bucket = bucket;
  storage = file;
  history = 5;
  max_bytes = 64 * 2 ^ 20;
  replicas = 1;
}

module _ {S : Type 0} (js : Buckets S) (bucket : Str) where
  unfoldable pub check_status :
      S × Result BucketError KeyValueConfig → S × Result OpenError (Unit {0})
  check_status (s, err e) = (s, err no_status)
  check_status (s, ok cfg) =
      if not (is_file cfg.storage)
      then (s, err not_file_backed)
      else if ltb cfg.history 1
      then (s, err invalid_history)
      else (s, ok tt)

  -- Behind the last attempt to bind the bucket.
  unfoldable pub bound : S × Result BucketError (Unit {0}) → S × Result OpenError (Unit {0})
  unfolding check_status
  bound (s, ok _) = check_status (js.status bucket s)
  bound (s, err e) = (s, err not_opened)

  unfoldable pub created : S × Bool → S × Result OpenError (Unit {0})
  unfolding bound
  created (s, true) = bound (s, ok tt)
  created (s, false) = bound (js.key_value bucket s)

  unfoldable pub first_bound : S × Result BucketError (Unit {0}) → S × Result OpenError (Unit {0})
  unfolding created bucket_config
  first_bound (s, ok _) = bound (s, ok tt)
  first_bound (s, err bucket_not_found) = created (js.create_key_value (bucket_config bucket) s)
  first_bound (s, err bucket_unavailable) = bound (s, err bucket_unavailable)

  unfoldable pub open_bucket : S → S × Result OpenError (Unit {0})
  unfolding first_bound
  open_bucket s = first_bound (js.key_value bucket s)

unfoldable pub open_store : {S : Type 0} → Buckets S → Str → S → S × Result OpenError (Unit {0})
unfolding open_bucket
open_store js bucket s = open_bucket js (if is_empty bucket then default_bucket else bucket) s
