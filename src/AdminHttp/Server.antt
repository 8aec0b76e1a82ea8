-- ===== src/AdminHttp/Server.antt =====
-- The admin server, the outside world that its handlers call, the state that they change and the
-- monad in which they run.
use geotagger.Prelude.{ℕ, Bool, String, List, Option, none, some}
use geotagger.Text.Bytes.{Str}
use geotagger.Text.Dict.{Dict}
use geotagger.Auth.{Verifier, ManagedCounts}
use geotagger.KeyStore.Records.{KeyRecord, CreateInput, StoreError}
use geotagger.KeyStore.Operations.{KeyValue}

-- accessauth.Session
pub record Session : Type 0 where
  pub email : Str
  pub subject : Str
  pub expires_at : ℕ

pub record KeyView : Type 0 where
  pub id : Str
  pub display_name : Str
  pub owner : Str
  pub environment : Str
  pub created_at : ℕ
  pub rotated_at : Option ℕ
  pub expires_at : Option ℕ
  pub revoked_at : Option ℕ
  pub revocation_reason : Str
  pub status : String

-- The dashboard's numbers.
pub record StatusView : Type 0 where
  pub ready : Bool
  pub audit_transport : Bool
  pub managed_key_store : Bool
  pub managed_keys : ManagedCounts
  pub mmdb_version : Str
  pub server_time : ℕ

-- What a JSON decoder finds in a body: no value of the expected fields, or one and whether the
-- input ends behind it.
pub data Decoded (A : Type 0) : Type 0 where
  malformed : Decoded A
  decoded : A → Bool → Decoded A

pub data MetadataError : Type 0 where
  bad_id : StoreError → MetadataError
  too_long not_in_future : MetadataError

pub data Body : Type 0 where
  error : String → Body
  store_error : StoreError → Body
  metadata_error : MetadataError → Body
  session : Session → Body
  status : StatusView → Body
  keys : List KeyView → Body
  issued : KeyView → Str → Bool → Body
  revoked : KeyView → Bool → Body
  asset : Str → Body
  plain : Body

-- The route that http.ServeMux selects, with its path value, or the status of its own answer.
pub data Route : Type 0 where
  index script style get_session get_status list_keys create_key : Route
  rotate_key revoke_key : Str → Route
  unmatched : ℕ → Route

pub record Request : Type 0 where
  pub route : Route
  pub access_jwt : Str
  pub csrf : Str
  pub sec_fetch_site : Str
  pub content_type : Str
  pub has_content : Bool
  pub body : Str
  pub body_fails : Bool

pub record Response : Type 0 where
  pub status : ℕ
  pub headers : Dict Str
  pub body : Body

-- One entry of the log of mutations.
pub record Mutation : Type 0 where
  pub admin_email : Str
  pub operation : String
  pub key_id : Str
  pub outcome : String

-- The bucket of the key store, the verifier of the replica, how often the clock and the random
-- source were read, the log, the headers set so far and the responses written.
pub record World (S : Type 0) : Type 0 where
  pub bucket : S
  pub auth : Verifier
  pub readings : ℕ
  pub log : List Mutation
  pub headers : Dict Str
  pub sent : List Response

-- What the handlers call and the package does not fix.
pub record Outside (S : Type 0) : Type 0 where
  pub kv : KeyValue S
  pub sha256 : Str → Str
  pub marshal : KeyRecord → Option Str
  pub unmarshal : Str → Option KeyRecord
  pub clock : ℕ → ℕ
  pub random : ℕ → Option Str
  pub random_16 : ℕ → Option Str
  pub rfc3339_nano : ℕ → Str
  pub access : Str → ℕ → Option Session
  pub media_type : Str → Option Str
  pub decode_create : Str → Decoded CreateInput
  pub decode_revoke : Str → Decoded Str
  pub asset : String → Option Str
  pub audit_healthy : Bool
  pub keys_healthy : Bool
  pub lookup_version : Str

-- The fields of `Server` that no handler changes: whether access, keys and auth are all there, and
-- the limit on bodies.
pub record Server : Type 0 where
  pub configured : Bool
  pub has_audit : Bool
  pub max_body_size : ℕ

-- A handler's step: a value, or none when the handler has returned.
abbrev pub Action : Type 0 → Type 0 → Type 0
Action S A = World S → Option A × World S

abbrev pub proceed : {S A B : Type 0} → Option A → (A → Action S B) → Action S B
proceed (some a) next w = next a w
proceed none next w = (none, w)

infixl 5 ◌>>=◌ ◌>>◌
abbrev pub ◌>>=◌ : {S A B : Type 0} → Action S A → (A → Action S B) → Action S B
◌>>=◌ first next w = let r = first w in proceed r.0 next r.1

abbrev pub ◌>>◌ : {S A B : Type 0} → Action S A → Action S B → Action S B
first >> rest = first >>= (λ done. rest)

abbrev pub give : {S A : Type 0} → A → Action S A
give a w = (some a, w)

abbrev pub stop : {S A : Type 0} → Action S A
stop w = (none, w)
