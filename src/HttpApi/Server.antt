-- ===== src/HttpApi/Server.antt =====
-- The API server's configuration, the outside world that its handlers call, the state that they
-- change and the monad in which they run.
use geotagger.Prelude.{ℕ, Bool, String, List, Option, none, some}
use geotagger.Text.Bytes.{Str}
use geotagger.Text.Dict.{Dict}
use geotagger.Net.{Addr}
use geotagger.Audit.{Event}
use geotagger.Geo.{GeoResult}
use geotagger.Auth.{Verifier}
use geotagger.Metrics.{Metrics}

-- What a JSON decoder finds in a body: no object of the expected fields, or one with its `ip`
-- ("" where it has none) and whether the input ends behind it.
pub data Decoded : Type 0 where
  malformed : Decoded
  decoded : Str → Bool → Decoded

-- geo.Lookup.Lookup: an error, or a result with `found`.
pub data Looked : Type 0 where
  failed : Looked
  looked : GeoResult → Bool → Looked

-- What the handlers call and the repository does not fix. The n-th reading of the clock and of
-- the random source are functions of n; the audit publisher answers from the events that were
-- handed to it before.
pub record Outside : Type 0 where
  pub sha256 : Str → Str
  pub hmac_sha256 : Str → Str → Str
  pub parse_addr : Str → Option Addr
  pub addr_string : Addr → Str
  pub split_host_port : Str → Option Str
  pub decode_ip : Str → Decoded
  pub clock : ℕ → ℕ
  pub random_bytes : ℕ → Option Str
  pub rfc3339_nano : ℕ → Str
  pub lookup : ℕ → Addr → Looked
  pub lookup_version : Str
  pub publish : List (Event × Bool) → Event → Bool
  pub healthy : Bool

-- The fields of `Server` that no handler changes.
pub record Server : Type 0 where
  pub auth : Verifier
  pub audit_ip_mode : String
  pub audit_hmac_key : Str
  pub max_body_bytes : ℕ
  pub allow_private_ips : Bool

-- The route that http.ServeMux selects, or the status with which it answers by itself.
pub data Route : Type 0 where
  country lookup_post lookup_get me : Route
  unmatched : ℕ → Route

-- A body yields its content and then ends, or fails.
pub record Request : Type 0 where
  pub route : Route
  pub authorization : Str
  pub query_ip : Str
  pub cf_connecting_ip : Str
  pub x_forwarded_for : Str
  pub remote_addr : Str
  pub body : Str
  pub body_fails : Bool

-- The response object of the full lookup, with its groups of fields flattened.
pub record LookupResponse : Type 0 where
  pub ip : Str
  pub network : Str
  pub continent_code : Str
  pub continent_name : Str
  pub country_code : Str
  pub country_name : Str
  pub region_code : Str
  pub region_name : Str
  pub city : Str
  pub postal_code : Str
  pub latitude : Option Str
  pub longitude : Option Str
  pub accuracy_radius_km : ℕ
  pub time_zone : Str
  pub asn_number : ℕ
  pub asn_organization : Str
  pub public : Bool
  pub private : Bool
  pub loopback : Bool
  pub link_local : Bool
  pub ip_version : String
  pub city_database : Str
  pub asn_database : Str
  pub lookup_latency_us : ℕ
  pub request_id : Str

pub data Body : Type 0 where
  error : String → Body
  country_only : Str → Body
  full : LookupResponse → Body
  plain : Body

pub record Response : Type 0 where
  pub status : ℕ
  pub headers : Dict Str
  pub body : Body

-- The counters, how often the clock and the random source were read, the addresses looked up, the
-- events handed to the publisher with its answers, the response headers set so far and the
-- responses written.
pub record World : Type 0 where
  pub metrics : Metrics
  pub readings : ℕ
  pub lookups : List Addr
  pub audits : List (Event × Bool)
  pub headers : Dict Str
  pub sent : List Response

-- A handler's step: a value, or none when the handler has returned.
abbrev pub Action : Type 0 → Type 0
Action A = World → Option A × World

abbrev pub continue : {A B : Type 0} → Option A → (A → Action B) → Action B
continue none f w = (none, w)
continue (some a) f w = f a w

infixl 5 ◌>>=◌ ◌>>◌
abbrev pub ◌>>=◌ : {A B : Type 0} → Action A → (A → Action B) → Action B
◌>>=◌ m f w = let r = m w in continue r.0 f r.1

abbrev pub ◌>>◌ : {A B : Type 0} → Action A → Action B → Action B
m >> k = m >>= λ _. k

abbrev pub pure : {A : Type 0} → A → Action A
pure a w = (some a, w)

abbrev pub done : Unit {0}
done = tt
