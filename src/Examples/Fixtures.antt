-- ===== src/Examples/Fixtures.antt =====
-- The data that the examples share: a hash of one value, a verifier, an API and its world.
use geotagger.Prelude.{◌+◌, ◌*◌, true, false, [], ◌∷◌, none, some}
use geotagger.Text.Bytes.{Str, codes}
use geotagger.Net.{v4}
use geotagger.Geo.{no_result}
use geotagger.Auth.{Verifier, ManagedCredential}
use geotagger.Metrics.{lookup_bounds, audit_publish_bounds, request_bounds}
use geotagger.Metrics.Buckets.{empty_histogram}
use geotagger.HttpApi.Server.{Outside, Server, Request, World, decoded, looked, lookup_post}

-- 32 zeros
abbrev pub zeros : Str
zeros =
    0 ∷ 0 ∷ 0 ∷ 0 ∷ 0 ∷ 0 ∷ 0 ∷ 0 ∷ 0 ∷ 0 ∷ 0 ∷ 0 ∷ 0 ∷ 0 ∷ 0 ∷ 0 ∷ 0 ∷ 0 ∷ 0 ∷ 0 ∷ 0 ∷ 0 ∷ 0 ∷ 0
    ∷ 0 ∷ 0 ∷ 0 ∷ 0 ∷ 0 ∷ 0 ∷ 0 ∷ 0 ∷ []

abbrev pub hash : Str → Str
hash s = zeros

abbrev pub revoked : ManagedCredential
revoked = record { digest = zeros; expires_at = none; revoked_at = some 3 }

abbrev pub active : ManagedCredential
active = record { digest = zeros; expires_at = some 100; revoked_at = none }

abbrev pub verifier : Verifier
verifier = record {
  static = (codes "app", zeros) ∷ (codes "ops", zeros) ∷ [];
  managed = (codes "ops", revoked) ∷ (codes "web", active) ∷ [];
}

abbrev pub outside : Outside
outside = record {
  sha256 = hash;
  hmac_sha256 = λ key text. text;
  parse_addr = λ text. some (v4 134744072);
  addr_string = λ ip. codes "8.8.8.8";
  split_host_port = λ text. some text;
  decode_ip = λ text. decoded text true;
  clock = λ n. n * 1000;
  random_bytes = λ n. some ((n + 1) ∷ []);
  rfc3339_nano = λ t. codes "1970";
  lookup = λ n ip. looked no_result true;
  lookup_version = codes "v1";
  publish = λ before event. true;
  healthy = true;
}

abbrev pub server : Server
server = record {
  auth = verifier;
  audit_ip_mode = "raw";
  audit_hmac_key = [];
  max_body_bytes = 100;
  allow_private_ips = false;
}

abbrev pub start : World
start = record {
  metrics = record {
    requests = 0;
    auth_failures = 0;
    lookup_failures = 0;
    audit_failures = 0;
    lookup = empty_histogram lookup_bounds;
    audit_publish = empty_histogram audit_publish_bounds;
    request = empty_histogram request_bounds;
    inflight = 0;
  };
  readings = 0;
  lookups = [];
  audits = [];
  headers = [];
  sent = [];
}

-- A lookup of 8.8.8.8 with that Authorization header.
abbrev pub lookup_with : Str → Request
lookup_with header = record {
  route = lookup_post;
  authorization = header;
  query_ip = [];
  cf_connecting_ip = [];
  x_forwarded_for = [];
  remote_addr = [];
  body = codes "8.8.8.8";
  body_fails = false;
}
