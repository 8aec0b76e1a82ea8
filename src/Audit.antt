-- ===== src/Audit.antt =====
-- internal/audit: the event that each request publishes, and the form in which it holds an address.
use geotagger.Prelude.{ℕ, [], if◌then◌else◌, String}
use text.Mathlib.Text.{◌==◌}
use geotagger.Text.Bytes.{Str}
use geotagger.Text.Hex.{hex_encode}
use geotagger.Net.{Addr}

-- The fields of text that the API only copies from literals are texts; the others are bytes.
pub record Event : Type 0 where
  pub timestamp : ℕ
  pub request_id : Str
  pub caller_id : Str
  pub ip_value : Str
  pub ip_mode : String
  pub country_code : Str
  pub country : Str
  pub outcome : String
  pub status_code : ℕ
  pub lookup_latency_us : ℕ
  pub mmdb_version : Str

-- IPValue, over HMAC-SHA-256 and the printing of an address.
module _ (hmac_sha256 : Str → Str → Str) (addr_string : Addr → Str) where
  unfoldable pub ip_value : String → Str → Addr → Str
  ip_value mode key ip =
      if mode == "raw"
      then addr_string ip
      else if mode == "hmac"
      then hex_encode (hmac_sha256 key (addr_string ip))
      else []
