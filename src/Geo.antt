-- ===== src/Geo.antt =====
-- internal/geo/types.go: what a lookup finds. A float is kept as the text that it was read from.
use geotagger.Prelude.{ℕ, [], Option, none}
use geotagger.Text.Bytes.{Str}

-- Result, over the type of floats.
pub record GeoResult : Type 0 where
  pub ip : Str
  pub network : Str
  pub continent_code : Str
  pub continent : Str
  pub country_code : Str
  pub country : Str
  pub region_code : Str
  pub region : Str
  pub city : Str
  pub postal_code : Str
  pub latitude : Option Str
  pub longitude : Option Str
  pub accuracy_radius_km : ℕ
  pub time_zone : Str
  pub asn : ℕ
  pub asn_organization : Str
  pub city_database_version : Str
  pub asn_database_version : Str

-- geo.Result{}
abbrev pub no_result : GeoResult
no_result = record {
  ip = [];
  network = [];
  continent_code = [];
  continent = [];
  country_code = [];
  country = [];
  region_code = [];
  region = [];
  city = [];
  postal_code = [];
  latitude = none;
  longitude = none;
  accuracy_radius_km = 0;
  time_zone = [];
  asn = 0;
  asn_organization = [];
  city_database_version = [];
  asn_database_version = [];
}
