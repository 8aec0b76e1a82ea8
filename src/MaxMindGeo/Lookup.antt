-- ===== src/MaxMindGeo/Lookup.antt =====
-- MaxMind.Lookup.
use geotagger.Prelude.{ℕ, Bool, ◌||◌, not, List, [], ◌∷◌, Option, none, some, ◌==◌, if◌then◌else◌}
use geotagger.Text.Bytes.{Str, is_empty}
use geotagger.Net.{Addr}
use geotagger.Geo.{GeoResult, no_result}
use geotagger.MaxMindGeo.Files.{Reader, MaxMind}

pub record Subdivision : Type 0 where
  pub iso_code : Str
  pub name : Str

-- cityRecord, with its nested structures flattened.
pub record CityRecord : Type 0 where
  pub continent_code : Str
  pub continent : Str
  pub country_code : Str
  pub country : Str
  pub subdivisions : List Subdivision
  pub city : Str
  pub postal_code : Str
  pub accuracy_radius : ℕ
  pub latitude : Option Str
  pub longitude : Option Str
  pub time_zone : Str

pub record AsnRecord : Type 0 where
  pub number : ℕ
  pub organization : Str

-- What a reader has for an address: a record that decodes, or not, and the text of the prefix,
-- where the prefix is valid.
pub record Looked (R : Type 0) : Type 0 where
  pub decoded : Option R
  pub prefix : Option Str

-- Lookup panics on the nil reader that Close leaves.
pub data LookupOutcome : Type 0 where
  panicked failed : LookupOutcome
  looked : GeoResult → Bool → LookupOutcome

unfoldable pub city_found : CityRecord → Bool
city_found r = not (is_empty r.country_code) || not (is_empty r.country) || not (is_empty r.city)

unfoldable pub asn_found : AsnRecord → Bool
asn_found r = not (r.number == 0) || not (is_empty r.organization)

unfoldable pub set_network : Option Str → GeoResult → GeoResult
set_network none result = result
set_network (some prefix) result = record result { network = prefix }

unfoldable pub set_region : List Subdivision → GeoResult → GeoResult
set_region [] result = result
set_region (s ∷ more) result = record result { region_code = s.iso_code; region = s.name }

unfoldable pub add_city : Option Str → CityRecord → GeoResult → GeoResult
unfolding city_found set_network set_region
add_city prefix r result =
    if city_found r
    then set_network prefix (
        set_region r.subdivisions (record result {
          continent_code = r.continent_code;
          continent = r.continent;
          country_code = r.country_code;
          country = r.country;
          city = r.city;
          postal_code = r.postal_code;
          latitude = r.latitude;
          longitude = r.longitude;
          accuracy_radius_km = r.accuracy_radius;
          time_zone = r.time_zone;
        }))
    else result

unfoldable pub add_asn : Option Str → AsnRecord → GeoResult → GeoResult
unfolding asn_found set_network
add_asn prefix r result =
    let named = record result { asn = r.number; asn_organization = r.organization } in
    if asn_found r
    then (if is_empty result.network then set_network prefix named else named)
    else result

unfoldable pub look_asn : GeoResult → Bool → Looked AsnRecord → LookupOutcome
unfolding asn_found add_asn
look_asn result found l = elim l.decoded [
  | none ↦ failed
  | some r ↦ looked (add_asn l.prefix r result) (found || asn_found r)
]

unfoldable pub look_city :
    GeoResult → Looked CityRecord → (GeoResult → Bool → LookupOutcome) → LookupOutcome
unfolding city_found add_city
look_city result l rest = elim l.decoded [
  | none ↦ failed
  | some r ↦ rest (add_city l.prefix r result) (city_found r)
]

module _ (addr_string : Addr → Str) (read_city : Reader → Addr → Looked CityRecord)
    (read_asn : Reader → Addr → Looked AsnRecord) where
  unfoldable pub with_asn : Option Reader → Addr → GeoResult → Bool → LookupOutcome
  unfolding look_asn
  with_asn none ip result found = panicked
  with_asn (some reader) ip result found = look_asn result found (read_asn reader ip)

  unfoldable pub with_city : Option Reader → Option Reader → Addr → GeoResult → LookupOutcome
  unfolding look_city with_asn
  with_city none asn ip result = panicked
  with_city (some reader) asn ip result = look_city result (read_city reader ip) (with_asn asn ip)

  unfoldable pub lookup : MaxMind → Addr → LookupOutcome
  unfolding with_city
  lookup m ip = with_city m.city_reader m.asn_reader ip (record no_result {
    ip = addr_string ip;
    city_database_version = m.city_version;
    asn_database_version = m.asn_version;
  })
