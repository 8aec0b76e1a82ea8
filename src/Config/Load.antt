-- ===== src/Config/Load.antt =====
-- LoadAPI and LoadWorker.
use geotagger.Prelude.{
  ℕ, ◌*◌, Bool, false, ◌&&◌, ◌||◌, not, [], ◌∷◌, Option, Result, ok, err, ◌>>=◌, ltb, length,
  if◌then◌else◌,
}
use geotagger.Text.Bytes.{Str, codes, str_eq, is_empty}
use geotagger.NatsAudit.Stream.{ℤ, pos}
use geotagger.Config.Values.{
  Env, ConfigError, missing, bad_ip_mode, short_hmac_key, access_half_configured, not_positive,
  getenv, int_value, bool_value, duration, is_positive, is_one_of,
}

-- API
pub record ApiConfig : Type 0 where
  pub http_addr : Str
  pub admin_addr : Str
  pub city_mmdb_path : Str
  pub asn_mmdb_path : Str
  pub mmdb_reload : ℤ
  pub api_keys : Str
  pub managed_key_bucket : Str
  pub nats_url : Str
  pub audit_stream : Str
  pub audit_subject : Str
  pub audit_timeout : ℤ
  pub audit_ip_mode : Str
  pub audit_hmac_key : Str
  pub max_body_bytes : ℤ
  pub shutdown_timeout : ℤ
  pub allow_private_ips : Bool
  pub cf_access_team_domain : Str
  pub cf_access_audience : Str

-- Worker
pub record WorkerConfig : Type 0 where
  pub nats_url : Str
  pub audit_stream : Str
  pub audit_subject : Str
  pub durable_name : Str
  pub click_house_url : Str
  pub click_house_user : Str
  pub click_house_password : Str
  pub batch_size : ℤ
  pub flush_interval : ℤ
  pub shutdown_timeout : ℤ

abbrev pub milliseconds : ℕ → ℤ
milliseconds n = pos (n * 1000000)

-- The checks at the end of LoadAPI.
unfoldable pub check_api : ApiConfig → Result ConfigError ApiConfig
unfolding is_one_of is_positive
check_api c =
    if is_empty c.api_keys
    then err (missing "API_KEYS")
    else if is_empty c.managed_key_bucket
    then err (missing "MANAGED_KEY_BUCKET")
    else if is_empty c.city_mmdb_path || is_empty c.asn_mmdb_path
    then err (missing "CITY_MMDB_PATH and ASN_MMDB_PATH")
    else if not (is_one_of c.audit_ip_mode ("hmac" ∷ "raw" ∷ "omit" ∷ []))
    then err bad_ip_mode
    else if str_eq c.audit_ip_mode (codes "hmac") && ltb (length c.audit_hmac_key) 32
    then err short_hmac_key
    else if not (is_positive c.max_body_bytes)
    then err (not_positive "MAX_BODY_BYTES")
    else if not (is_positive c.audit_timeout)
    then err (not_positive "AUDIT_TIMEOUT")
    else if (is_empty c.cf_access_team_domain && not (is_empty c.cf_access_audience))
        || (not (is_empty c.cf_access_team_domain) && is_empty c.cf_access_audience)
    then err access_half_configured
    else ok c

-- The checks at the end of LoadWorker.
unfoldable pub check_worker : WorkerConfig → Result ConfigError WorkerConfig
unfolding is_positive
check_worker c =
    if not (is_positive c.batch_size)
    then err (not_positive "BATCH_SIZE")
    else if is_empty c.click_house_user
    then err (missing "CLICKHOUSE_USER")
    else if is_empty c.click_house_password
    then err (missing "CLICKHOUSE_PASSWORD")
    else ok c

-- The fields of the literal that LoadAPI starts with, and those that it reads next.
unfoldable pub api_config : Env → ℤ → ℤ → ℤ → ℤ → Bool → ApiConfig
unfolding getenv
api_config env mmdb_reload audit_timeout shutdown_timeout max_body_bytes allow_private_ips =
    record {
      http_addr = getenv env "HTTP_ADDR" ":8080";
      admin_addr = getenv env "ADMIN_ADDR" ":9090";
      city_mmdb_path = getenv env "CITY_MMDB_PATH" "/data/current/GeoLite2-City.mmdb";
      asn_mmdb_path = getenv env "ASN_MMDB_PATH" "/data/current/GeoLite2-ASN.mmdb";
      mmdb_reload = mmdb_reload;
      api_keys = env "API_KEYS";
      managed_key_bucket = getenv env "MANAGED_KEY_BUCKET" "GEOTAGGER_API_KEYS";
      nats_url = getenv env "NATS_URL" "nats://nats:4222";
      audit_stream = getenv env "AUDIT_STREAM" "GEOTAGGER_AUDIT";
      audit_subject = getenv env "AUDIT_SUBJECT" "geotagger.audit.lookup";
      audit_timeout = audit_timeout;
      audit_ip_mode = getenv env "AUDIT_IP_MODE" "hmac";
      audit_hmac_key = env "AUDIT_HMAC_KEY";
      max_body_bytes = max_body_bytes;
      shutdown_timeout = shutdown_timeout;
      allow_private_ips = allow_private_ips;
      cf_access_team_domain = env "CF_ACCESS_TEAM_DOMAIN";
      cf_access_audience = env "CF_ACCESS_AUD";
    }

-- The same for LoadWorker.
unfoldable pub worker_config : Env → ℤ → ℤ → ℤ → WorkerConfig
unfolding getenv
worker_config env batch_size flush_interval shutdown_timeout = record {
  nats_url = getenv env "NATS_URL" "nats://nats:4222";
  audit_stream = getenv env "AUDIT_STREAM" "GEOTAGGER_AUDIT";
  audit_subject = getenv env "AUDIT_SUBJECT" "geotagger.audit.lookup";
  durable_name = getenv env "AUDIT_DURABLE" "geotagger-clickhouse";
  click_house_url = getenv env "CLICKHOUSE_URL" "http://clickhouse:8123";
  click_house_user = getenv env "CLICKHOUSE_USER" "geotagger_ingest";
  click_house_password = env "CLICKHOUSE_PASSWORD";
  batch_size = batch_size;
  flush_interval = flush_interval;
  shutdown_timeout = shutdown_timeout;
}

module _ (parse_duration : Str → Option ℤ) (env : Env) where
  -- LoadAPI
  unfoldable pub load_api : Result ConfigError ApiConfig
  unfolding api_config duration int_value bool_value check_api
  load_api = do
    mmdb_reload ← duration parse_duration env "MMDB_RELOAD_INTERVAL" (milliseconds 300000)
    audit_timeout ← duration parse_duration env "AUDIT_TIMEOUT" (milliseconds 50)
    shutdown_timeout ← duration parse_duration env "SHUTDOWN_TIMEOUT" (milliseconds 10000)
    max_body_bytes ← int_value env "MAX_BODY_BYTES" (pos 1024)
    allow_private_ips ← bool_value env "ALLOW_PRIVATE_IPS" false
    check_api
        (api_config env mmdb_reload audit_timeout shutdown_timeout max_body_bytes allow_private_ips)

  -- LoadWorker
  unfoldable pub load_worker : Result ConfigError WorkerConfig
  unfolding worker_config duration int_value check_worker
  load_worker = do
    batch_size ← int_value env "BATCH_SIZE" (pos 1000)
    flush_interval ← duration parse_duration env "FLUSH_INTERVAL" (milliseconds 250)
    shutdown_timeout ← duration parse_duration env "SHUTDOWN_TIMEOUT" (milliseconds 15000)
    check_worker (worker_config env batch_size flush_interval shutdown_timeout)
