-- ===== src/Examples/Settings.antt =====
-- An environment with little more than the required settings.
use geotagger.Prelude.{ℕ, Bool, ltb, refl, false, Option, none, some, [], ◌∷◌}
use geotagger.Text.Bytes.{Str, codes, str_eq}
use geotagger.Text.Dict.{lookup}
use geotagger.NatsAudit.Stream.{ℤ, pos}
use geotagger.Config.Values.{Env}
use geotagger.Config.Load.{
  WorkerConfig, worker_config, ApiConfig, api_config, load_api, milliseconds,
}
use geotagger.Worker.{Insert}
use geotagger.Config.Bounds.{IsUsable, load_api-IsUsable}

abbrev or_unset : Option Str → Str
or_unset none = []
or_unset (some value) = value

abbrev env : Env
env key = or_unset (
    lookup (codes key) (
      (codes "API_KEYS", codes "app:00")
      ∷ (codes "AUDIT_IP_MODE", codes "omit")
      ∷ (codes "MAX_BODY_BYTES", codes "+64")
      ∷ []))

abbrev parse_duration : Str → Option ℤ
parse_duration text = none

abbrev settings : ApiConfig
settings =
    api_config env (milliseconds 300000) (milliseconds 50) (milliseconds 10000) (pos 64) false

load_api-IsUsable_example : IsUsable settings
unfolding load_api lookup str_eq
load_api-IsUsable_example = load_api-IsUsable parse_duration env settings refl

abbrev worker_env : Env
worker_env key = or_unset (
    lookup (codes key)
      ((codes "CLICKHOUSE_PASSWORD", codes "pw") ∷ (codes "BATCH_SIZE", codes "2") ∷ []))

abbrev worker_settings : WorkerConfig
worker_settings = worker_config worker_env (pos 2) (milliseconds 250) (milliseconds 15000)

abbrev has_room : ℕ → Bool
has_room n = ltb n 1000000

abbrev refuse_all : Insert
refuse_all cut_off taken rows = false
