-- ===== src/Commands/Settings.antt =====
-- The config command's keys, values and assignments (internal/commands/commands.go).
use Prim.Native.String.{String}
use mxlrc_go.Common.{
  ℕ, Bool, true, false, leb, List, [], ◌∷◌, Option, none, some, text_eq, if◌then◌else◌,
}
use mxlrc_go.Auth.Text.{trim_space}
use mxlrc_go.Strings.Splitting.{join}
use mxlrc_go.Config.Numbers.{ℤ, pos, negsuc, atoi, itoa, parse_bool, out_of_unit}
use mxlrc_go.Config.Data.{Config}
use mxlrc_go.Config.Loading.{split_csv}

-- The cases of both switches.
pub data ConfigKey : Type 0 where
  api_token api_cooldown api_circuit_open_duration output_dir db_path server_addr : ConfigKey
  server_webhook_api_keys server_scan_interval_seconds server_work_interval_seconds : ConfigKey
  providers_primary providers_disabled verification_enabled verification_whisper_url : ConfigKey
  verification_ffmpeg_path verification_sample_duration_seconds : ConfigKey
  verification_min_confidence verification_min_similarity : ConfigKey

abbrev key_text : ConfigKey → String
key_text api_token = "api.token"
key_text api_cooldown = "api.cooldown"
key_text api_circuit_open_duration = "api.circuit_open_duration"
key_text output_dir = "output.dir"
key_text db_path = "db.path"
key_text server_addr = "server.addr"
key_text server_webhook_api_keys = "server.webhook_api_keys"
key_text server_scan_interval_seconds = "server.scan_interval_seconds"
key_text server_work_interval_seconds = "server.work_interval_seconds"
key_text providers_primary = "providers.primary"
key_text providers_disabled = "providers.disabled"
key_text verification_enabled = "verification.enabled"
key_text verification_whisper_url = "verification.whisper_url"
key_text verification_ffmpeg_path = "verification.ffmpeg_path"
key_text verification_sample_duration_seconds = "verification.sample_duration_seconds"
key_text verification_min_confidence = "verification.min_confidence"
key_text verification_min_similarity = "verification.min_similarity"

abbrev pub all_keys : List ConfigKey
all_keys =
    api_token ∷ api_cooldown ∷ api_circuit_open_duration ∷ output_dir ∷ db_path ∷ server_addr
    ∷ server_webhook_api_keys ∷ server_scan_interval_seconds ∷ server_work_interval_seconds
    ∷ providers_primary ∷ providers_disabled ∷ verification_enabled ∷ verification_whisper_url
    ∷ verification_ffmpeg_path ∷ verification_sample_duration_seconds ∷ verification_min_confidence
    ∷ verification_min_similarity ∷ []

abbrev pub find_key : String → List ConfigKey → Option ConfigKey
find_key key [] = none
find_key key (k ∷ ks) =
    let rest = find_key key ks in if text_eq key (key_text k) then some k else rest

abbrev texts : List ConfigKey → List String
texts [] = []
texts (k ∷ ks) = key_text k ∷ texts ks

unfoldable pub config_keys : List String
config_keys = texts all_keys

abbrev pub format_bool : Bool → String
format_bool true = "true"
format_bool false = "false"

abbrev joined : List String → String
joined vs = join "," vs

-- `format_float` is strconv.FormatFloat of the bits of a float64.
module _ (format_float : ℕ → String) where
  unfoldable pub value_of : Config → ConfigKey → String
  unfolding itoa join
  value_of cfg api_token = cfg.api.token
  value_of cfg api_cooldown = itoa cfg.api.cooldown
  value_of cfg api_circuit_open_duration = itoa cfg.api.circuit_open_duration
  value_of cfg output_dir = cfg.output.dir
  value_of cfg db_path = cfg.db.path
  value_of cfg server_addr = cfg.server.addr
  value_of cfg server_webhook_api_keys = joined cfg.server.webhook_api_keys
  value_of cfg server_scan_interval_seconds = itoa cfg.server.scan_interval_seconds
  value_of cfg server_work_interval_seconds = itoa cfg.server.work_interval_seconds
  value_of cfg providers_primary = cfg.providers.primary
  value_of cfg providers_disabled = joined cfg.providers.disabled
  value_of cfg verification_enabled = format_bool cfg.verification.enabled
  value_of cfg verification_whisper_url = cfg.verification.whisper_url
  value_of cfg verification_ffmpeg_path = cfg.verification.ffmpeg_path
  value_of cfg verification_sample_duration_seconds = itoa cfg.verification.sample_duration_seconds
  value_of cfg verification_min_confidence = format_float cfg.verification.min_confidence
  value_of cfg verification_min_similarity = format_float cfg.verification.min_similarity

  abbrev pub read : Config → Option ConfigKey → Option String
  read cfg none = none
  read cfg (some k) = some (value_of cfg k)

  unfoldable pub config_value : Config → String → Option String
  unfolding value_of
  config_value cfg key = read cfg (find_key key all_keys)

-- The configuration after the assignment, or which message refuses it.
pub data Assigned : Type 0 where
  assigned : Config → Assigned
  refused_value : ConfigKey → Assigned
  unknown_key : Assigned

-- n < least
abbrev pub number_from : ℕ → ConfigKey → (ℕ → Config) → Option ℤ → Assigned
number_from least k f none = refused_value k
number_from least k f (some (negsuc n)) = refused_value k
number_from least k f (some (pos n)) = if leb least n then assigned (f n) else refused_value k

abbrev pub flag : ConfigKey → (Bool → Config) → Option Bool → Assigned
flag k f none = refused_value k
flag k f (some b) = assigned (f b)

abbrev pub ratio : ConfigKey → (ℕ → Config) → Option ℕ → Assigned
ratio k f none = refused_value k
ratio k f (some b) = if out_of_unit b then refused_value k else assigned (f b)

module _ (parse_float : String → Option ℕ) where
  unfoldable pub assign : Config → String → ConfigKey → Assigned
  unfolding atoi parse_bool out_of_unit split_csv trim_space
  assign cfg v api_token = assigned (record cfg { api = record cfg.api { token = v } })
  assign cfg v api_cooldown =
      number_from 0 api_cooldown (λ n. record cfg { api = record cfg.api { cooldown = pos n } })
        (atoi v)
  assign cfg v api_circuit_open_duration =
      number_from 1 api_circuit_open_duration
        (λ n. record cfg { api = record cfg.api { circuit_open_duration = pos n } }) (atoi v)
  assign cfg v output_dir = assigned (record cfg { output = record { dir = v } })
  assign cfg v db_path = assigned (record cfg { db = record { path = v } })
  assign cfg v server_addr = assigned (record cfg { server = record cfg.server { addr = v } })
  assign cfg v server_webhook_api_keys =
      assigned (record cfg { server = record cfg.server { webhook_api_keys = split_csv v } })
  assign cfg v server_scan_interval_seconds =
      number_from 0 server_scan_interval_seconds
        (λ n. record cfg { server = record cfg.server { scan_interval_seconds = pos n } }) (atoi v)
  assign cfg v server_work_interval_seconds =
      number_from 0 server_work_interval_seconds
        (λ n. record cfg { server = record cfg.server { work_interval_seconds = pos n } }) (atoi v)
  assign cfg v providers_primary =
      assigned (record cfg { providers = record cfg.providers { primary = v } })
  assign cfg v providers_disabled =
      assigned (record cfg { providers = record cfg.providers { disabled = split_csv v } })
  assign cfg v verification_enabled =
      flag verification_enabled
        (λ b. record cfg { verification = record cfg.verification { enabled = b } }) (parse_bool v)
  assign cfg v verification_whisper_url =
      assigned (record cfg { verification = record cfg.verification { whisper_url = v } })
  assign cfg v verification_ffmpeg_path =
      if text_eq (trim_space v) ""
      then refused_value verification_ffmpeg_path
      else assigned (record cfg { verification = record cfg.verification { ffmpeg_path = v } })
  assign cfg v verification_sample_duration_seconds =
      number_from 1 verification_sample_duration_seconds
        (λ n. record cfg {
          verification = record cfg.verification { sample_duration_seconds = pos n };
        })
        (atoi v)
  assign cfg v verification_min_confidence =
      ratio verification_min_confidence
        (λ b. record cfg { verification = record cfg.verification { min_confidence = b } })
        (parse_float v)
  assign cfg v verification_min_similarity =
      ratio verification_min_similarity
        (λ b. record cfg { verification = record cfg.verification { min_similarity = b } })
        (parse_float v)

  abbrev pub assign_to : Config → String → Option ConfigKey → Assigned
  assign_to cfg v none = unknown_key
  assign_to cfg v (some k) = assign cfg v k

  unfoldable pub set_config_value : Config → String → String → Assigned
  unfolding assign
  set_config_value cfg key v = assign_to cfg v (find_key key all_keys)
