-- ===== src/Config/Data.antt =====
-- The structs of internal/config/config.go and the environment that Load reads. A float64 is its bits.
use mxlrc_go.Common.{ℕ, String, Bool, List, Option}
use mxlrc_go.Config.Numbers.{ℤ, pos}

pub record ApiConfig : Type 0 where
  pub token : String
  pub cooldown : ℤ
  pub circuit_open_duration : ℤ

pub record OutputConfig : Type 0 where
  pub dir : String

pub record DbConfig : Type 0 where
  pub path : String

pub record ServerConfig : Type 0 where
  pub addr : String
  pub webhook_api_keys : List String
  pub scan_interval_seconds : ℤ
  pub work_interval_seconds : ℤ

pub record ProvidersConfig : Type 0 where
  pub primary : String
  pub disabled : List String

pub record VerificationConfig : Type 0 where
  pub enabled : Bool
  pub whisper_url : String
  pub ffmpeg_path : String
  pub sample_duration_seconds : ℤ
  pub min_confidence : ℕ
  pub min_similarity : ℕ

pub record Config : Type 0 where
  pub api : ApiConfig
  pub output : OutputConfig
  pub db : DbConfig
  pub server : ServerConfig
  pub providers : ProvidersConfig
  pub verification : VerificationConfig

-- What os.Stat says of a path; a file that is there overlays a configuration or does not decode.
pub data Stat : Type 0 where
  missing stat_failed : Stat
  present : (Config → Option Config) → Stat

-- The environment of the process. A variable that is not set is empty; `home` is what os.UserHomeDir
-- gives.
pub record Environment : Type 0 where
  pub getenv : String → String
  pub home : Option String
  pub stat : String → Stat

abbrev pub circuit_open_default_seconds : ℤ
circuit_open_default_seconds = pos 1800

abbrev pub circuit_open_min_seconds : ℕ
circuit_open_min_seconds = 300

abbrev pub default_scan_interval_seconds : ℤ
default_scan_interval_seconds = pos 900
