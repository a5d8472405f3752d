-- ===== src/Config/Loading.antt =====
-- Load of internal/config/config.go: defaults, the file, the environment, and the circuit's minimum.
use Prim.Native.String.{String}
use mxlrc_go.Common.{
  ℕ, Bool, true, false, ◌||◌, leb, ltb, ◌==◌, List, [], ◌∷◌, Option, none, some, text_eq,
  if◌then◌else◌,
}
use mxlrc_go.Auth.Text.{trim_space}
use mxlrc_go.Strings.Splitting.{split, equal_fold}
use mxlrc_go.Strings.Paths.{join_path}
use mxlrc_go.Config.Numbers.{ℤ, pos, negsuc, atoi, parse_bool, out_of_unit}
use mxlrc_go.Config.Data.{
  Config, Environment, Stat, missing, stat_failed, present, circuit_open_default_seconds,
  circuit_open_min_seconds, default_scan_interval_seconds,
}

unfoldable pub docker_mode : Environment → Bool
unfolding trim_space equal_fold
docker_mode env =
    let v = trim_space (env.getenv "MXLRC_DOCKER") in equal_fold v "true" || text_eq v "1"

abbrev is_there : Stat → Bool
is_there missing = false
is_there stat_failed = false
is_there (present _) = true

-- The directory that a variable names, or one under the home directory; "" without a home.
abbrev under_home : Environment → List String → String → String → Option String → String
under_home env below app file none =
    if is_there (env.stat "/.dockerenv") then join_path ("/config" ∷ file ∷ []) else ""
under_home env below app file (some home) = join_path (join_path (home ∷ below) ∷ app ∷ file ∷ [])

abbrev xdg_path : Environment → String → List String → String → String → String
xdg_path env base below app file =
    let home_path = under_home env below app file env.home in
    if docker_mode env
    then join_path ("/config" ∷ file ∷ [])
    else if text_eq base ""
    then home_path
    else join_path (base ∷ app ∷ file ∷ [])

unfoldable pub xdg_config_path : Environment → String → String → String
unfolding docker_mode join_path
xdg_config_path env = xdg_path env (env.getenv "XDG_CONFIG_HOME") (".config" ∷ [])

unfoldable pub xdg_data_path : Environment → String → String → String
unfolding docker_mode join_path
xdg_data_path env = xdg_path env (env.getenv "XDG_DATA_HOME") (".local" ∷ "share" ∷ [])

unfoldable pub defaults : Environment → Config
unfolding xdg_data_path
defaults env = record {
  api = record {
    token = "";
    cooldown = pos 15;
    circuit_open_duration = circuit_open_default_seconds;
  };
  output = record { dir = "lyrics" };
  db = record { path = xdg_data_path env "mxlrcgo-svc" "mxlrcgo.db" };
  server = record {
    addr = "127.0.0.1:3876";
    webhook_api_keys = [];
    scan_interval_seconds = default_scan_interval_seconds;
    work_interval_seconds = pos 0;
  };
  providers = record { primary = "musixmatch"; disabled = [] };
  verification = record {
    enabled = false;
    whisper_url = "";
    ffmpeg_path = "ffmpeg";
    sample_duration_seconds = pos 30;
    min_confidence = 4605831338911806259;  -- 0.85
    min_similarity = 4599976659396224614;  -- 0.35
  };
}

abbrev pub or_text : String → String → String
or_text s d = if text_eq s "" then d else s

abbrev pub is_positive : ℤ → Bool
is_positive (pos n) = ltb 0 n
is_positive (negsuc n) = false

abbrev pub or_positive : ℤ → ℤ → ℤ
or_positive n d = if is_positive n then n else d

abbrev pub or_unit : ℕ → ℕ → ℕ
or_unit b d = if out_of_unit b then d else b

abbrev pub is_zero : ℤ → Bool
is_zero (pos n) = n == 0
is_zero (negsuc n) = false

-- The defaults for the fields that the file has set to blank.
unfoldable pub reapply_defaults : Config → Config → Config
unfolding out_of_unit
reapply_defaults d cfg = record cfg {
  db = record { path = or_text cfg.db.path d.db.path };
  output = record { dir = or_text cfg.output.dir d.output.dir };
  server = record cfg.server { addr = or_text cfg.server.addr d.server.addr };
  providers = record cfg.providers { primary = or_text cfg.providers.primary d.providers.primary };
  verification = record cfg.verification {
    sample_duration_seconds =
        or_positive cfg.verification.sample_duration_seconds d.verification.sample_duration_seconds;
    ffmpeg_path = or_text cfg.verification.ffmpeg_path d.verification.ffmpeg_path;
    min_confidence = or_unit cfg.verification.min_confidence d.verification.min_confidence;
    min_similarity = or_unit cfg.verification.min_similarity d.verification.min_similarity;
  };
  api = record cfg.api {
    circuit_open_duration =
        if is_zero cfg.api.circuit_open_duration
        then d.api.circuit_open_duration
        else cfg.api.circuit_open_duration;
  };
}

abbrev keep_fields : List String → List String
keep_fields [] = []
keep_fields (v ∷ vs) =
    let w = trim_space v in if text_eq w "" then keep_fields vs else w ∷ keep_fields vs

-- The separator is a comma.
unfoldable pub split_csv : String → List String
unfolding split trim_space
split_csv s = keep_fields (split 44 s)

-- The value that a variable gives in place of `old`: a text that is set, a number of at least `least`,
-- a number in (0, 1], a Boolean.
abbrev pub at_least : ℕ → Option ℤ → ℤ → ℤ
at_least least none old = old
at_least least (some (negsuc n)) old = old
at_least least (some (pos n)) old = if leb least n then pos n else old

abbrev pub int_var : ℕ → String → ℤ → ℤ
int_var least v old = if text_eq v "" then old else at_least least (atoi v) old

abbrev pub in_unit : Option ℕ → ℕ → ℕ
in_unit none old = old
in_unit (some b) old = if out_of_unit b then old else b

abbrev pub bool_or : Option Bool → Bool → Bool
bool_or none old = old
bool_or (some b) old = b

abbrev pub csv_var : String → List String → List String
csv_var v old = if text_eq v "" then old else split_csv v

abbrev pub clamped : ℤ → ℤ
clamped (negsuc n) = circuit_open_default_seconds
clamped (pos n) =
    if n == 0
    then circuit_open_default_seconds
    else if ltb n circuit_open_min_seconds
    then pos circuit_open_min_seconds
    else pos n

unfoldable pub clamp_circuit_open_duration : Config → Config
clamp_circuit_open_duration cfg = record cfg {
  api = record cfg.api { circuit_open_duration = clamped cfg.api.circuit_open_duration };
}

pub data Loaded : Type 0 where
  loaded : Config → Loaded
  decode_error stat_error no_db_path : Loaded

-- `parse_float` is strconv.ParseFloat to the bits of a float64.
module _ (parse_float : String → Option ℕ) where
  abbrev pub unit_var : String → ℕ → ℕ
  unit_var v old = if text_eq v "" then old else in_unit (parse_float v) old

  unfoldable pub apply_env_overrides : Environment → Config → Config
  unfolding atoi parse_bool out_of_unit split_csv
  apply_env_overrides env cfg =
      let var = env.getenv in
      let enabled = var "MXLRC_VERIFICATION_ENABLED" in
      record {
        api = record {
          token = or_text (var "MUSIXMATCH_TOKEN") (or_text (var "MXLRC_API_TOKEN") cfg.api.token);
          cooldown =
              int_var 0 (or_text (var "MXLRC_API_COOLDOWN") (var "MXLRC_COOLDOWN"))
                cfg.api.cooldown;
          circuit_open_duration =
              int_var 1 (var "MXLRC_API_CIRCUIT_OPEN_DURATION") cfg.api.circuit_open_duration;
        };
        output = record { dir = or_text (var "MXLRC_OUTPUT_DIR") cfg.output.dir };
        db = record { path = or_text (var "MXLRC_DB_PATH") cfg.db.path };
        server = record {
          addr = or_text (var "MXLRC_SERVER_ADDR") cfg.server.addr;
          webhook_api_keys = csv_var (var "MXLRC_WEBHOOK_API_KEY") cfg.server.webhook_api_keys;
          scan_interval_seconds =
              int_var 0 (var "MXLRC_SCAN_INTERVAL") cfg.server.scan_interval_seconds;
          work_interval_seconds =
              int_var 0 (var "MXLRC_WORK_INTERVAL") cfg.server.work_interval_seconds;
        };
        providers = record {
          primary = or_text (var "MXLRC_PROVIDER_PRIMARY") cfg.providers.primary;
          disabled = csv_var (var "MXLRC_PROVIDERS_DISABLED") cfg.providers.disabled;
        };
        verification = record {
          enabled =
              if text_eq enabled ""
              then cfg.verification.enabled
              else bool_or (parse_bool enabled) cfg.verification.enabled;
          whisper_url =
              or_text (var "MXLRC_VERIFICATION_WHISPER_URL")
                (or_text (var "MXLRC_WHISPER_URL") cfg.verification.whisper_url);
          ffmpeg_path = or_text (var "MXLRC_VERIFICATION_FFMPEG_PATH") cfg.verification.ffmpeg_path;
          sample_duration_seconds =
              int_var 1
                (or_text (var "MXLRC_VERIFICATION_SAMPLE_DURATION_SECONDS")
                  (var "MXLRC_VERIFICATION_SAMPLE_DURATION"))
                cfg.verification.sample_duration_seconds;
          min_confidence =
              unit_var (var "MXLRC_VERIFICATION_MIN_CONFIDENCE") cfg.verification.min_confidence;
          min_similarity =
              unit_var (var "MXLRC_VERIFICATION_MIN_SIMILARITY") cfg.verification.min_similarity;
        };
      }

  -- What follows the file.
  unfoldable pub finish : Environment → Config → Loaded
  unfolding apply_env_overrides clamp_circuit_open_duration
  finish env cfg =
      let cfg' = clamp_circuit_open_duration (apply_env_overrides env cfg) in
      if text_eq cfg'.db.path "" then no_db_path else loaded cfg'

  abbrev pub decoded : Environment → Option Config → Loaded
  decoded env none = decode_error
  decoded env (some cfg) = finish env (reapply_defaults (defaults env) cfg)

  unfoldable pub read_file : Environment → Stat → Loaded
  unfolding defaults reapply_defaults finish
  read_file env missing = finish env (defaults env)
  read_file env stat_failed = stat_error
  read_file env (present decode) = decoded env (decode (defaults env))

  unfoldable pub load : Environment → String → Loaded
  unfolding read_file defaults finish xdg_config_path
  load env path =
      let file = or_text path (xdg_config_path env "mxlrcgo-svc" "config.toml") in
      let from_file = read_file env (env.stat file) in
      if text_eq file "" then finish env (defaults env) else from_file
