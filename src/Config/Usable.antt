-- ===== src/Config/Usable.antt =====
-- What Load (internal/config/config.go) guarantees of a configuration, whatever the file and the
-- environment say.
use mxlrc_go.Common.{
  Bool-cases, subst, text_eq, ℕ, String, true, false, ◌≡◌, ◌≤◌, ◌<◌, ◌⊎◌, ◌+◌, ◌*◌, ◌^◌, Option,
  refl, none, some, inl, inr, arith, zero, suc,
}
use mxlrc_go.Config.Numbers.{ℤ, pos, negsuc, atoi, out_of_unit}
use mxlrc_go.Config.Data.{Config, Environment, Stat, missing, stat_failed, present}
use mxlrc_go.Config.Loading.{
  xdg_config_path, or_text, or_positive, or_unit, is_positive, at_least, int_var, in_unit, unit_var,
  clamped, defaults, reapply_defaults, apply_env_overrides, clamp_circuit_open_duration, loaded,
  finish, read_file, load, decoded,
}

abbrev pub IsGiven : String → Type 0
IsGiven s = text_eq s "" ≡ false

-- The bits of a float64 are those of a number above 0 and at most 1: the sign bit is not set, and
-- the bits, which are ordered as the numbers, are at most those of 1.0.
abbrev pub IsInUnit : ℕ → Type 0
IsInUnit b = (0 < b) × (b ≤ 4607182418800017408)

-- All bits of the exponent are set, and some of the fraction; the sign bit is not set, or it is.
abbrev pub IsNan : ℕ → Type 0
IsNan b = ((2047 * 2 ^ 52 < b) × (b < 2 ^ 63)) ⊎ (2 ^ 63 + 2047 * 2 ^ 52 < b)

abbrev pub IsAtLeast : ℕ → ℤ → Type 0
IsAtLeast n (pos m) = n ≤ m
IsAtLeast n (negsuc m) = ⊥

-- The fields that must not be blank or out of range.
record IsFilled (cfg : Config) : Type 0 where
  output : IsGiven cfg.output.dir
  address : IsGiven cfg.server.addr
  provider : IsGiven cfg.providers.primary
  ffmpeg : IsGiven cfg.verification.ffmpeg_path
  sample : is_positive cfg.verification.sample_duration_seconds ≡ true
  confidence : out_of_unit cfg.verification.min_confidence ≡ false
  similarity : out_of_unit cfg.verification.min_similarity ≡ false

pub record IsUsable (cfg : Config) : Type 0 where
  pub output : IsGiven cfg.output.dir
  pub address : IsGiven cfg.server.addr
  pub provider : IsGiven cfg.providers.primary
  pub ffmpeg : IsGiven cfg.verification.ffmpeg_path
  pub sample : IsAtLeast 1 cfg.verification.sample_duration_seconds
  pub confidence : IsInUnit cfg.verification.min_confidence ⊎ IsNan cfg.verification.min_confidence
  pub similarity : IsInUnit cfg.verification.min_similarity ⊎ IsNan cfg.verification.min_similarity
  pub database : IsGiven cfg.db.path
  pub circuit : IsAtLeast 300 cfg.api.circuit_open_duration

positive-IsAtLeast : (n : ℤ) → is_positive n ≡ true → IsAtLeast 1 n
positive-IsAtLeast (pos n) h = ground arith
positive-IsAtLeast (negsuc n) h = absurd (cc)

in_range : (b : ℕ) → out_of_unit b ≡ false → IsInUnit b ⊎ IsNan b
unfolding out_of_unit
in_range b h = ground arith

or_text-IsGiven : (s d : String) → IsGiven d → IsGiven (or_text s d)
or_text-IsGiven s d h = ground arith

or_positive-positive : (n d : ℤ) → is_positive d ≡ true → is_positive (or_positive n d) ≡ true
or_positive-positive (pos zero) d h = h
or_positive-positive (pos (suc n)) d h = ground arith
or_positive-positive (negsuc n) d h = h

or_unit-in_unit : (b d : ℕ) → out_of_unit d ≡ false → out_of_unit (or_unit b d) ≡ false
or_unit-in_unit b d h = ground arith

at_least-positive :
    (o : Option ℤ) (old : ℤ) → is_positive old ≡ true → is_positive (at_least 1 o old) ≡ true
at_least-positive none old h = h
at_least-positive (some (negsuc n)) old h = h
at_least-positive (some (pos n)) old h = ground arith

int_var-positive :
    (v : String) (old : ℤ) → is_positive old ≡ true → is_positive (int_var 1 v old) ≡ true
int_var-positive v old h = ground (arith, at_least-positive (atoi v) old h)

in_unit-kept :
    (o : Option ℕ) (old : ℕ) → out_of_unit old ≡ false → out_of_unit (in_unit o old) ≡ false
in_unit-kept none old h = h
in_unit-kept (some b) old h = ground arith

clamped-IsAtLeast : (n : ℤ) → IsAtLeast 300 (clamped n)
clamped-IsAtLeast (negsuc n) = omega arith
clamped-IsAtLeast (pos n) = ground arith

defaults-IsFilled : (env : Environment) → IsFilled (defaults env)
unfolding defaults out_of_unit
defaults-IsFilled env = record {
  output = refl;
  address = refl;
  provider = refl;
  ffmpeg = refl;
  sample = refl;
  confidence = refl;
  similarity = refl;
}

reapply_defaults-IsFilled : (d cfg : Config) → IsFilled d → IsFilled (reapply_defaults d cfg)
unfolding reapply_defaults
reapply_defaults-IsFilled d cfg h = record {
  output = or_text-IsGiven cfg.output.dir d.output.dir h.output;
  address = or_text-IsGiven cfg.server.addr d.server.addr h.address;
  provider = or_text-IsGiven cfg.providers.primary d.providers.primary h.provider;
  ffmpeg = or_text-IsGiven cfg.verification.ffmpeg_path d.verification.ffmpeg_path h.ffmpeg;
  sample = or_positive-positive cfg.verification.sample_duration_seconds _ h.sample;
  confidence = or_unit-in_unit cfg.verification.min_confidence _ h.confidence;
  similarity = or_unit-in_unit cfg.verification.min_similarity _ h.similarity;
}

module _ (parse_float : String → Option ℕ) where
  unit_var-kept :
      (v : String) (old : ℕ)
      → out_of_unit old ≡ false
      → out_of_unit (unit_var parse_float v old) ≡ false
  unit_var-kept v old h = ground (arith, in_unit-kept (parse_float v) old h)

  apply_env_overrides-IsFilled :
      (env : Environment) (cfg : Config)
      → IsFilled cfg
      → IsFilled (apply_env_overrides parse_float env cfg)
  unfolding apply_env_overrides
  apply_env_overrides-IsFilled env cfg h = record {
    output = or_text-IsGiven (env.getenv "MXLRC_OUTPUT_DIR") cfg.output.dir h.output;
    address = or_text-IsGiven (env.getenv "MXLRC_SERVER_ADDR") cfg.server.addr h.address;
    provider =
        or_text-IsGiven (env.getenv "MXLRC_PROVIDER_PRIMARY") cfg.providers.primary h.provider;
    ffmpeg = or_text-IsGiven (env.getenv "MXLRC_VERIFICATION_FFMPEG_PATH") _ h.ffmpeg;
    sample =
        int_var-positive
          (or_text (env.getenv "MXLRC_VERIFICATION_SAMPLE_DURATION_SECONDS")
            (env.getenv "MXLRC_VERIFICATION_SAMPLE_DURATION"))
          _ h.sample;
    confidence = unit_var-kept (env.getenv "MXLRC_VERIFICATION_MIN_CONFIDENCE") _ h.confidence;
    similarity = unit_var-kept (env.getenv "MXLRC_VERIFICATION_MIN_SIMILARITY") _ h.similarity;
  }

  clamp-IsFilled : (cfg : Config) → IsFilled cfg → IsFilled (clamp_circuit_open_duration cfg)
  unfolding clamp_circuit_open_duration
  clamp-IsFilled cfg h = record {
    output = h.output;
    address = h.address;
    provider = h.provider;
    ffmpeg = h.ffmpeg;
    sample = h.sample;
    confidence = h.confidence;
    similarity = h.similarity;
  }

  finish-IsUsable :
      (env : Environment) (before cfg : Config)
      → IsFilled before
      → finish parse_float env before ≡ loaded cfg
      → IsUsable cfg
  unfolding finish clamp_circuit_open_duration
  finish-IsUsable env before cfg h e =
      let last = clamp_circuit_open_duration (apply_env_overrides parse_float env before) in
      let given : IsGiven last.db.path = ground arith in
      let full = clamp-IsFilled _ (apply_env_overrides-IsFilled env before h) in
      subst IsUsable {x = last} (ground arith) (record {
        output = full.output;
        address = full.address;
        provider = full.provider;
        ffmpeg = full.ffmpeg;
        sample = positive-IsAtLeast last.verification.sample_duration_seconds full.sample;
        confidence = in_range last.verification.min_confidence full.confidence;
        similarity = in_range last.verification.min_similarity full.similarity;
        database = given;
        circuit =
            clamped-IsAtLeast
              (apply_env_overrides parse_float env before).api.circuit_open_duration;
      })

  decoded-IsUsable :
      (env : Environment) (o : Option Config) (cfg : Config)
      → decoded parse_float env o ≡ loaded cfg
      → IsUsable cfg
  unfolding finish
  decoded-IsUsable env none cfg e = absurd (cc)
  decoded-IsUsable env (some given) cfg e =
      finish-IsUsable env (reapply_defaults (defaults env) given) cfg
        (reapply_defaults-IsFilled (defaults env) given (defaults-IsFilled env)) e

  read_file-IsUsable :
      (env : Environment) (st : Stat) (cfg : Config)
      → read_file parse_float env st ≡ loaded cfg
      → IsUsable cfg
  unfolding read_file
  read_file-IsUsable env missing cfg e =
      finish-IsUsable env (defaults env) cfg (defaults-IsFilled env) e
  read_file-IsUsable env stat_failed cfg e = absurd (cc)
  read_file-IsUsable env (present decode) cfg e = decoded-IsUsable env (decode (defaults env)) cfg e

  -- Whatever the file and the environment hold, a configuration that Load returns has a database path,
  -- an output directory, a server address, a primary provider and an ffmpeg path that are not empty, a
  -- sample duration of at least 1, thresholds each of which is above 0 and at most 1 or else is NaN, and
  -- a circuit-open duration of at least 300 seconds.
  pub load-IsUsable :
      (env : Environment) (path : String) (cfg : Config)
      → load parse_float env path ≡ loaded cfg
      → IsUsable cfg
  unfolding load
  load-IsUsable env path cfg e =
      let file = or_text path (xdg_config_path env "mxlrcgo-svc" "config.toml") in
      elim (Bool-cases (text_eq file "")) [
        | inl none_given ↦
            finish-IsUsable env (defaults env) cfg (defaults-IsFilled env) (ground arith)
        | inr given ↦ read_file-IsUsable env (env.stat file) cfg (ground arith)
      ]
