-- ===== src/Commands/Assigning.antt =====
-- A config assignment and the values that are read after it (internal/commands/commands.go).
use Prim.Native.String.{String}
use mxlrc_go.Common.{
  subst, leb, ◌==◌, ap, text_eq, if◌then◌else◌, sym, Bool-cases, ℕ, Bool, List, Option, refl, none,
  some, inl, inr, [], ◌∷◌, arith, ◌≡◌,
}
use mxlrc_go.Strings.Splitting.{join}
use mxlrc_go.Config.Numbers.{negsuc, ℤ, pos, atoi, itoa, parse_bool, out_of_unit}
use mxlrc_go.Config.Data.{Config}
use mxlrc_go.Config.Loading.{split_csv}
use mxlrc_go.Commands.Settings.{
  read, assign_to, find_key, config_value, set_config_value, refused_value, number_from, flag,
  ratio, format_bool, ConfigKey, value_of, assign, Assigned, assigned, unknown_key, all_keys,
  api_token, api_cooldown, api_circuit_open_duration, output_dir, db_path, server_addr,
  server_webhook_api_keys, server_scan_interval_seconds, server_work_interval_seconds,
  providers_primary, providers_disabled, verification_enabled, verification_whisper_url,
  verification_ffmpeg_path, verification_sample_duration_seconds, verification_min_confidence,
  verification_min_similarity,
}
use mxlrc_go.Auth.Text.{trim_space}

module _ (format_float : ℕ → String) (parse_float : String → Option ℕ) where
  -- The text that shows what `v` has been read as.
  unfoldable pub Shown : ConfigKey → String → String → Type 0
  Shown api_token v shown = shown ≡ v
  Shown api_cooldown v shown = (n : ℕ) × (atoi v ≡ some (pos n)) × (shown ≡ itoa (pos n))
  Shown api_circuit_open_duration v shown =
      (n : ℕ) × (atoi v ≡ some (pos n)) × (shown ≡ itoa (pos n))
  Shown output_dir v shown = shown ≡ v
  Shown db_path v shown = shown ≡ v
  Shown server_addr v shown = shown ≡ v
  Shown server_webhook_api_keys v shown = shown ≡ join "," (split_csv v)
  Shown server_scan_interval_seconds v shown =
      (n : ℕ) × (atoi v ≡ some (pos n)) × (shown ≡ itoa (pos n))
  Shown server_work_interval_seconds v shown =
      (n : ℕ) × (atoi v ≡ some (pos n)) × (shown ≡ itoa (pos n))
  Shown providers_primary v shown = shown ≡ v
  Shown providers_disabled v shown = shown ≡ join "," (split_csv v)
  Shown verification_enabled v shown =
      (b : Bool) × (parse_bool v ≡ some b) × (shown ≡ format_bool b)
  Shown verification_whisper_url v shown = shown ≡ v
  Shown verification_ffmpeg_path v shown = shown ≡ v
  Shown verification_sample_duration_seconds v shown =
      (n : ℕ) × (atoi v ≡ some (pos n)) × (shown ≡ itoa (pos n))
  Shown verification_min_confidence v shown =
      (b : ℕ) × (parse_float v ≡ some b) × (shown ≡ format_float b)
  Shown verification_min_similarity v shown =
      (b : ℕ) × (parse_float v ≡ some b) × (shown ≡ format_float b)

  abbrev position : ConfigKey → ℕ
  position api_token = 0
  position api_cooldown = 1
  position api_circuit_open_duration = 2
  position output_dir = 3
  position db_path = 4
  position server_addr = 5
  position server_webhook_api_keys = 6
  position server_scan_interval_seconds = 7
  position server_work_interval_seconds = 8
  position providers_primary = 9
  position providers_disabled = 10
  position verification_enabled = 11
  position verification_whisper_url = 12
  position verification_ffmpeg_path = 13
  position verification_sample_duration_seconds = 14
  position verification_min_confidence = 15
  position verification_min_similarity = 16

  -- The values of the keys other than `k`.
  abbrev other_values : ConfigKey → Config → List ConfigKey → List String
  other_values k cfg [] = []
  other_values k cfg (k' ∷ ks) =
      if position k' == position k
      then other_values k cfg ks
      else value_of format_float cfg k' ∷ other_values k cfg ks

  abbrev pub others : ConfigKey → Config → List String
  others k cfg = other_values k cfg all_keys

  -- The configuration after an assignment, which is the old one where it is refused.
  abbrev after : Config → Assigned → Config
  after cfg (assigned cfg') = cfg'
  after cfg (refused_value k) = cfg
  after cfg unknown_key = cfg

  -- What holds of a configuration and of every accepted assignment to it.
  module _ (k : ConfigKey) (cfg : Config) (P : Config → Type 0) (old : P cfg) where
    number_from-P :
        (least : ℕ) (f : ℕ → Config) (o : Option ℤ)
        → ((n : ℕ) → P (f n))
        → P (after cfg (number_from least k f o))
    number_from-P least f none h = old
    number_from-P least f (some (negsuc n)) h = old
    number_from-P least f (some (pos n)) h = elim (Bool-cases (leb least n)) [
      | inl fits ↦ rw fits (h n)
      | inr small ↦ rw small old
    ]

    flag-P :
        (f : Bool → Config) (o : Option Bool) → ((b : Bool) → P (f b)) → P (after cfg (flag k f o))
    flag-P f none h = old
    flag-P f (some b) h = h b

    ratio-P : (f : ℕ → Config) (o : Option ℕ) → ((b : ℕ) → P (f b)) → P (after cfg (ratio k f o))
    ratio-P f none h = old
    ratio-P f (some b) h = elim (Bool-cases (out_of_unit b)) [
      | inl out ↦ rw out old
      | inr in_range ↦ rw in_range (h b)
    ]

  assign-others :
      (cfg : Config) (v : String) (k : ConfigKey)
      → others k (after cfg (assign parse_float cfg v k)) ≡ others k cfg
  unfolding assign value_of
  assign-others cfg v api_token = refl
  assign-others cfg v api_cooldown =
      number_from-P api_cooldown cfg (λ c. others api_cooldown c ≡ others api_cooldown cfg) refl _ _
        (atoi v) (λ n. refl)
  assign-others cfg v api_circuit_open_duration =
      number_from-P api_circuit_open_duration cfg
        (λ c. others api_circuit_open_duration c ≡ others api_circuit_open_duration cfg) refl _ _
        (atoi v) (λ n. refl)
  assign-others cfg v output_dir = refl
  assign-others cfg v db_path = refl
  assign-others cfg v server_addr = refl
  assign-others cfg v server_webhook_api_keys = refl
  assign-others cfg v server_scan_interval_seconds =
      number_from-P server_scan_interval_seconds cfg
        (λ c. others server_scan_interval_seconds c ≡ others server_scan_interval_seconds cfg) refl
        _ _ (atoi v) (λ n. refl)
  assign-others cfg v server_work_interval_seconds =
      number_from-P server_work_interval_seconds cfg
        (λ c. others server_work_interval_seconds c ≡ others server_work_interval_seconds cfg) refl
        _ _ (atoi v) (λ n. refl)
  assign-others cfg v providers_primary = refl
  assign-others cfg v providers_disabled = refl
  assign-others cfg v verification_enabled =
      flag-P verification_enabled cfg
        (λ c. others verification_enabled c ≡ others verification_enabled cfg) refl _ (parse_bool v)
        (λ b. refl)
  assign-others cfg v verification_whisper_url = refl
  assign-others cfg v verification_ffmpeg_path = elim (Bool-cases (text_eq (trim_space v) "")) [
    | inl blank ↦ rw blank refl
    | inr given ↦ rw given refl
  ]
  assign-others cfg v verification_sample_duration_seconds =
      number_from-P verification_sample_duration_seconds cfg
        (λ c.
          others verification_sample_duration_seconds c
          ≡ others verification_sample_duration_seconds cfg)
        refl _ _ (atoi v) (λ n. refl)
  assign-others cfg v verification_min_confidence =
      ratio-P verification_min_confidence cfg
        (λ c. others verification_min_confidence c ≡ others verification_min_confidence cfg) refl _
        (parse_float v) (λ b. refl)
  assign-others cfg v verification_min_similarity =
      ratio-P verification_min_similarity cfg
        (λ c. others verification_min_similarity c ≡ others verification_min_similarity cfg) refl _
        (parse_float v) (λ b. refl)

  module _ (k : ConfigKey) (cfg' : Config) where
    number_from-eq :
        (least : ℕ) (f : ℕ → Config) (o : Option ℤ)
        → number_from least k f o ≡ assigned cfg'
        → (n : ℕ) × (o ≡ some (pos n)) × (f n ≡ cfg')
    number_from-eq least f none h = absurd (cc)
    number_from-eq least f (some (negsuc n)) h = absurd (cc)
    number_from-eq least f (some (pos n)) h = (n, refl, ground arith)

    flag-eq :
        (f : Bool → Config) (o : Option Bool)
        → flag k f o ≡ assigned cfg'
        → (b : Bool) × (o ≡ some b) × (f b ≡ cfg')
    flag-eq f none h = absurd (cc)
    flag-eq f (some b) h = (b, refl, cc)

    ratio-eq :
        (f : ℕ → Config) (o : Option ℕ)
        → ratio k f o ≡ assigned cfg'
        → (b : ℕ) × (o ≡ some b) × (f b ≡ cfg')
    ratio-eq f none h = absurd (cc)
    ratio-eq f (some b) h = (b, refl, ground arith)

  assign-Shown :
      (cfg cfg' : Config) (v : String) (k : ConfigKey)
      → assign parse_float cfg v k ≡ assigned cfg'
      → Shown k v (value_of format_float cfg' k)
  unfolding assign value_of Shown
  assign-Shown cfg cfg' v api_token h =
      sym (ap (λ a. value_of format_float (after cfg a) api_token) h)
  assign-Shown cfg cfg' v api_cooldown h =
      let (n, e, q) = number_from-eq api_cooldown cfg' _ _ (atoi v) h in
      (n, e, sym (ap (λ c. value_of format_float c api_cooldown) q))
  assign-Shown cfg cfg' v api_circuit_open_duration h =
      let (n, e, q) = number_from-eq api_circuit_open_duration cfg' _ _ (atoi v) h in
      (n, e, sym (ap (λ c. value_of format_float c api_circuit_open_duration) q))
  assign-Shown cfg cfg' v output_dir h =
      sym (ap (λ a. value_of format_float (after cfg a) output_dir) h)
  assign-Shown cfg cfg' v db_path h = sym (ap (λ a. value_of format_float (after cfg a) db_path) h)
  assign-Shown cfg cfg' v server_addr h =
      sym (ap (λ a. value_of format_float (after cfg a) server_addr) h)
  assign-Shown cfg cfg' v server_webhook_api_keys h =
      sym (ap (λ a. value_of format_float (after cfg a) server_webhook_api_keys) h)
  assign-Shown cfg cfg' v server_scan_interval_seconds h =
      let (n, e, q) = number_from-eq server_scan_interval_seconds cfg' _ _ (atoi v) h in
      (n, e, sym (ap (λ c. value_of format_float c server_scan_interval_seconds) q))
  assign-Shown cfg cfg' v server_work_interval_seconds h =
      let (n, e, q) = number_from-eq server_work_interval_seconds cfg' _ _ (atoi v) h in
      (n, e, sym (ap (λ c. value_of format_float c server_work_interval_seconds) q))
  assign-Shown cfg cfg' v providers_primary h =
      sym (ap (λ a. value_of format_float (after cfg a) providers_primary) h)
  assign-Shown cfg cfg' v providers_disabled h =
      sym (ap (λ a. value_of format_float (after cfg a) providers_disabled) h)
  assign-Shown cfg cfg' v verification_enabled h =
      let (n, e, q) = flag-eq verification_enabled cfg' _ (parse_bool v) h in
      (n, e, sym (ap (λ c. value_of format_float c verification_enabled) q))
  assign-Shown cfg cfg' v verification_whisper_url h =
      sym (ap (λ a. value_of format_float (after cfg a) verification_whisper_url) h)
  assign-Shown cfg cfg' v verification_ffmpeg_path h =
      elim (Bool-cases (text_eq (trim_space v) "")) [
        | inl blank ↦ absurd (ground arith)
        | inr given ↦ ground arith
      ]
  assign-Shown cfg cfg' v verification_sample_duration_seconds h =
      let (n, e, q) = number_from-eq verification_sample_duration_seconds cfg' _ _ (atoi v) h in
      (n, e, sym (ap (λ c. value_of format_float c verification_sample_duration_seconds) q))
  assign-Shown cfg cfg' v verification_min_confidence h =
      let (n, e, q) = ratio-eq verification_min_confidence cfg' _ (parse_float v) h in
      (n, e, sym (ap (λ c. value_of format_float c verification_min_confidence) q))
  assign-Shown cfg cfg' v verification_min_similarity h =
      let (n, e, q) = ratio-eq verification_min_similarity cfg' _ (parse_float v) h in
      (n, e, sym (ap (λ c. value_of format_float c verification_min_similarity) q))

  -- Both switches at the case that the key is.
  abbrev IsAssigned : Config → Config → String → Option ConfigKey → Type 0
  IsAssigned cfg cfg' v o =
      (k : ConfigKey) × (o ≡ some k)
      × (read format_float cfg' o ≡ some (value_of format_float cfg' k))
      × Shown k v (value_of format_float cfg' k)
      × (others k cfg' ≡ others k cfg)

  case-IsAssigned :
      (cfg cfg' : Config) (v : String) (o : Option ConfigKey)
      → assign_to parse_float cfg v o ≡ assigned cfg'
      → IsAssigned cfg cfg' v o
  case-IsAssigned cfg cfg' v none h = absurd (cc)
  case-IsAssigned cfg cfg' v (some k) h = (
    k,
    refl,
    refl,
    assign-Shown cfg cfg' v k h,
    subst (λ a. others k (after cfg a) ≡ others k cfg) h (assign-others cfg v k),
  )

  -- An assignment that is accepted is to a known key, whose value is afterwards the text of what the
  -- argument was read as (the argument itself, its fields, its number or its Boolean), and every other
  -- key has the value that it had.
  pub set-then-get :
      (cfg cfg' : Config) (key v : String)
      → set_config_value parse_float cfg key v ≡ assigned cfg'
      → (k : ConfigKey) × (find_key key all_keys ≡ some k)
        × (config_value format_float cfg' key ≡ some (value_of format_float cfg' k))
        × Shown k v (value_of format_float cfg' k)
        × (others k cfg' ≡ others k cfg)
  unfolding set_config_value config_value
  set-then-get cfg cfg' key v h = case-IsAssigned cfg cfg' v (find_key key all_keys) h
