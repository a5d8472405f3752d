-- ===== src/Verification.antt =====
-- internal/verification/verification.go: the comparison of a transcript with the lyrics. The tokens
-- stand on NormalizeKey and on the Unicode classes of letters and numbers, which are parameters, as
-- are ffmpeg, the transcription service and the comparison of a quotient with a float64.
use Prim.Native.Char.{code}
use Prim.Native.String.{String, ◌++◌, len}
use mxlrc_go.Common.{
  ℕ, Bool, true, false, not, ltb, ◌==◌, List, [], ◌∷◌, Option, none, some, text_eq, any,
  count_where, length, ◌||◌, if◌then◌else◌, refl, inl, inr, arith, ◌∙◌, ◌≡◌, zero, suc,
}
use mxlrc_go.Models.{Song, Lines}
use mxlrc_go.Auth.Text.{trim_space}
use mxlrc_go.Strings.Splitting.{has_suffix}
use mxlrc_go.Config.Numbers.{ℤ, pos, negsuc}
pub mod Scores

unfoldable pub clamp_sample_duration : ℤ → ℕ
clamp_sample_duration (negsuc n) = 30
clamp_sample_duration (pos n) = if ltb n 30 then 30 else if ltb 60 n then 60 else n

abbrev unless_last : Prim.Native.Char.Char → String → String
unless_last c rest =
    if text_eq rest "" then (if code c == 47 then "" else String.◌∷◌ c "") else String.◌∷◌ c rest

-- strings.TrimRight of "/"
unfoldable pub trim_slashes : String → String
trim_slashes String.[] = ""
trim_slashes (String.◌∷◌ c s) = unless_last c (trim_slashes s)

unfoldable pub transcription_url : String → String
unfolding trim_slashes has_suffix
transcription_url base =
    let url = trim_slashes base in
    if has_suffix url "/v1/audio/transcriptions"
    then url
    else if has_suffix url "/v1"
    then url ++ "/audio/transcriptions"
    else url ++ "/v1/audio/transcriptions"

abbrev after_space : String → String → String
after_space before text = if text_eq before "" then text else before ++ (" " ++ text)

-- The loop over the lines; `b` is what the builder holds.
unfoldable pub lines_text : String → List Lines → String
unfolding trim_space
lines_text b [] = b
lines_text b (l ∷ ls) =
    lines_text (if text_eq (trim_space l.text) "" then b else after_space b (trim_space l.text)) ls

unfoldable pub song_text : Song → String
unfolding lines_text trim_space
song_text song =
    let text = lines_text "" song.subtitles.lines in
    if text_eq text "" then trim_space song.lyrics.lyrics_body else text

-- A float64 quotient of two counts.
pub record Score : Type 0 where
  pub matches : ℕ
  pub total : ℕ

abbrev add_token : String → List String → List String
add_token token tokens =
    if text_eq token ""
    then tokens
    else if any (text_eq token) tokens
    then tokens
    else token ∷ tokens

abbrev pub overlap : List String → List String → Score
overlap ts ls =
    if (length ts == 0) || (length ls == 0)
    then record { matches = 0; total = 1 }
    else record { matches = count_where (λ t. any (text_eq t) ls) ts; total = length ts }

module _ (is_word : ℕ → Bool) (normalize_key : String → String) where
  -- FieldsFunc into a set; `field` is the field that is being read.
  unfoldable pub collect_tokens : String → List String → String → List String
  collect_tokens field tokens String.[] = add_token field tokens
  collect_tokens field tokens (String.◌∷◌ c s) =
      let longer = collect_tokens (field ++ String.◌∷◌ c "") tokens s in
      let next = collect_tokens "" (add_token field tokens) s in
      elim (is_word (code c)) [ true ↦ longer | false ↦ next ]

  unfoldable pub token_set : String → List String
  unfolding collect_tokens
  token_set s = collect_tokens "" [] (normalize_key s)

  unfoldable pub similarity : String → String → Score
  unfolding token_set
  similarity transcript lyrics = overlap (token_set transcript) (token_set lyrics)

-- Result
pub record Verdict : Type 0 where
  pub accepted : Bool
  pub score : Score
  pub transcript : String

-- What a verification calls, over a state W: the sample that ffmpeg cuts, the transcript of it (trimmed
-- and not empty), the removal of the sample; and `reaches`, the comparison of the score with the
-- configured minimum.
pub record Tools (W : Type 0) : Type 0 where
  pub sample : String → ℕ → W → Option String × W
  pub transcribe : String → W → Option String × W
  pub remove : String → W → W
  pub reaches : Score → Bool

pub data VerifyError : Type 0 where
  no_audio_path no_lyrics_text sample_failed transcription_failed : VerifyError

pub data Outcome : Type 0 where
  verified : Verdict → Outcome
  failed : VerifyError → Outcome

module _ {W : Type 0} (tools : Tools W) (is_word : ℕ → Bool) (normalize_key : String → String)
    (duration : ℤ) where
  abbrev judged : String → String → String → Option String × W → Outcome × W
  judged path lyrics audio (none, w) = (failed transcription_failed, tools.remove path w)
  judged path lyrics audio (some transcript, w) =
      let score = similarity is_word normalize_key transcript lyrics in
      (
        verified
            (record { accepted = tools.reaches score; score = score; transcript = transcript }),
        tools.remove path w,
      )

  abbrev sampled : String → String → Option String × W → Outcome × W
  sampled lyrics audio (none, w) = (failed sample_failed, w)
  sampled lyrics audio (some path, w) = judged path lyrics audio (tools.transcribe path w)

  -- Verify
  unfoldable pub verify : String → Song → W → Outcome × W
  unfolding similarity song_text clamp_sample_duration trim_space
  verify audio song w =
      let lyrics = song_text song in
      let heard = sampled lyrics audio (tools.sample audio (clamp_sample_duration duration) w) in
      if text_eq (trim_space audio) ""
      then (failed no_audio_path, w)
      else if text_eq lyrics ""
      then (failed no_lyrics_text, w)
      else heard
