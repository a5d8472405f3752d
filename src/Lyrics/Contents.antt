-- ===== src/Lyrics/Contents.antt =====
-- What a song is written as, and under which name (internal/lyrics/writer.go).
use Prim.Native.String.{String, ◌++◌}
use mxlrc_go.Common.{
  ℕ, ◌/◌, ◌%◌, Bool, true, false, ltb, ◌==◌, not, List, [], ◌∷◌, Option, none, some, text_eq,
  if◌then◌else◌,
}
use mxlrc_go.Models.{Song, Lines, Track}
use mxlrc_go.Config.Numbers.{itoa, pos}
use mxlrc_go.Strings.Splitting.{trim_suffix}
use mxlrc_go.Strings.Paths.{ext}
use mxlrc_go.Lyrics.Slugs.{slugify}

-- %02d
unfoldable pub two_digits : ℕ → String
unfolding itoa
two_digits n = if ltb n 10 then "0" ++ itoa (pos n) else itoa (pos n)

abbrev line_text : String → String
line_text s = if text_eq s "" then "♪" else s

unfoldable pub synced_lines : List Lines → String
unfolding two_digits
synced_lines [] = ""
synced_lines (l ∷ ls) =
    "["
    ++ (two_digits l.time.minutes
        ++ (":"
            ++ (two_digits l.time.seconds
                ++ ("."
                    ++ (two_digits l.time.hundredths
                        ++ ("]" ++ (line_text l.text ++ ("\n" ++ synced_lines ls))))))))

abbrev pub instrumental_line : String
instrumental_line = "[00:00.00]♪ Instrumental ♪\n"

abbrev album_tag : String → String
album_tag album = if text_eq album "" then "" else "[al:" ++ (album ++ "]\n")

abbrev length_tag : ℕ → String
length_tag n =
    if n == 0
    then ""
    else "[length:" ++ (two_digits (n / 60) ++ (":" ++ (two_digits (n % 60) ++ "]\n")))

unfoldable pub tags : Track → String
unfolding two_digits
tags t =
    "[by:mxlrcgo-svc]\n[ar:"
    ++ (t.artist_name
        ++ ("]\n[ti:"
            ++ (t.track_name ++ ("]\n" ++ (album_tag t.album_name ++ length_tag t.track_length)))))

-- The text that is written, and whether it has tags, which makes it an .lrc file.
pub record Content : Type 0 where
  pub text : String
  pub write_tags : Bool

-- The eligibility gate; none is the error that there is nothing to save.
unfoldable pub content_of : Song → Option Content
unfolding tags synced_lines
content_of song = elim song.subtitles.lines [
  | l ∷ ls ↦ some (record { text = tags song.track ++ synced_lines (l ∷ ls); write_tags = true })
  | [] ↦
      if not (text_eq song.lyrics.lyrics_body "")
      then some (record { text = song.lyrics.lyrics_body; write_tags = false })
      else if song.track.instrumental == 1
      then some (record { text = tags song.track ++ instrumental_line; write_tags = true })
      else none
]

module _ (nfkc : String → String) where
  unfoldable pub file_name : Song → String → Bool → String
  unfolding slugify ext trim_suffix
  file_name song filename write_tags =
      let slug = slugify nfkc (song.track.artist_name ++ (" - " ++ song.track.track_name)) in
      if not (text_eq filename "")
      then if write_tags then filename else trim_suffix filename (ext filename) ++ ".txt"
      else if write_tags
      then slug ++ ".lrc"
      else slug ++ ".txt"

-- The sidecar of the other format that a file replaces.
unfoldable pub stale_path : String → Option String
unfolding ext trim_suffix
stale_path fp =
    if text_eq (ext fp) ".lrc"
    then some (trim_suffix fp ".lrc" ++ ".txt")
    else if text_eq (ext fp) ".txt"
    then some (trim_suffix fp ".txt" ++ ".lrc")
    else none
