-- ===== src/Scanner/Inputs.antt =====
-- The inputs of a one-shot run (internal/scanner/scanner.go). The CSV reader, the lines of a file and
-- what Stat says are parameters.
use Prim.Native.String.{String}
use mxlrc_go.Common.{false, List, [], ◌∷◌, Option, none, some}
use mxlrc_go.Models
use mxlrc_go.Models.{Track, ScanResult}
use mxlrc_go.Store.Tables.{Status}
use mxlrc_go.Auth.Text.{trim_space}
use mxlrc_go.Queue.Memory.{InputsQueue, push}
use mxlrc_go.Scanner.Walking.{ScanOptions, Disk, Scanned, scanned, failed, scan_library}

abbrev pub plain_track : String → String → Track
plain_track artist title = record {
  track_name = title;
  artist_name = artist;
  album_name = "";
  track_length = 0;
  instrumental = 0;
  has_lyrics = 0;
  has_subtitles = 0;
}

abbrev input_to : Track → String → Models.Inputs
input_to track outdir = record {
  track = track;
  outdir = outdir;
  filename = "";
  source_path = "";
  output_paths = [];
  scan_result_id = 0;
}

-- `read_record` is csv.Reader.Read on one text.
module _ (read_record : String → Option (List String)) where
  abbrev pub two_fields : Option (List String) → Option Track
  two_fields (some (artist ∷ title ∷ [])) =
      some (plain_track (trim_space artist) (trim_space title))
  two_fields _ = none

  unfoldable pub assert_input : String → Option Track
  unfolding trim_space
  assert_input song = two_fields (read_record song)

  abbrev pub push_track : String → Option Track → InputsQueue → InputsQueue
  push_track outdir none q = q
  push_track outdir (some track) q = push q (input_to track outdir)

  unfoldable pub get_song_multi : List String → String → InputsQueue → InputsQueue
  unfolding assert_input push
  get_song_multi [] outdir q = q
  get_song_multi (song ∷ songs) outdir q =
      get_song_multi songs outdir (push_track outdir (assert_input song) q)

-- GetSongDir
unfoldable pub push_results : List (ScanResult Status) → InputsQueue → InputsQueue
unfolding push
push_results [] q = q
push_results (res ∷ results) q = push_results results (
    push q (record {
      track = res.track;
      outdir = res.outdir;
      filename = res.filename;
      source_path = res.file_path;
      output_paths = [];
      scan_result_id = 0;
    }))

abbrev pushed : Scanned → InputsQueue → Option InputsQueue
pushed (failed e) q = none
pushed (scanned results) q = some (push_results results q)

-- The scan's context is the background context, which never ends.
unfoldable pub get_song_dir : Disk → ScanOptions → String → InputsQueue → Option InputsQueue
unfolding scan_library push_results
get_song_dir disk opts dir q =
    pushed (scan_library (record disk { context_ended = λ path. false }) opts dir) q

pub data InputStat : Type 0 where
  not_there stat_refused is_file is_directory : InputStat

pub data InputMode : Type 0 where
  text dir cli : InputMode

pub data ParsedInput : Type 0 where
  parsed_input : InputMode → InputsQueue → ParsedInput
  input_error : ParsedInput

module _ (read_record : String → Option (List String)) (read_lines : String → Option (List String))
    (stat : String → InputStat) (disk : Disk) (opts : ScanOptions) where
  abbrev from_lines : String → InputsQueue → Option (List String) → ParsedInput
  from_lines outdir q none = input_error
  from_lines outdir q (some lines) = parsed_input text (get_song_multi read_record lines outdir q)

  abbrev from_dir : Option InputsQueue → ParsedInput
  from_dir none = input_error
  from_dir (some q) = parsed_input dir q

  unfoldable pub parse_one : String → String → InputsQueue → InputStat → ParsedInput
  unfolding get_song_multi get_song_dir
  parse_one song outdir q is_file = from_lines outdir q (read_lines song)
  parse_one song outdir q is_directory = from_dir (get_song_dir disk opts song q)
  parse_one song outdir q stat_refused = input_error
  parse_one song outdir q not_there =
      parsed_input cli (get_song_multi read_record (song ∷ []) outdir q)

  unfoldable pub parse_input : List String → String → InputsQueue → ParsedInput
  unfolding parse_one get_song_multi
  parse_input [] outdir q = parsed_input cli (get_song_multi read_record [] outdir q)
  parse_input (song ∷ []) outdir q = parse_one song outdir q (stat song)
  parse_input (a ∷ b ∷ songs) outdir q =
      parsed_input cli (get_song_multi read_record (a ∷ b ∷ songs) outdir q)
