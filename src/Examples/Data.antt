-- ===== src/Examples/Data.antt =====
-- The inputs of the runs.
use mxlrc_go.Common.{ℕ, String, List, [], ◌∷◌, none, refl, arith}
use mxlrc_go.Models.{Track, Inputs, Song}
use mxlrc_go.Store.Tables.{Db, WorkRow, ScanRow, Link, encoded, pending, processing, failed, Status}
use mxlrc_go.Store.Session.{Session}
use mxlrc_go.Store.Valid.{IsValid, RowOk}

abbrev pub key_of : String → String
key_of s = s

abbrev pub track_of : String → String → Track
track_of artist title = record {
  track_name = title;
  artist_name = artist;
  album_name = "";
  track_length = 0;
  instrumental = 0;
  has_lyrics = 0;
  has_subtitles = 0;
}

abbrev pub inputs_of : String → String → ℕ → Inputs
inputs_of artist title scan = record {
  track = track_of artist title;
  outdir = "/music";
  filename = "song.lrc";
  source_path = "/music/song.flac";
  output_paths = [];
  scan_result_id = scan;
}

abbrev pub song_of : Track → Song
song_of t = record {
  track = t;
  lyrics = record { lyrics_body = "la la" };
  subtitles = record { lines = [] };
}

abbrev pub row_of : ℕ → String → Status → ℕ → ℕ → WorkRow
row_of id title status priority attempts = record {
  id = id;
  artist = "Abba";
  title = title;
  artist_key = "Abba";
  title_key = title;
  outdir = "/music";
  filename = "song.lrc";
  source_path = "";
  output_paths = encoded (record { outdir = "/music"; filename = "song.lrc" } ∷ []);
  scan_result_id = none;
  status = status;
  priority = priority;
  attempts = attempts;
  next_attempt_at = 0;
  last_error = "";
  created_at = 0;
  updated_at = 0;
  completed_at = none;
}

abbrev pub scan_of : ℕ → Status → ScanRow
scan_of id status = record {
  id = id;
  library_id = 1;
  file_path = "/music/song.flac";
  artist = "Abba";
  title = "Waterloo";
  outdir = "/music";
  filename = "song.lrc";
  status = status;
  created_at = 0;
}

abbrev pub db_of : List WorkRow → ℕ → List Link → Db
db_of work seq links = record {
  work = work;
  work_seq = seq;
  links = links;
  scans =
      scan_of 7 processing ∷ record (scan_of 8 pending) { file_path = "/music/other.flac" } ∷ [];
  scan_seq = 9;
  cache = [];
  cache_seq = 1;
  libraries =
      (record { id = 1; path = "/music"; name = "Music"; created_at = 0; updated_at = 0 }) ∷ [];
  library_seq = 2;
}

-- A pending row of low priority, one that is being processed, one that failed and has priority.
abbrev pub waiting : WorkRow
waiting = row_of 1 "Waterloo" pending 0 0

abbrev pub owned : WorkRow
owned = row_of 2 "Fernando" processing 0 0

abbrev pub retried : WorkRow
retried = row_of 3 "Money" failed 10 1

abbrev pub mixed_db : Db
mixed_db =
    db_of (waiting ∷ owned ∷ retried ∷ []) 4 (record { work_queue_id = 2; scan_result_id = 7 } ∷ [])

abbrev pub mixed : Session Db
mixed = record { db = mixed_db; faults = [] }

pub mixed-IsValid : IsValid mixed_db
mixed-IsValid = record {
  rows = (ok_row, (ok_row', (ok_row'', tt)));
  below = (omega arith, (omega arith, (omega arith, tt)));
  apart = (((omega arith, refl), ((omega arith, refl), tt)), (((omega arith, refl), tt), (tt, tt)));
}
  where
    ok_row : RowOk waiting
    ok_row = record { completed = refl; quiet = λ _. refl; tried = λ h. absurd (cc) }

    ok_row' : RowOk owned
    ok_row' = record { completed = refl; quiet = λ _. refl; tried = λ h. absurd (cc) }

    ok_row'' : RowOk retried
    ok_row'' = record { completed = refl; quiet = λ _. refl; tried = λ _. omega arith }
