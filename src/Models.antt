-- ===== src/Models.antt =====
-- internal/models/models.go. Integers of the API and row ids are never negative, so they are ℕ;
-- a float64 stands as its bit pattern, since nothing computes with it.
use mxlrc_go.Common.{ℕ, String, List}

pub record Track : Type 0 where
  pub track_name : String
  pub artist_name : String
  pub album_name : String
  pub track_length : ℕ
  pub instrumental : ℕ
  pub has_lyrics : ℕ
  pub has_subtitles : ℕ

pub record Lyrics : Type 0 where
  pub lyrics_body : String

pub record Time : Type 0 where
  pub total : ℕ  -- the bits of a float64
  pub minutes : ℕ
  pub seconds : ℕ
  pub hundredths : ℕ

pub record Lines : Type 0 where
  pub text : String
  pub time : Time

pub record Synced : Type 0 where
  pub lines : List Lines

pub record Song : Type 0 where
  pub track : Track
  pub lyrics : Lyrics
  pub subtitles : Synced

pub record OutputPath : Type 0 where
  pub outdir : String
  pub filename : String

-- A `scan_result_id` of 0 means that the item did not come from a library scan.
pub record Inputs : Type 0 where
  pub track : Track
  pub outdir : String
  pub filename : String
  pub source_path : String
  pub output_paths : List OutputPath
  pub scan_result_id : ℕ

pub record Library : Type 0 where
  pub id : ℕ
  pub path : String
  pub name : String
  pub created_at : ℕ
  pub updated_at : ℕ

-- A Status is one of the four texts that the tables accept, empty, or another text.
pub data StatusText (S : Type 0) : Type 0 where
  no_status other_status : StatusText S
  known_status : S → StatusText S

pub record ScanResult (S : Type 0) : Type 0 where
  pub id : ℕ
  pub library_id : ℕ
  pub file_path : String
  pub track : Track
  pub outdir : String
  pub filename : String
  pub status : StatusText S
  pub created_at : ℕ
