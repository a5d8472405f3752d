-- ===== src/Scanner/Walking.antt =====
-- ScanLibrary (internal/scanner/scanner.go). The file system and the tag reader are parameters, and so
-- is whether the context has ended when the scan comes to a path.
use Prim.Native.String.{String, ◌++◌, compare}
use text.Mathlib.Text.{is_le}
use mxlrc_go.Common.{
  ℕ, zero, suc, Bool, ◌&&◌, ◌||◌, not, List, [], ◌∷◌, Option, none, some, text_eq, any,
  if◌then◌else◌,
}
use mxlrc_go.Common.{◌++◌ as append}
use mxlrc_go.Common.Sorting.{order_by}
use mxlrc_go.Models.{ScanResult, known_status}
use mxlrc_go.Store.Tables.{Status, pending}
use mxlrc_go.Strings.Splitting.{to_lower, trim_suffix}
use mxlrc_go.Strings.Paths.{ext, join_path}
use mxlrc_go.Config.Numbers.{ℤ, pos, negsuc}

pub record ScanOptions : Type 0 where
  pub update : Bool
  pub upgrade : Bool
  pub max_depth : ℤ
  pub bfs : Bool

pub record Entry : Type 0 where
  pub name : String
  pub is_dir : Bool

-- ReadDir, whether Stat finds a path, the artist and title of a file that opens and has tags, and
-- whether ctx.Err() is not nil before a directory is read or an entry is looked at.
pub record Disk : Type 0 where
  pub read_dir : String → Option (List Entry)
  pub exists : String → Bool
  pub read_tags : String → Option (String × String)
  pub context_ended : String → Bool

pub data ScanError : Type 0 where
  canceled : ScanError
  unreadable : (dir : String) → ScanError

pub data Scanned : Type 0 where
  scanned : List (ScanResult Status) → Scanned
  failed : ScanError → Scanned

abbrev pub supported_file_types : List String
supported_file_types = ".mp3" ∷ ".m4a" ∷ ".m4b" ∷ ".m4p" ∷ ".alac" ∷ ".flac" ∷ ".ogg" ∷ ".dsf" ∷ []

-- The comparison of sort.Slice; names differ within a directory.
unfoldable pub entry_before : (bfs : Bool) → Entry → Entry → Bool
entry_before bfs a b =
    if a.is_dir
    then if b.is_dir then is_le (compare a.name b.name) else not bfs
    else if b.is_dir
    then bfs
    else is_le (compare a.name b.name)

unfoldable pub extension : String → String
unfolding ext to_lower
extension name = to_lower (ext name)

unfoldable pub stem : String → String
unfolding ext trim_suffix
stem name = trim_suffix name (ext name)

unfoldable pub found_file : String → String → String × String → ScanResult Status
unfolding stem join_path
found_file dir name (artist, title) = record {
  id = 0;
  library_id = 0;
  file_path = join_path (dir ∷ name ∷ []);
  track = record {
    track_name = title;
    artist_name = artist;
    album_name = "";
    track_length = 0;
    instrumental = 0;
    has_lyrics = 0;
    has_subtitles = 0;
  };
  outdir = dir;
  filename = stem name ++ ".lrc";
  status = known_status pending;
  created_at = 0;
}

module _ (disk : Disk) (opts : ScanOptions) where
  abbrev pub sidecar : String → String → String → Bool
  sidecar dir name suffix = disk.exists (join_path (dir ∷ (stem name ++ suffix) ∷ []))

  -- A file that the switches before the tag reader let through.
  unfoldable pub is_eligible : String → String → Bool
  unfolding extension stem join_path
  is_eligible dir name =
      let lrc = sidecar dir name ".lrc" in
      let txt = sidecar dir name ".txt" in
      not (text_eq (extension name) ".lrc" || text_eq (extension name) ".txt")
      && not (lrc && not (opts.update))
      && not (txt && not (opts.upgrade) && not (opts.update) && not lrc)
      && any (text_eq (extension name)) supported_file_types

  abbrev pub tagged : String → String → Option (String × String) → List (ScanResult Status)
  tagged dir name none = []
  tagged dir name (some tags) = found_file dir name tags ∷ []

  unfoldable pub scan_file : String → String → List (ScanResult Status)
  unfolding is_eligible found_file join_path
  scan_file dir name =
      let found = tagged dir name (disk.read_tags (join_path (dir ∷ name ∷ []))) in
      if is_eligible dir name then found else []

  abbrev pub join_results : Scanned → Scanned → Scanned
  join_results (failed e) rest = failed e
  join_results (scanned rs) (failed e) = failed e
  join_results (scanned rs) (scanned rs') = scanned (append rs rs')

  abbrev pub unless_ended : String → Scanned → Scanned
  unless_ended path rest = if disk.context_ended path then failed canceled else rest

  -- The loop over the entries; `deeper` scans a directory, or passes over it at the depth limit.
  unfoldable pub scan_entries : (deeper : String → Scanned) → String → List Entry → Scanned
  unfolding scan_file join_path
  scan_entries deeper dir [] = scanned []
  scan_entries deeper dir (e ∷ es) =
      let path = join_path (dir ∷ e.name ∷ []) in
      let below = deeper path in
      let here = scanned (scan_file dir e.name) in
      let rest = scan_entries deeper dir es in
      unless_ended path (join_results (if e.is_dir then below else here) rest)

  abbrev pub read_entries : (deeper : String → Scanned) → String → Option (List Entry) → Scanned
  read_entries deeper dir none = failed (unreadable dir)
  read_entries deeper dir (some es) = scan_entries deeper dir (order_by (entry_before opts.bfs) es)

  -- `left` is how many levels below this directory are scanned: MaxDepth - depth.
  unfoldable pub scan_dir : (left : ℕ) → String → Scanned
  unfolding scan_entries entry_before
  scan_dir zero dir = unless_ended dir (read_entries (λ sub. scanned []) dir (disk.read_dir dir))
  scan_dir (suc left) dir = unless_ended dir (read_entries (scan_dir left) dir (disk.read_dir dir))

  abbrev pub levels : ℤ → ℕ
  levels (pos n) = n
  levels (negsuc n) = 0

  unfoldable pub scan_library : String → Scanned
  unfolding scan_dir
  scan_library root = scan_dir (levels opts.max_depth) root
