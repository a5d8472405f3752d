-- ===== src/Scanner/Found.antt =====
-- A file that ScanLibrary (internal/scanner/scanner.go) may report.
use Prim.Native.String.{String, ◌++◌}
use mxlrc_go.Common.{
  any, not, ◌||◌, text_eq, ◌&&◌, Bool-cases, Bool, All, In, ℕ, List, Option, true, false, refl,
  none, some, inl, inr, [], ◌∷◌, ◌≡◌, ◌⊎◌, suc, arith,
}
use mxlrc_go.Common.Texts.{In-any}
use mxlrc_go.Models.{ScanResult, known_status}
use mxlrc_go.Store.Tables.{Status, pending}
use mxlrc_go.Strings.Splitting.{to_lower, trim_suffix}
use mxlrc_go.Strings.Paths.{ext, join_path}
use mxlrc_go.Scanner.Walking.{
  Disk, ScanOptions, Entry, found_file, is_eligible, tagged, scan_file, extension, stem,
  supported_file_types,
}

-- The second directory is the first, or lies below it, by at most so many levels.
pub data Within (disk : Disk) : ℕ → String → String → Type 0 where
  here : {n : ℕ} {dir : String} → Within disk n dir dir
  below :
      {n : ℕ} {dir sub : String} (es : List Entry) (e : Entry)
      → disk.read_dir dir ≡ some es
      → In e es
      → e.is_dir ≡ true
      → Within disk n (join_path (dir ∷ e.name ∷ [])) sub
      → Within disk (suc n) dir sub

-- The path beside a file with another suffix in place of its extension.
abbrev pub beside : String → String → String → String
beside dir name suffix = join_path (dir ∷ (trim_suffix name (ext name) ++ suffix) ∷ [])

-- A result that stands for a file of a directory within so many levels of the root.
pub record IsFound (disk : Disk) (opts : ScanOptions) (depth : ℕ) (root : String)
    (res : ScanResult Status) : Type 0 where
  pub dir : String
  pub entries : List Entry
  pub entry : Entry
  pub within : Within disk depth root dir
  pub listed : disk.read_dir dir ≡ some entries
  pub member : In entry entries
  pub file : entry.is_dir ≡ false
  pub file_path : res.file_path ≡ join_path (dir ∷ entry.name ∷ [])
  pub outdir : res.outdir ≡ dir
  pub filename : res.filename ≡ trim_suffix entry.name (ext entry.name) ++ ".lrc"
  pub tags : disk.read_tags res.file_path ≡ some (res.track.artist_name, res.track.track_name)
  pub status : res.status ≡ known_status pending
  pub supported :
      In
        (to_lower (ext entry.name))
        (".mp3" ∷ ".m4a" ∷ ".m4b" ∷ ".m4p" ∷ ".alac" ∷ ".flac" ∷ ".ogg" ∷ ".dsf" ∷ [])
  pub synced : disk.exists (beside dir entry.name ".lrc") ≡ true → opts.update ≡ true
  pub unsynced :
      disk.exists (beside dir entry.name ".txt") ≡ true
      → (opts.upgrade ≡ true)
        ⊎ ((opts.update ≡ true) ⊎ (disk.exists (beside dir entry.name ".lrc") ≡ true))

last_of : (a b : Bool) → a && b ≡ true → b ≡ true
last_of true b h = h
last_of false b h = absurd (cc)

module _ (disk : Disk) (opts : ScanOptions) where
  -- What the switches before the tag reader let through.
  is_eligible-supported :
      (dir name : String)
      → is_eligible disk opts dir name ≡ true
      → In (to_lower (ext name)) supported_file_types
  unfolding is_eligible extension stem
  is_eligible-supported dir name h =
      let lrc = disk.exists (beside dir name ".lrc") in
      let txt = disk.exists (beside dir name ".txt") in
      let suffix = to_lower (ext name) in
      In-any suffix supported_file_types (
        last_of
          (not (text_eq suffix ".lrc" || text_eq suffix ".txt")
            && not (lrc && not (opts.update))
            && not (txt && not (opts.upgrade) && not (opts.update) && not lrc))
          (any (text_eq suffix) supported_file_types) h)

  is_eligible-synced :
      (dir name : String)
      → is_eligible disk opts dir name ≡ true
      → disk.exists (beside dir name ".lrc") ≡ true
      → opts.update ≡ true
  unfolding is_eligible extension stem
  is_eligible-synced dir name h k = ground arith

  is_eligible-unsynced :
      (dir name : String)
      → is_eligible disk opts dir name ≡ true
      → disk.exists (beside dir name ".txt") ≡ true
      → (opts.upgrade ≡ true)
        ⊎ ((opts.update ≡ true) ⊎ (disk.exists (beside dir name ".lrc") ≡ true))
  unfolding is_eligible extension stem
  is_eligible-unsynced dir name h k = ground arith

  module _ (dir : String) (es : List Entry) (listed : disk.read_dir dir ≡ some es) where
    tagged-IsFound :
        (n : ℕ) (e : Entry) (o : Option (String × String))
        → In e es
        → e.is_dir ≡ false
        → is_eligible disk opts dir e.name ≡ true
        → disk.read_tags (join_path (dir ∷ e.name ∷ [])) ≡ o
        → All (IsFound disk opts n dir) (tagged disk opts dir e.name o)
    unfolding found_file stem
    tagged-IsFound n e none i f h k = tt
    tagged-IsFound n e (some tags) i f h k = (
      record {
        dir = dir;
        entries = es;
        entry = e;
        within = here;
        listed = listed;
        member = i;
        file = f;
        file_path = refl;
        outdir = refl;
        filename = refl;
        tags = k;
        status = refl;
        supported = is_eligible-supported dir e.name h;
        synced = is_eligible-synced dir e.name h;
        unsynced = is_eligible-unsynced dir e.name h;
      },
      tt,
    )

    pub scan_file-IsFound :
        (n : ℕ) (e : Entry)
        → In e es
        → e.is_dir ≡ false
        → All (IsFound disk opts n dir) (scan_file disk opts dir e.name)
    unfolding scan_file
    scan_file-IsFound n e i f = elim (Bool-cases (is_eligible disk opts dir e.name)) [
      | inl on ↦
          rw on (tagged-IsFound n e (disk.read_tags (join_path (dir ∷ e.name ∷ []))) i f on refl)
      | inr off ↦ rw off tt
    ]

    -- What is found below an entry is found below the directory.
    pub deeper-IsFound :
        (n : ℕ) (e : Entry) (res : ScanResult Status)
        → In e es
        → e.is_dir ≡ true
        → IsFound disk opts n (join_path (dir ∷ e.name ∷ [])) res
        → IsFound disk opts (suc n) dir res
    deeper-IsFound n e res i d h = record {
      dir = h.dir;
      entries = h.entries;
      entry = h.entry;
      within = below es e listed i d h.within;
      listed = h.listed;
      member = h.member;
      file = h.file;
      file_path = h.file_path;
      outdir = h.outdir;
      filename = h.filename;
      tags = h.tags;
      status = h.status;
      supported = h.supported;
      synced = h.synced;
      unsynced = h.unsynced;
    }
