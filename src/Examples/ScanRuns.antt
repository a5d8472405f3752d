-- ===== src/Examples/ScanRuns.antt =====
-- Runs of the scan repository and the library repository.
use mxlrc_go.Common.{any, false, ◌++◌, arith, ℕ, Bool, ◌≡◌, refl, [], ◌∷◌}
use mxlrc_go.Models.{ScanResult, no_status}
use mxlrc_go.Store.Tables.{Status}
use mxlrc_go.Store.Session.{exec}
use mxlrc_go.Auth.Text.{trim_space}
use mxlrc_go.Models.{Library}
use mxlrc_go.Library.{add, get, has_path}
use mxlrc_go.Library.Adding.{library_of, add-eq-ok}
use mxlrc_go.Scan.Repository.{upsert, count_by_library, clear_by_library}
use mxlrc_go.Scan.Repository.Upserting.{Recorded, upsert-Recorded}
use mxlrc_go.Scan.Repository.Clearing.{count-then-clear}
use mxlrc_go.Examples.Data.{track_of, mixed, mixed_db}

-- The file of a scan result that is being processed, found again with new tags.
abbrev found_again : ScanResult Status
found_again = record {
  id = 0;
  library_id = 1;
  file_path = "/music/song.flac";
  track = track_of "ABBA" "Waterloo (live)";
  outdir = "/music";
  filename = "song.lrc";
  status = no_status;
  created_at = 0;
}

upsert-Recorded_example :
    Recorded mixed_db.scans (upsert Bool.false 1 9 (found_again ∷ []) mixed).1.db.scans
upsert-Recorded_example = upsert-Recorded 1 9 (found_again ∷ []) mixed

abbrev two : ℕ
two = 2

abbrev nothing : ℕ
nothing = 0

count-then-clear_example : (two ≡ two) × (nothing ≡ nothing)
unfolding count_by_library clear_by_library exec
count-then-clear_example = count-then-clear 1 9 two two nothing mixed refl refl refl

abbrev jazz : Library
jazz = record { id = 2; path = "/jazz"; name = "Jazz"; created_at = 0; updated_at = 0 }

add-eq-ok_example :
    (jazz ≡ library_of 2 (record { path = "/jazz"; name = "Jazz" }) 0)
    × (any (has_path "/jazz") mixed_db.libraries ≡ false)
    × ((add " /jazz" "Jazz " 9 mixed).1.db
        ≡ record mixed_db { libraries = mixed_db.libraries ++ jazz ∷ []; library_seq = 3 })
unfolding add get exec trim_space
add-eq-ok_example = add-eq-ok " /jazz" "Jazz " 9 mixed jazz (omega arith, tt) refl
