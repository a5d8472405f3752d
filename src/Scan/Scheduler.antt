-- ===== src/Scan/Scheduler.antt =====
-- The scan scheduler (internal/scan/scheduler.go) over the repositories that are its Libraries and
-- Results. The scanner and OnScanComplete are parameters; the dependencies are never nil. A context
-- that has ended refuses a statement.
use mxlrc_go.Common.{ℕ, String, Bool, true, false, ◌||◌, List, [], ◌∷◌, Option, none, some, map}
use mxlrc_go.Models.{ScanResult, StatusText, no_status, known_status, other_status, Library}
use mxlrc_go.Store.Tables.{Db, Status, pending}
use mxlrc_go.Store.Session.{throw, sql_failure, Result, M, lift, pure, ◌>>=◌, ◌>>◌}
use mxlrc_go.Library.{list}
use mxlrc_go.Scan.Repository.{upsert}
use mxlrc_go.Scanner.Walking.{ScanOptions}
use mxlrc_go.Scan.Enqueuer.{check_context}

abbrev or_pending : StatusText Status → StatusText Status
or_pending no_status = known_status pending
or_pending (known_status s) = known_status s
or_pending other_status = other_status

-- The loop over the scanned results.
unfoldable pub prepared : ℕ → ScanResult Status → ScanResult Status
prepared library_id res = record res { library_id = library_id; status = or_pending res.status }

module _ (scan_library : String → ScanOptions → Result (List (ScanResult Status)))
    (on_scan_complete : Option (Library → List (ScanResult Status) → M Db (Unit {0})))
    (options : ScanOptions) (now : ℕ) where
  abbrev completed :
      Option (Library → List (ScanResult Status) → M Db (Unit {0}))
      → Library
      → List (ScanResult Status)
      → M Db (Unit {0})
  completed none v results = pure tt
  completed (some f) v results = f v results

  unfoldable pub persist : Library → List (ScanResult Status) → M Db (Unit {0})
  unfolding upsert
  persist v results = do
    upsert (options.update || options.upgrade) v.id now results
    completed on_scan_complete v results

  unfoldable pub scan_one : Library → M Db (Unit {0})
  unfolding prepared persist
  scan_one v = do
    check_context
    results ← lift (scan_library v.path options)
    persist v (map (prepared v.id) results)

  unfoldable pub scan_each : List Library → M Db (Unit {0})
  unfolding scan_one
  scan_each [] = pure tt
  scan_each (v ∷ libs) = do scan_one v; scan_each libs

  unfoldable pub run_once_for : List Library → M Db (Unit {0})
  unfolding scan_each
  run_once_for libs = do check_context; scan_each libs

  unfoldable pub run_once : M Db (Unit {0})
  unfolding list run_once_for
  run_once = do check_context; libs ← list; run_once_for libs

-- `ticks` are what the select of each round receives: the clock of a tick of the ticker. The end of
-- the list is the end of the context, by cancellation or by MaxRuntime.
module _ (scan_library : String → ScanOptions → Result (List (ScanResult Status)))
    (on_scan_complete : Option (Library → List (ScanResult Status) → M Db (Unit {0})))
    (options : ScanOptions) where
  unfoldable pub run_ticks : List ℕ → M Db (Unit {0})
  unfolding run_once
  run_ticks [] = throw sql_failure
  run_ticks (now ∷ ticks) = do run_once scan_library on_scan_complete options now; run_ticks ticks

  unfoldable pub run : (repeats : Bool) → (now : ℕ) → List ℕ → M Db (Unit {0})
  unfolding run_once run_ticks
  run repeats now ticks = do
    check_context
    run_once scan_library on_scan_complete options now
    elim repeats [ true ↦ run_ticks ticks | false ↦ pure tt ]
