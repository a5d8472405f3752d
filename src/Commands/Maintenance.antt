-- ===== src/Commands/Maintenance.antt =====
-- The queue and scan maintenance commands (internal/commands/commands.go), after the configuration has
-- been loaded and the database opened: what they do to it, their exit code and what they report.
use Prim.Native.String.{String}
use mxlrc_go.Common.{ℕ, Bool, true, false, List, some, text_eq, if◌then◌else◌}
use mxlrc_go.Models.{Library, ScanResult}
use mxlrc_go.Auth.Text.{trim_space}
use mxlrc_go.Store.Tables.{Db, Status}
use mxlrc_go.Store.Session.{
  Error, Result, ok, err, no_rows, not_retryable, M, attempt, pure, transaction, ◌>>=◌,
}
use mxlrc_go.Queue.Items.{WorkItem}
use mxlrc_go.Queue.Work.{retry}
use mxlrc_go.Queue.Admin.{count_done, clear_done}
use mxlrc_go.Queue.Cancel.{Tally, cancel_by_library_tx, count_cancel_by_library}
use mxlrc_go.Scan.Repository.{clear_by_library, count_by_library, Filter}
use mxlrc_go.Scan.Repository
use mxlrc_go.Library.{list as list_libraries}
use mxlrc_go.Commands.Libraries.{resolve_library}

-- What is printed; `logged` is an error of the log.
pub data Report : Type 0 where
  logged not_found not_failed done_required : Report
  retried : WorkItem → Report
  would_clear cleared : ℕ → Report
  would_cancel canceled : ℕ → Tally → Report
  listed : List (ScanResult Status) → Report

pub record Exit : Type 0 where
  pub code : ℕ
  pub report : Report

abbrev pub exits : ℕ → Report → M Db Exit
exits code report = pure (record { code = code; report = report })

-- runQueueRetry
abbrev retry_exit : Result WorkItem → M Db Exit
retry_exit (ok item) = exits 0 (retried item)
retry_exit (err no_rows) = exits 1 not_found
retry_exit (err not_retryable) = exits 1 not_failed
retry_exit (err e) = exits 1 logged

unfoldable pub run_queue_retry : (id now : ℕ) → M Db Exit
unfolding retry
run_queue_retry id now = attempt (retry id now) >>= retry_exit

abbrev pub number_exit : (ℕ → Report) → Result ℕ → M Db Exit
number_exit f (ok n) = exits 0 (f n)
number_exit f (err e) = exits 1 logged

unfoldable pub run_queue_clear : (done? confirm : Bool) → M Db Exit
unfolding count_done clear_done
run_queue_clear done? confirm =
    if done?
    then if confirm
      then attempt clear_done >>= number_exit cleared
      else attempt count_done >>= number_exit would_clear
    else exits 2 done_required

-- The error of resolveLibrary.
abbrev pub unresolved : Error → M Db Exit
unresolved no_rows = exits 1 not_found
unresolved e = exits 1 logged

-- The two counts of a scan clear without --yes.
unfoldable pub clear_preview : Library → (now : ℕ) → M Db (ℕ × Tally)
unfolding count_by_library count_cancel_by_library
clear_preview lib now = do
  n ← count_by_library lib.id
  t ← count_cancel_by_library lib.id now
  pure (n, t)

-- The mutations of a scan clear, in one transaction.
unfoldable pub clear_body : Library → (now : ℕ) → M Db (ℕ × Tally)
unfolding cancel_by_library_tx clear_by_library
clear_body lib now = do
  t ← cancel_by_library_tx false lib.id now
  n ← clear_by_library lib.id now
  pure (n, t)

abbrev pub cancel_exit : (ℕ → Tally → Report) → Result (ℕ × Tally) → M Db Exit
cancel_exit f (ok (n, t)) = exits 0 (f n t)
cancel_exit f (err e) = exits 1 logged

unfoldable pub clear_library : (confirm : Bool) → (now : ℕ) → Result Library → M Db Exit
unfolding clear_preview clear_body
clear_library confirm now (err e) = unresolved e
clear_library false now (ok lib) = attempt (clear_preview lib now) >>= cancel_exit would_cancel
clear_library true now (ok lib) =
    attempt (transaction (clear_body lib now)) >>= cancel_exit canceled

unfoldable pub run_scan_clear : (ref : String) → (confirm : Bool) → (now : ℕ) → M Db Exit
unfolding resolve_library clear_library
run_scan_clear ref confirm now = attempt (resolve_library ref) >>= clear_library confirm now

-- A status that is given is one that validateScanStatus accepts.
abbrev listed_exit : Result (List (ScanResult Status)) → M Db Exit
listed_exit (ok results) = exits 0 (listed results)
listed_exit (err e) = exits 1 logged

abbrev list_of : Filter → Result Library → M Db Exit
list_of filter (err e) = unresolved e
list_of filter (ok lib) =
    attempt (Repository.list (record filter { library_id = some lib.id })) >>= listed_exit

abbrev list_any : Filter → Result (List Library) → M Db Exit
list_any filter (err e) = exits 1 logged
list_any filter (ok libs) = attempt (Repository.list filter) >>= listed_exit

-- The names of the libraries are read first.
unfoldable pub run_scan_results : (ref : String) → Filter → M Db Exit
unfolding resolve_library Repository.list list_libraries
run_scan_results ref filter =
    if text_eq (trim_space ref) ""
    then attempt list_libraries >>= list_any filter
    else attempt (resolve_library ref) >>= list_of filter
