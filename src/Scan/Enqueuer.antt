-- ===== src/Scan/Enqueuer.antt =====
-- The enqueuer of pending scan results (internal/scan/enqueuer.go), over the repositories that are
-- its Results, Cache and Queue. A context that has ended refuses a statement, as the driver may; the
-- dependencies are never nil.
pub mod Effects
pub mod Due
pub mod Draining
use mxlrc_go.Common.{ℕ, String, Bool, ◌&&◌, not, List, [], ◌∷◌, text_eq, if◌then◌else◌}
use mxlrc_go.Models.{Inputs, ScanResult, known_status, Library}
use mxlrc_go.Store.Tables.{Db, Status, pending, processing, done}
use mxlrc_go.Store.Session.{
  Error, no_rows, no_destination, Result, ok, err, M, boundary, attempt, throw, pure, ◌>>=◌, ◌>>◌,
}
use mxlrc_go.Strings.Paths.{dir, base, ext}
use mxlrc_go.Strings.Splitting.{trim_suffix}
use mxlrc_go.Cache.{lookup_fallback}
use mxlrc_go.Queue.Enqueue.{enqueue}
use mxlrc_go.Queue.Items.{WorkItem}
use mxlrc_go.Scan.Repository.{list_pending_by_library, set_status}
use Prim.Native.String.{◌++◌}

abbrev pub has_path : ScanResult Status → Bool
has_path res = not (text_eq res.file_path "")

unfoldable pub input_outdir : ScanResult Status → String
unfolding dir
input_outdir res = if text_eq res.outdir "" && has_path res then dir res.file_path else res.outdir

unfoldable pub input_filename : ScanResult Status → String
unfolding base ext trim_suffix
input_filename res =
    if text_eq res.filename "" && has_path res
    then trim_suffix (base res.file_path) (ext (base res.file_path)) ++ ".lrc"
    else res.filename

abbrev inputs_to : ScanResult Status → String → String → Inputs
inputs_to res outdir filename = record {
  track = res.track;
  outdir = outdir;
  filename = filename;
  source_path = res.file_path;
  output_paths = record { outdir = outdir; filename = filename } ∷ [];
  scan_result_id = res.id;
}

unfoldable pub scan_inputs : ScanResult Status → Result Inputs
unfolding input_outdir input_filename
scan_inputs res =
    if text_eq (input_outdir res) "" && text_eq (input_filename res) "" && not (has_path res)
    then err no_destination
    else ok (inputs_to res (input_outdir res) (input_filename res))

-- ctx.Err()
abbrev pub check_context : M Db (Unit {0})
check_context = boundary

-- The error that follows the attempt to restore wraps `e` whether that attempt fails or not.
unfoldable pub restore : ScanResult Status → Error → M Db (Unit {0})
unfolding set_status
restore res e = attempt (set_status (res.id ∷ []) (known_status pending)) >>= λ _. throw e

unfoldable pub after_enqueue : ScanResult Status → Result WorkItem → M Db (Unit {0})
unfolding restore
after_enqueue res (ok _) = pure tt
after_enqueue res (err e) = restore res e

-- `now i` is the clock when the result with the id `i` is enqueued.
module _ (normalize_key : String → String) (priority : ℕ) (now : ℕ → ℕ) where
  unfoldable pub enqueue_inputs : ScanResult Status → Result Inputs → M Db (Unit {0})
  unfolding restore after_enqueue enqueue
  enqueue_inputs res (err e) = restore res e
  enqueue_inputs res (ok inputs) =
      attempt (enqueue normalize_key inputs priority (now res.id)) >>= after_enqueue res

  unfoldable pub reserve : ScanResult Status → M Db (Unit {0})
  unfolding set_status enqueue_inputs scan_inputs
  reserve res = do
    set_status (res.id ∷ []) (known_status processing)
    enqueue_inputs res (scan_inputs res)

  unfoldable pub after_lookup : ScanResult Status → Result String → M Db (Unit {0})
  unfolding set_status reserve
  after_lookup res (ok _) = set_status (res.id ∷ []) (known_status done)
  after_lookup res (err no_rows) = reserve res
  after_lookup res (err e) = throw e

  unfoldable pub enqueue_result : ScanResult Status → M Db (Unit {0})
  unfolding lookup_fallback after_lookup
  enqueue_result res = do
    check_context
    cached ← attempt (lookup_fallback normalize_key res.track.artist_name res.track.track_name)
    after_lookup res cached

  unfoldable pub enqueue_results : List (ScanResult Status) → M Db (Unit {0})
  unfolding enqueue_result
  enqueue_results [] = pure tt
  enqueue_results (res ∷ results) = do enqueue_result res; enqueue_results results

  unfoldable pub enqueue_pending : (library_id : ℕ) → M Db (Unit {0})
  unfolding list_pending_by_library enqueue_results
  enqueue_pending library_id = do
    check_context
    results ← list_pending_by_library library_id
    enqueue_results results

  unfoldable pub on_scan_complete : Library → List (ScanResult Status) → M Db (Unit {0})
  unfolding enqueue_pending
  on_scan_complete lib _ = enqueue_pending lib.id
