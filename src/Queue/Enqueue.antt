-- ===== src/Queue/Enqueue.antt =====
-- DBQueue.Enqueue: insert, or merge into the row with the same normalized artist and title.
-- `now` is one reading of the clock, in nanoseconds, which SQLite's own 'now' shares.
use Prim.Native.Nat.{max}
use mxlrc_go.Common.{
  ℕ, suc, ltb, leb, String, Bool, [], ◌∷◌, ◌++◌, Option, none, some, ◌&&◌, ◌==◌, if◌then◌else◌,
  find_where, update_where, any,
}
use mxlrc_go.Models.{Inputs}
use mxlrc_go.Store.Tables.{
  Db, WorkRow, pending, is_pending, is_settled, is_failed, is_done, same_key, has_id, touch, refers,
  scan_exists,
}
use mxlrc_go.Store.Session.{
  Result, ok, err, constraint, M, exec, lift, pure, transaction, ◌>>=◌, ◌>>◌,
}
use mxlrc_go.Queue.Items.{WorkItem, format_time, nullable_id, marshal_output_paths, scan_work_item}

-- internal/queue/priority.go
abbrev pub priority_scan : ℕ
priority_scan = 0

abbrev pub priority_webhook : ℕ
priority_webhook = 10

-- COALESCE
abbrev pub coalesce : Option ℕ → Option ℕ → Option ℕ
coalesce none b = b
coalesce (some a) b = some a

-- The VALUES of the INSERT, with the defaults of the columns that it does not name.
unfoldable pub new_row : (String → String) → Inputs → ℕ → ℕ → ℕ → WorkRow
unfolding marshal_output_paths
new_row normalize_key inputs priority now id = record {
  id = id;
  artist = inputs.track.artist_name;
  title = inputs.track.track_name;
  artist_key = normalize_key inputs.track.artist_name;
  title_key = normalize_key inputs.track.track_name;
  outdir = inputs.outdir;
  filename = inputs.filename;
  source_path = inputs.source_path;
  output_paths = marshal_output_paths inputs;
  scan_result_id = nullable_id inputs.scan_result_id;
  status = pending;
  priority = priority;
  attempts = 0;
  next_attempt_at = format_time now;
  last_error = "";
  created_at = format_time now;
  updated_at = format_time now;
  completed_at = none;
}

-- ON CONFLICT … DO UPDATE SET: `old` is work_queue, `new` is excluded.
unfoldable pub merge : (refresh_failed_backoff : Bool) → WorkRow → WorkRow → WorkRow
merge refresh new old = record old {
  artist = if is_settled old.status then old.artist else new.artist;
  title = if is_settled old.status then old.title else new.title;
  outdir = if is_settled old.status then old.outdir else new.outdir;
  filename = if is_settled old.status then old.filename else new.filename;
  source_path = if is_settled old.status then old.source_path else new.source_path;
  output_paths = if is_settled old.status then old.output_paths else new.output_paths;
  scan_result_id = coalesce old.scan_result_id new.scan_result_id;
  status = if is_pending old.status then pending else old.status;
  priority = max old.priority new.priority;
  next_attempt_at =
      if is_settled old.status
      then old.next_attempt_at
      else if is_failed old.status && refresh
      then new.next_attempt_at
      else if is_failed old.status
      then old.next_attempt_at
      else new.next_attempt_at;
  last_error = if is_pending old.status then "" else old.last_error;
  completed_at = if is_done old.status then old.completed_at else none;
}

-- The new state unless the row's scan_result_id names no scan result.
abbrev pub referring : WorkRow → Db → Result (WorkRow × Db)
referring row db = if refers db.scans row.scan_result_id then ok (row, db) else err constraint

unfoldable pub upsert_work : WorkRow → Bool → ℕ → Db → Result (WorkRow × Db)
unfolding merge
upsert_work new refresh at db = elim (find_where (same_key new) db.work) [
  | none ↦ referring new (record db { work = db.work ++ new ∷ []; work_seq = suc db.work_seq })
  | some old ↦ referring (merge refresh new old) (record db {
    work = update_where (same_key new) (λ r. touch at (merge refresh new r)) db.work;
  })
]

-- INSERT OR IGNORE INTO work_queue_scan_results
unfoldable pub link_scan : ℕ → ℕ → Db → Result (Unit {0} × Db)
link_scan work_id scan_id db =
    if any (λ l. l.work_queue_id == work_id && l.scan_result_id == scan_id) db.links
    then ok (tt, db)
    else if any (has_id work_id) db.work && scan_exists db.scans scan_id
    then ok (
      tt,
      record db {
        links = db.links ++ (record { work_queue_id = work_id; scan_result_id = scan_id }) ∷ [];
      },
    )
    else err constraint

unfoldable pub enqueue_row : (String → String) → Inputs → ℕ → ℕ → Db → Result (WorkRow × Db)
unfolding new_row upsert_work
enqueue_row normalize_key inputs priority now db =
    upsert_work (new_row normalize_key inputs priority now db.work_seq)
      (leb priority_webhook priority) (format_time now) db

unfoldable pub link_item : Inputs → WorkItem → M Db WorkItem
unfolding link_scan
link_item inputs item = do
  if ltb 0 inputs.scan_result_id then exec (link_scan item.id inputs.scan_result_id) else pure tt
  pure item

-- The body of the transaction.
unfoldable pub enqueue_body : (String → String) → Inputs → ℕ → ℕ → M Db WorkItem
unfolding enqueue_row link_item
enqueue_body normalize_key inputs priority now = do
  row ← exec (enqueue_row normalize_key inputs priority now)
  item ← lift (scan_work_item row)
  link_item inputs item

unfoldable pub enqueue : (String → String) → Inputs → ℕ → ℕ → M Db WorkItem
unfolding enqueue_body
enqueue normalize_key inputs priority now =
    transaction (enqueue_body normalize_key inputs priority now)
