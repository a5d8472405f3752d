-- ===== src/Queue/Laws/Settled.antt =====
-- Enqueue (internal/queue/queue.go) and the rows that a worker owns or has finished.
use Prim.Native.Nat.{max}
use mxlrc_go.Common.{
  In-update_hit, All-In, find_where-found, List, ℕ, ◌≡◌, Bool, true, String, In, arith, ◌&&◌,
  text_eq,
}
use mxlrc_go.Models.{Inputs}
use mxlrc_go.Store.Tables.{Db, WorkRow, same_key, touch, is_settled}
use mxlrc_go.Store.Session.{Session, ok}
use mxlrc_go.Queue.Enqueue.{enqueue, new_row, merge, coalesce}
use mxlrc_go.Queue.Items.{format_time, nullable_id, WorkItem}
use mxlrc_go.Store.Valid.{IsValid, RowOk}
use mxlrc_go.Queue.Laws.Enqueueing.{merged, inserted, enqueue-Upserted, Upserted}

-- The row with its links, its priority and its timestamp brought up to date, and nothing else.
abbrev pub refreshed : Inputs → (priority at : ℕ) → WorkRow → WorkRow
refreshed inputs priority at old = record old {
  scan_result_id = coalesce old.scan_result_id (nullable_id inputs.scan_result_id);
  priority = max old.priority priority;
  updated_at = at;
}

merge-refreshed :
    (nk : String → String) (inputs : Inputs) (priority now id : ℕ) (refresh : Bool) (old : WorkRow)
    → RowOk old
    → is_settled old.status ≡ true
    → touch (format_time now) (merge refresh (new_row nk inputs priority now id) old)
      ≡ refreshed inputs priority (format_time now) old
unfolding merge new_row
merge-refreshed nk inputs priority now id refresh old v h = ground arith

Upserted-refreshed :
    (nk : String → String) (inputs : Inputs) (priority now id : ℕ) (refresh : Bool)
    (row old : WorkRow) (work work' : List WorkRow)
    → RowOk old
    → In old work
    → same_key (new_row nk inputs priority now id) old ≡ true
    → is_settled old.status ≡ true
    → Upserted (new_row nk inputs priority now id) refresh (format_time now) row work work'
    → In (refreshed inputs priority (format_time now) old) work'
Upserted-refreshed nk inputs priority now id refresh row old work work' v i same h
      (inserted miss _ _) =
    absurd (find_where-found (same_key (new_row nk inputs priority now id)) old work i same miss)
Upserted-refreshed nk inputs priority now id refresh row old work work' v i same h
      (merged _ _ _ changed) =
    let new = new_row nk inputs priority now id in
    rw changed (
      rw (← merge-refreshed nk inputs priority now id refresh old v h) (
        In-update_hit (same_key new) (λ r. touch (format_time now) (merge refresh new r)) old work i
          same))

new_row-keys :
    (nk : String → String) (inputs : Inputs) (priority now id : ℕ) (old : WorkRow)
    → text_eq (nk inputs.track.artist_name) old.artist_key
        && text_eq (nk inputs.track.track_name) old.title_key
      ≡ true
    → same_key (new_row nk inputs priority now id) old ≡ true
unfolding new_row
new_row-keys nk inputs priority now id old h = h

-- A row that is being processed or is done, and whose key is that of the enqueued track, keeps its
-- status, its attempts, its schedule, its error text, its completion time, its source and its
-- destinations when an enqueue meets it and succeeds: the worker that owns it is not disturbed.
pub enqueue-refreshed :
    (normalize_key : String → String) (inputs : Inputs) (priority now : ℕ) (s : Session Db)
    (item : WorkItem) (old : WorkRow)
    → IsValid s.db
    → (enqueue normalize_key inputs priority now s).0 ≡ ok item
    → In old s.db.work
    → text_eq (normalize_key inputs.track.artist_name) old.artist_key
        && text_eq (normalize_key inputs.track.track_name) old.title_key
      ≡ true
    → is_settled old.status ≡ true
    → In
        (refreshed inputs priority (format_time now) old)
        (enqueue normalize_key inputs priority now s).1.db.work
enqueue-refreshed nk inputs priority now s item old v h i same settled =
    let (row, _, up) = enqueue-Upserted nk inputs priority now s item h in
    Upserted-refreshed nk inputs priority now s.db.work_seq _ row old s.db.work _
      (All-In RowOk s.db.work v.rows i) i
      (new_row-keys nk inputs priority now s.db.work_seq old same) settled up
