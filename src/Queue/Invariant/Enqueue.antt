-- ===== src/Queue/Invariant/Enqueue.antt =====
-- Enqueue (internal/queue/queue.go) and the invariant of the work_queue table.
use mxlrc_go.Common.{
  ℕ, suc, ◌≡◌, refl, Bool, String, List, [], ◌∷◌, ◌++◌, none, inl, inr, ◌⊎◌, arith, find_where,
  find_where-none, update_where, Option-cases, leb, ltb, if◌then◌else◌,
}
use mxlrc_go.Models.{Inputs}
use mxlrc_go.Store.Tables.{Db, WorkRow, same_key, touch}
use mxlrc_go.Store.Session.{ok, M, exec, lift, pure, ◌>>=◌}
use mxlrc_go.Store.Keeps.{
  Keeps, Preserves, exec-Keeps, pure-Keeps, lift-Keeps, if-Keeps, >>=-Keeps, transaction-Keeps,
}
use mxlrc_go.Store.Valid.{
  RowOk, IsValid, IsHarmless, update-IsValid, insert-IsValid, same_work-IsValid,
}
use mxlrc_go.Queue.Items.{WorkItem, scan_work_item, format_time}
use mxlrc_go.Queue.Enqueue.{
  new_row, merge, upsert_work, link_scan, enqueue_row, link_item, enqueue_body, enqueue,
  priority_webhook,
}

new_row-RowOk :
    (nk : String → String) (inputs : Inputs) (priority now id : ℕ)
    → RowOk (new_row nk inputs priority now id)
unfolding new_row
new_row-RowOk nk inputs priority now id = ground arith

new_row-id :
    (nk : String → String) (inputs : Inputs) (priority now id : ℕ)
    → (new_row nk inputs priority now id).id ≡ id
unfolding new_row
new_row-id nk inputs priority now id = refl

merge-RowOk : (refresh : Bool) (new old : WorkRow) → RowOk old → RowOk (merge refresh new old)
unfolding merge
merge-RowOk refresh new old v = ground arith

merge-IsHarmless :
    (refresh : Bool) (new : WorkRow) (work : List WorkRow)
    → IsHarmless work (same_key new) (merge refresh new)
unfolding merge
merge-IsHarmless refresh new work = record {
  same_id = λ r. refl;
  same_artist = λ r. refl;
  same_title = λ r. refl;
  row_ok = λ r _ _ v. merge-RowOk refresh new r v;
}

upsert_cases :
    (new : WorkRow) (refresh : Bool) (at : ℕ) (db db' : Db) (row : WorkRow)
    → upsert_work new refresh at db ≡ ok (row, db')
    → ((find_where (same_key new) db.work ≡ none)
        × (db' ≡ record db { work = db.work ++ new ∷ []; work_seq = suc db.work_seq }))
      ⊎ (db' ≡ record db {
        work = update_where (same_key new) (λ r. touch at (merge refresh new r)) db.work;
      })
unfolding upsert_work
upsert_cases new refresh at db db' row h = elim (Option-cases (find_where (same_key new) db.work)) [
  | inl e ↦ inl (e, ground arith)
  | inr (old, e) ↦ inr (ground arith)
]

upsert_work-IsValid :
    (new : WorkRow) (refresh : Bool) (at : ℕ) (db db' : Db) (row : WorkRow)
    → RowOk new
    → new.id ≡ db.work_seq
    → upsert_work new refresh at db ≡ ok (row, db')
    → IsValid db
    → IsValid db'
upsert_work-IsValid new refresh at db db' row good here h v =
    elim (upsert_cases new refresh at db db' row h) [
      | inl (e, q) ↦
          rw q (insert-IsValid new db good here (find_where-none (same_key new) db.work e) v)
      | inr q ↦ rw q (
          update-IsValid (same_key new) (merge refresh new) at db
            (merge-IsHarmless refresh new db.work) v)
    ]

enqueue_row-IsValid :
    (nk : String → String) (inputs : Inputs) (priority now : ℕ)
    → Preserves IsValid (enqueue_row nk inputs priority now)
unfolding enqueue_row
enqueue_row-IsValid nk inputs priority now db row db' v e =
    upsert_work-IsValid (new_row nk inputs priority now db.work_seq) (leb priority_webhook priority)
      (format_time now) db db' row (new_row-RowOk nk inputs priority now db.work_seq)
      (new_row-id nk inputs priority now db.work_seq) e v

link_scan-IsValid : (work_id scan_id : ℕ) → Preserves IsValid (link_scan work_id scan_id)
unfolding link_scan
link_scan-IsValid work_id scan_id db _ db' v e =
    same_work-IsValid db db' (ground arith) (ground arith) v

link_item-Keeps : (inputs : Inputs) (item : WorkItem) → Keeps IsValid (link_item inputs item)
unfolding link_item
link_item-Keeps inputs item =
    let link : M Db (Unit {0}) = exec (link_scan item.id inputs.scan_result_id) in
    let wanted = ltb 0 inputs.scan_result_id in
    >>=-Keeps IsValid (if wanted then link else pure tt) (λ _. pure item)
      (if-Keeps IsValid wanted link (pure tt)
        (exec-Keeps IsValid _ (link_scan-IsValid item.id inputs.scan_result_id))
        (pure-Keeps IsValid tt))
      (λ _. pure-Keeps IsValid item)

pub enqueue-Keeps :
    (nk : String → String) (inputs : Inputs) (priority now : ℕ)
    → Keeps IsValid (enqueue nk inputs priority now)
unfolding enqueue enqueue_body
enqueue-Keeps nk inputs priority now =
    let row = enqueue_row nk inputs priority now in
    let scanned : WorkRow → M Db WorkItem = λ r. lift (scan_work_item r) in
    transaction-Keeps IsValid (enqueue_body nk inputs priority now) (
      >>=-Keeps IsValid (exec row) (λ r. scanned r >>= link_item inputs)
        (exec-Keeps IsValid row (enqueue_row-IsValid nk inputs priority now))
        λ r.
          >>=-Keeps IsValid (scanned r) (link_item inputs) (lift-Keeps IsValid (scan_work_item r))
            (link_item-Keeps inputs))
