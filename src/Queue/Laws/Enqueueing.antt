-- ===== src/Queue/Laws/Enqueueing.antt =====
-- Enqueue (internal/queue/queue.go): what happens to a row that is there already, and when the
-- enqueued work is due.
use mxlrc_go.Common.{
  subst, find_where-some, if◌then◌else◌, ltb, [], ◌∷◌, Option-cases, List, ℕ, ◌≤◌, ◌<◌, ◌≡◌, refl,
  ap, ◌∙◌, sym, ◌++◌, inl, inr, Bool, true, false, String, In, arith, update_where, find_where,
  none, some, leb,
}
use mxlrc_go.Models.{Inputs}
use mxlrc_go.Store.Tables.{failed, pending, Db, WorkRow, same_key, touch, is_retryable}
use mxlrc_go.Store.Session.{◌>>=◌, lift, pure, Session, ok, exec, M, Result}
use mxlrc_go.Queue.Enqueue.{
  enqueue_row, priority_webhook, new_row, enqueue, enqueue_body, merge, link_scan, upsert_work,
  link_item,
}
use mxlrc_go.Queue.Items.{format_time, scan_work_item, WorkItem}
use mxlrc_go.Store.Outcomes.{>>=-eq-ok, transaction-eq-ok, exec-eq-ok}

link_scan-work :
    (work_id scan_id : ℕ) (db db' : Db) {u : Unit {0}}
    → link_scan work_id scan_id db ≡ ok (u, db')
    → db'.work ≡ db.work
unfolding link_scan
link_scan-work work_id scan_id db db' h = ground arith

link_if-work :
    (wanted : Bool) (work_id scan_id : ℕ) (t : Session Db) {u : Unit {0}}
    → ((if wanted then exec (link_scan work_id scan_id) else pure tt) t).0 ≡ ok u
    → ((if wanted then exec (link_scan work_id scan_id) else pure tt) t).1.db.work ≡ t.db.work
link_if-work true work_id scan_id t h =
    link_scan-work work_id scan_id t.db _ (exec-eq-ok (link_scan work_id scan_id) t h)
link_if-work false work_id scan_id t h = refl

link_item-eq-ok :
    (inputs : Inputs) (item found : WorkItem) (t : Session Db)
    → (link_item inputs item t).0 ≡ ok found
    → (found ≡ item) × ((link_item inputs item t).1.db.work ≡ t.db.work)
unfolding link_item
link_item-eq-ok inputs item found t h =
    let wanted = ltb 0 inputs.scan_result_id in
    let link : M Db (Unit {0}) =
      if wanted then exec (link_scan item.id inputs.scan_result_id) else pure tt in
    let (u, e₁, e₂, q) = >>=-eq-ok link (λ _. pure item) t h in
    (
      ground arith,
      ap (λ (p : Result WorkItem × Session Db). p.1.db.work) q
          ∙ link_if-work wanted item.id inputs.scan_result_id t e₁,
    )

-- How the row of a successful enqueue came about.
pub data Upserted (new : WorkRow) (refresh : Bool) (at : ℕ) (row : WorkRow)
    (work work' : List WorkRow) : Type 0 where
  inserted :
      find_where (same_key new) work ≡ none
      → row ≡ new
      → work' ≡ work ++ new ∷ []
      → Upserted new refresh at row work work'
  merged :
      (old : WorkRow)
      → find_where (same_key new) work ≡ some old
      → row ≡ merge refresh new old
      → work' ≡ update_where (same_key new) (λ r. touch at (merge refresh new r)) work
      → Upserted new refresh at row work work'

upsert_work-Upserted :
    (new : WorkRow) (refresh : Bool) (at : ℕ) (db db' : Db) (row : WorkRow)
    → upsert_work new refresh at db ≡ ok (row, db')
    → Upserted new refresh at row db.work db'.work
unfolding upsert_work
upsert_work-Upserted new refresh at db db' row h =
    elim (Option-cases (find_where (same_key new) db.work)) [
      | inl e ↦ inserted e (ground arith) (ground arith)
      | inr (old, e) ↦ merged old e (ground arith) (ground arith)
    ]

enqueue_body-Upserted :
    (nk : String → String) (inputs : Inputs) (priority now : ℕ) (s : Session Db) (item : WorkItem)
    → (enqueue_body nk inputs priority now s).0 ≡ ok item
    → (row : WorkRow) × (scan_work_item row ≡ ok item)
      × Upserted
          (new_row nk inputs priority now s.db.work_seq)
          (leb priority_webhook priority)
          (format_time now)
          row
          s.db.work
          (enqueue_body nk inputs priority now s).1.db.work
unfolding enqueue_body enqueue_row
enqueue_body-Upserted nk inputs priority now s item h =
    let put = enqueue_row nk inputs priority now in
    let scanned : WorkRow → M Db WorkItem = λ r. lift (scan_work_item r) in
    let (row, e₁, e₂, q₁) = >>=-eq-ok (exec put) (λ r. scanned r >>= link_item inputs) s h in
    let (found, e₃, e₄, q₂) = >>=-eq-ok (scanned row) (link_item inputs) (exec put s).1 e₂ in
    let (same, kept) = link_item-eq-ok inputs found item (exec put s).1 e₄ in
    let put_ok = exec-eq-ok put s e₁ in
    (
      row,
      e₃ ∙ ap ok (sym same),
      subst
          (Upserted (new_row nk inputs priority now s.db.work_seq) (leb priority_webhook priority)
            (format_time now) row s.db.work)
          (sym (ap (λ (p : Result WorkItem × Session Db). p.1.db.work) (q₁ ∙ q₂) ∙ kept))
          (upsert_work-Upserted _ _ _ s.db (exec put s).1.db row put_ok),
    )

pub enqueue-Upserted :
    (nk : String → String) (inputs : Inputs) (priority now : ℕ) (s : Session Db) (item : WorkItem)
    → (enqueue nk inputs priority now s).0 ≡ ok item
    → (row : WorkRow) × (scan_work_item row ≡ ok item)
      × Upserted
          (new_row nk inputs priority now s.db.work_seq)
          (leb priority_webhook priority)
          (format_time now)
          row
          s.db.work
          (enqueue nk inputs priority now s).1.db.work
unfolding enqueue
enqueue-Upserted nk inputs priority now s item h =
    let body = enqueue_body nk inputs priority now in
    let refresh = leb priority_webhook priority in
    let at = format_time now in
    let (t, start, ends, left) = transaction-eq-ok body s h in
    let (row, scans, up) = enqueue_body-Upserted nk inputs priority now t item ends in
    (
      row,
      scans,
      subst (Upserted (new_row nk inputs priority now s.db.work_seq) refresh at row s.db.work)
          (ap (λ (d : Db). d.work) (sym left))
          (subst
            (λ (d : Db).
              Upserted (new_row nk inputs priority now d.work_seq) refresh at row d.work
                (body t).1.db.work)
            start up),
    )

scan_work_item-row :
    (r : WorkRow) (item : WorkItem)
    → scan_work_item r ≡ ok item
    → (item.id ≡ r.id)
      × (item.status ≡ r.status)
      × (item.attempts ≡ r.attempts)
      × (item.next_attempt_at ≡ r.next_attempt_at)
unfolding scan_work_item
scan_work_item-row r item h = ground arith

-- The schedule of enqueued work.
pub record Scheduled (priority at : ℕ) (work : List WorkRow) (item : WorkItem) : Type 0 where
  pub urgent :
      priority_webhook ≤ priority → is_retryable item.status ≡ true → item.next_attempt_at ≡ at
  pub waiting : item.status ≡ pending → item.next_attempt_at ≡ at
  pub backing_off :
      priority < priority_webhook
      → item.status ≡ failed
      → (old : WorkRow) × In old work
        × (item.id ≡ old.id)
        × (item.attempts ≡ old.attempts)
        × (item.next_attempt_at ≡ old.next_attempt_at)

Upserted-Scheduled :
    (nk : String → String) (inputs : Inputs) (priority now id : ℕ) (row : WorkRow)
    (work work' : List WorkRow) (item : WorkItem)
    → scan_work_item row ≡ ok item
    → Upserted
        (new_row nk inputs priority now id)
        (leb priority_webhook priority)
        (format_time now)
        row
        work
        work'
    → Scheduled priority (format_time now) work item
unfolding new_row merge
Upserted-Scheduled nk inputs priority now id row work work' item scans (inserted miss is_new _) =
    let (a, b, c, d) = scan_work_item-row row item scans in
    record {
      urgent = λ h k. ground arith;
      waiting = λ h. ground arith;
      backing_off = λ h k. absurd (ground arith);
    }
Upserted-Scheduled nk inputs priority now id row work work' item scans
      (merged old hit is_merged _) =
    let (a, b, c, d) = scan_work_item-row row item scans in
    let (i, _) = find_where-some (same_key (new_row nk inputs priority now id)) work old hit in
    record {
      urgent = λ h k. ground arith;
      waiting = λ h. ground arith;
      backing_off = λ h k. (old, i, ground arith, ground arith, ground arith);
    }

-- Work that Enqueue accepts is due at once if its priority is at least a webhook's and its row is
-- pending or failed, and also if its row is pending. With a lower priority and a failed row, it is a
-- row that was there before, and keeps that row's attempts and next attempt time.
pub enqueue-Scheduled :
    (nk : String → String) (inputs : Inputs) (priority now : ℕ) (s : Session Db) (item : WorkItem)
    → (enqueue nk inputs priority now s).0 ≡ ok item
    → Scheduled priority (format_time now) s.db.work item
enqueue-Scheduled nk inputs priority now s item h =
    let (row, scans, up) = enqueue-Upserted nk inputs priority now s item h in
    Upserted-Scheduled nk inputs priority now s.db.work_seq row s.db.work _ item scans up
