-- ===== src/Queue/Laws/Failing.antt =====
-- Fail and Retry (internal/queue/queue.go): the backoff of a failed row, and who may reset it.
use mxlrc_go.Common.{
  In-update_hit, sym, find_where-some, subst, inr, inl, Option-cases, some, find_where, ℕ, ◌+◌, ◌<◌,
  ◌≡◌, ◌≢◌, ap, ◌∙◌, true, false, Option, String, In, arith, update_where,
}
use mxlrc_go.Store.Tables.{touch, Db, WorkRow, failed}
use mxlrc_go.Store.Session.{◌>>=◌, query, lift, Session, ok, exec, M, Result}
use mxlrc_go.Queue.Work.{
  dequeue, fail, is_ready, cause_text, is_claimed, load_attempts, mark_failed, fail_body,
}
use mxlrc_go.Queue.Items.{format_time, scan_work_item, WorkItem}
use mxlrc_go.Backoff.{geometric}
use mxlrc_go.Store.Outcomes.{transaction-eq-ok, exec-eq-ok, query-eq-ok, >>=-eq-ok}
use mxlrc_go.Store.Valid.{same_id-eq, IsValid}
use mxlrc_go.Queue.Laws.Claiming.{dequeue-first}
use mxlrc_go.Queue.Invariant.Work.{fail-Keeps}

-- The failed row, from the row that was being processed.
abbrev rescheduled : ℕ → ℕ → String → WorkRow → WorkRow
rescheduled attempts next_at last_error w = record w {
  status = failed;
  attempts = attempts;
  next_attempt_at = next_at;
  last_error = last_error;
}

-- What Fail has done when it reports success, with the time `due` before which the row rests.
pub record Rescheduled (id due at : ℕ) (text : String) (r : WorkRow) (item : WorkItem) (db db' : Db)
    : Type 0 where
  pub found : In r db.work
  pub claimed : is_claimed id r ≡ true
  pub attempts : item.attempts ≡ r.attempts + 1
  pub next_attempt_at : item.next_attempt_at ≡ due
  pub work :
      db'.work
      ≡ update_where
          (is_claimed id)
          (λ w. touch at (rescheduled (r.attempts + 1) due text w))
          db.work

load_attempts-eq-ok :
    (id n : ℕ) (db : Db)
    → load_attempts id db ≡ ok n
    → (r : WorkRow) × (find_where (is_claimed id) db.work ≡ some r) × (n ≡ r.attempts)
unfolding load_attempts
load_attempts-eq-ok id n db h = elim (Option-cases (find_where (is_claimed id) db.work)) [
  | inl miss ↦ absurd (ground arith)
  | inr (r, hit) ↦ (r, hit, ground arith)
]

mark_failed-eq-ok :
    (id attempts next_at at : ℕ) (text : String) (r row : WorkRow) (db db' : Db)
    → find_where (is_claimed id) db.work ≡ some r
    → mark_failed id attempts next_at text at db ≡ ok (row, db')
    → (row ≡ rescheduled attempts next_at text r)
      × (db'.work
          ≡ update_where
              (is_claimed id)
              (λ w. touch at (rescheduled attempts next_at text w))
              db.work)
unfolding mark_failed
mark_failed-eq-ok id attempts next_at at text r row db db' hit h = ground arith

scan_work_item-schedule :
    (r : WorkRow) (item : WorkItem)
    → scan_work_item r ≡ ok item
    → (item.attempts ≡ r.attempts) × (item.next_attempt_at ≡ r.next_attempt_at)
unfolding scan_work_item
scan_work_item-schedule r item h = ground arith

statements-Rescheduled :
    (due : ℕ → ℕ) (id n at : ℕ) (text : String) (row : WorkRow) (item : WorkItem) (db db' : Db)
    → load_attempts id db ≡ ok n
    → mark_failed id (n + 1) (due n) text at db ≡ ok (row, db')
    → scan_work_item row ≡ ok item
    → (r : WorkRow) × Rescheduled id (due r.attempts) at text r item db db'
statements-Rescheduled due id n at text row item db db' loaded marked scanned =
    let (r, hit, count) = load_attempts-eq-ok id n db loaded in
    let (row_is, changed) =
      mark_failed-eq-ok id (r.attempts + 1) (due r.attempts) at text r row db db' hit
        (subst (λ k. mark_failed id (k + 1) (due k) text at db ≡ ok (row, db')) count marked) in
    let (i, claims) = find_where-some (is_claimed id) db.work r hit in
    let (tries, next) = scan_work_item-schedule row item scanned in
    (
      r,
      record {
        found = i;
        claimed = claims;
        attempts = tries ∙ ap (λ (w : WorkRow). w.attempts) row_is;
        next_attempt_at = next ∙ ap (λ (w : WorkRow). w.next_attempt_at) row_is;
        work = changed;
      },
    )

-- The time at which a row with so many attempts behind it is due again.
abbrev pub due : (base longest now : ℕ) → ℕ → ℕ
due base longest now attempts = format_time (now + geometric (attempts + 1) base longest)

fail_body-Rescheduled :
    (base longest id : ℕ) (cause : Option String) (now : ℕ) (s : Session Db) (item : WorkItem)
    → (fail_body base longest id cause now s).0 ≡ ok item
    → (r : WorkRow) × Rescheduled id
        (due base longest now r.attempts)
        (format_time now)
        (cause_text cause)
        r
        item
        s.db
        (fail_body base longest id cause now s).1.db
unfolding fail_body
fail_body-Rescheduled base longest id cause now s item h =
    let at = format_time now in
    let text = cause_text cause in
    let mark : ℕ → Db → Result (WorkRow × Db) =
      λ n. mark_failed id (n + 1) (due base longest now n) text at in
    let scanned : WorkRow → M Db WorkItem = λ r. lift (scan_work_item r) in
    let read : M Db ℕ = query (load_attempts id) in
    let (n, e₁, e₂, q₁) = >>=-eq-ok read (λ n. exec (mark n) >>= scanned) s h in
    let (row, e₃, e₄, q₂) = >>=-eq-ok (exec (mark n)) scanned (read s).1 e₂ in
    let (loaded, same) = query-eq-ok (load_attempts id) s e₁ in
    let marked = exec-eq-ok (mark n) (read s).1 e₃ in
    let left : Db = (exec (mark n) (read s).1).1.db in
    let (r, done) =
      statements-Rescheduled (due base longest now) id n at text row item s.db left loaded
        (subst (λ db. mark n db ≡ ok (row, left)) same marked) e₄ in
    (
      r,
      subst (Rescheduled id (due base longest now r.attempts) at text r item s.db)
          (ap (λ (p : Result WorkItem × Session Db). p.1.db) (sym (q₁ ∙ q₂))) done,
    )

pub fail-Rescheduled :
    (base longest id : ℕ) (cause : Option String) (now : ℕ) (s : Session Db) (item : WorkItem)
    → (fail base longest id cause now s).0 ≡ ok item
    → (r : WorkRow) × Rescheduled id
        (due base longest now r.attempts)
        (format_time now)
        (cause_text cause)
        r
        item
        s.db
        (fail base longest id cause now s).1.db
unfolding fail
fail-Rescheduled base longest id cause now s item h =
    let body = fail_body base longest id cause now in
    let (t, start, ends, left) = transaction-eq-ok body s h in
    let (r, done) = fail_body-Rescheduled base longest id cause now t item ends in
    (
      r,
      subst
          (Rescheduled id (due base longest now r.attempts) (format_time now) (cause_text cause) r
            item s.db)
          (sym left)
          (subst
            (λ db.
              Rescheduled id (due base longest now r.attempts) (format_time now) (cause_text cause)
                r item db (body t).1.db)
            start done),
    )

resting :
    (id due at t : ℕ) (text : String) (r : WorkRow)
    → t < due
    → is_ready t (touch at (rescheduled (r.attempts + 1) due text r)) ≡ false
resting id due at t text r h = ground arith

-- When Fail has recorded a failure of a row, a Dequeue that comes next does not return that row before
-- the second in which its backoff ends: the time of the failure and the geometric delay for one more
-- than the attempts that it had.
pub fail-then-dequeue :
    (base longest : ℕ) (cause : Option String) (now later : ℕ) (s : Session Db) (row : WorkRow)
    (item next_item : WorkItem)
    → IsValid s.db
    → In row s.db.work
    → (fail base longest row.id cause now s).0 ≡ ok item
    → format_time later < format_time (now + geometric (row.attempts + 1) base longest)
    → (dequeue later (fail base longest row.id cause now s).1).0 ≡ ok next_item
    → next_item.id ≢ row.id
fail-then-dequeue base longest cause now later s row item next_item v old failed_ok early taken
      same =
    let id = row.id in
    let t = (fail base longest id cause now s).1 in
    let (r, done) = fail-Rescheduled base longest id cause now s item failed_ok in
    let limit = due base longest now r.attempts in
    let at = format_time now in
    let text = cause_text cause in
    let asleep = touch at (rescheduled (r.attempts + 1) limit text r) in
    let (w, i, ready, w_is, _, _) = dequeue-first later t next_item taken in
    let v' = fail-Keeps base longest id cause now s v in
    let here : In asleep t.db.work = rw (done.work) (
      In-update_hit (is_claimed id) (λ x. touch at (rescheduled (r.attempts + 1) limit text x)) r
        s.db.work done.found done.claimed) in
    let r_id : r.id ≡ id = let c = done.claimed in ground arith in
    let is_it : w ≡ asleep = same_id-eq t.db w asleep v' i here (sym w_is ∙ same ∙ sym r_id) in
    let same_row : row ≡ r = same_id-eq s.db row r v old done.found (sym r_id) in
    let rests = resting id limit at (format_time later) text r (
      subst (λ (k : WorkRow). format_time later < due base longest now k.attempts) same_row
        early) in
    let clash : true ≡ false = sym ready ∙ ap (is_ready (format_time later)) is_it ∙ rests in cc
