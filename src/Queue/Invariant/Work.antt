-- ===== src/Queue/Invariant/Work.antt =====
-- Dequeue, Complete, Release, Fail and Retry (internal/queue/queue.go) and the invariant of the
-- work_queue table.
use mxlrc_go.Common.{
  zero, suc, Option, ◌+◌, ◌&&◌, ℕ, ◌≡◌, refl, Bool, true, String, List, some, inl, inr, arith,
  Option-cases, In, In-select, select, ==_iff,
}
use mxlrc_go.Common.Sorting.{In-order_by, In-head?}
use mxlrc_go.Store.Tables.{
  is_failed, Status, ScanRow, failed, Db, WorkRow, is_retryable, has_id, pending, processing, done,
}
use mxlrc_go.Store.Session.{
  not_retryable, throw, query, err, no_rows, attempt, Result, ok, M, exec, lift, pure, ◌>>=◌,
}
use mxlrc_go.Store.Keeps.{
  throw-Keeps, query-Keeps, Keeps, Preserves, exec-Keeps, pure-Keeps, lift-Keeps, >>=-Keeps,
  transaction-Keeps,
}
use mxlrc_go.Store.Valid.{
  update_counting-IsValid, update_returning-IsValid, IsValid, IsHarmless, same_work-IsValid,
  same_id-eq,
}
use mxlrc_go.Queue.Items.{WorkItem, scan_work_item, format_time}
use mxlrc_go.Queue.Work.{
  load_attempts, row_exists, cause_text, fail_body, reset_scans, complete_body, retry_body, retry,
  release, require_affected, dequeue, retry_outcome, write_back, complete, fail, mark_failed,
  mark_released, mark_retried, claim, mark_done, before, is_ready, next_ready, is_claimed,
}
use mxlrc_go.Store.Statements.{set_scans}
use mxlrc_go.Backoff.{geometric}

pub next_ready-some :
    (now : ℕ) (work : List WorkRow) (r : WorkRow)
    → next_ready now work ≡ some r
    → In r work × (is_ready now r ≡ true)
unfolding next_ready
next_ready-some now work r h =
    In-select (is_ready now) r work
      (In-order_by before r (select (is_ready now) work) (In-head? _ h))

claim-IsHarmless :
    (now : ℕ) (db : Db) (r : WorkRow)
    → IsValid db
    → next_ready now db.work ≡ some r
    → IsHarmless db.work (has_id r.id) (λ w. record w { status = processing })
claim-IsHarmless now db r v e = record {
  same_id = λ w. refl;
  same_artist = λ w. refl;
  same_title = λ w. refl;
  row_ok = λ w i h k.
      let (j, ready) = next_ready-some now db.work r e in
      let same : w ≡ r = same_id-eq db w r v i j ((==_iff w.id r.id).0 h) in
      let fits : is_retryable w.status ≡ true = rw same (ground arith) in ground arith;
}

mark_done-IsHarmless :
    (id now : ℕ) (work : List WorkRow)
    → IsHarmless work
        (is_claimed id)
        (λ w. record w { status = done; completed_at = some now; last_error = "" })
mark_done-IsHarmless id now work = record {
  same_id = λ r. refl;
  same_artist = λ r. refl;
  same_title = λ r. refl;
  row_ok = λ r _ h v. ground arith;
}

mark_released-IsHarmless :
    (id : ℕ) (work : List WorkRow)
    → IsHarmless work (is_claimed id) (λ w. record w { status = pending; last_error = "" })
mark_released-IsHarmless id work = record {
  same_id = λ r. refl;
  same_artist = λ r. refl;
  same_title = λ r. refl;
  row_ok = λ r _ h v. ground arith;
}

mark_failed-IsHarmless :
    (id attempts next_at : ℕ) (last_error : String) (work : List WorkRow)
    → IsHarmless work (is_claimed id) (λ w. record w {
      status = failed;
      attempts = attempts + 1;
      next_attempt_at = next_at;
      last_error = last_error;
    })
mark_failed-IsHarmless id attempts next_at last_error work = record {
  same_id = λ r. refl;
  same_artist = λ r. refl;
  same_title = λ r. refl;
  row_ok = λ r _ h v. ground arith;
}

mark_retried-IsHarmless :
    (id at : ℕ) (work : List WorkRow)
    → IsHarmless work
        (λ r. has_id id r && is_failed r.status)
        (λ w. record w { status = pending; attempts = 0; next_attempt_at = at; last_error = "" })
mark_retried-IsHarmless id at work = record {
  same_id = λ r. refl;
  same_artist = λ r. refl;
  same_title = λ r. refl;
  row_ok = λ r _ h v. ground arith;
}

-- The statements.

claim-IsValid : (now : ℕ) → Preserves IsValid (claim now)
unfolding claim
claim-IsValid now db row db' v e = elim (Option-cases (next_ready now db.work)) [
  | inl miss ↦ absurd (ground arith)
  | inr (r, hit) ↦
      update_returning-IsValid (has_id r.id) (λ w. record w { status = processing }) now db row db'
        (claim-IsHarmless now db r v hit) v (ground arith)
]

mark_done-IsValid : (id now : ℕ) → Preserves IsValid (mark_done id now)
unfolding mark_done
mark_done-IsValid id now db n db' v e =
    update_counting-IsValid (is_claimed id) _ now db n db' (mark_done-IsHarmless id now db.work) v e

mark_released-IsValid : (id at : ℕ) → Preserves IsValid (mark_released id at)
unfolding mark_released
mark_released-IsValid id at db n db' v e =
    update_counting-IsValid (is_claimed id) _ at db n db' (mark_released-IsHarmless id db.work) v e

mark_failed-IsValid :
    (id attempts next_at : ℕ) (last_error : String) (at : ℕ)
    → Preserves IsValid (mark_failed id (attempts + 1) next_at last_error at)
unfolding mark_failed
mark_failed-IsValid id attempts next_at last_error at db row db' v e =
    update_returning-IsValid (is_claimed id) _ at db row db'
      (mark_failed-IsHarmless id attempts next_at last_error db.work) v e

mark_retried-IsValid : (id at : ℕ) → Preserves IsValid (mark_retried id at)
unfolding mark_retried
mark_retried-IsValid id at db row db' v e =
    update_returning-IsValid _ _ at db row db' (mark_retried-IsHarmless id at db.work) v e

set_scans-IsValid :
    (p : ScanRow → Bool) (status : Status) (db : Db) (u : Unit {0}) (db' : Db)
    → IsValid db
    → set_scans p status db ≡ ok (u, db')
    → IsValid db'
set_scans-IsValid p status db u db' v e = same_work-IsValid db db' (ground arith) (ground arith) v

-- The operations.

pub dequeue-Keeps : (now : ℕ) → Keeps IsValid (dequeue now)
unfolding dequeue
dequeue-Keeps now =
    >>=-Keeps IsValid (exec (claim (format_time now))) (λ row. lift (scan_work_item row))
      (exec-Keeps IsValid _ (claim-IsValid (format_time now)))
      (λ row. lift-Keeps IsValid (scan_work_item row))

require_affected-Keeps : (n : ℕ) → Keeps IsValid (require_affected n)
unfolding require_affected
require_affected-Keeps zero s v = v
require_affected-Keeps (suc n) s v = v

write_back-Keeps : (id : ℕ) → Keeps IsValid (exec (write_back id))
unfolding write_back
write_back-Keeps id = exec-Keeps IsValid _ λ db u db' v e. set_scans-IsValid _ done db u db' v e

pub complete-Keeps : (id now : ℕ) → Keeps IsValid (complete id now)
unfolding complete complete_body
complete-Keeps id now =
    let mark = mark_done id (format_time now) in
    transaction-Keeps IsValid (complete_body id now) (
      >>=-Keeps IsValid (exec mark) (λ n. require_affected n >>= λ _. exec (write_back id))
        (exec-Keeps IsValid mark (mark_done-IsValid id (format_time now)))
        λ n.
          >>=-Keeps IsValid (require_affected n) (λ _. exec (write_back id))
            (require_affected-Keeps n) (λ _. write_back-Keeps id))

pub release-Keeps : (id now : ℕ) → Keeps IsValid (release id now)
unfolding release
release-Keeps id now =
    let mark = mark_released id (format_time now) in
    >>=-Keeps IsValid (exec mark) require_affected
      (exec-Keeps IsValid mark (mark_released-IsValid id (format_time now))) require_affected-Keeps

pub fail-Keeps :
    (base limit id : ℕ) (cause : Option String) (now : ℕ)
    → Keeps IsValid (fail base limit id cause now)
unfolding fail fail_body
fail-Keeps base limit id cause now =
    let mark : ℕ → Db → Result (WorkRow × Db) = λ n.
      mark_failed id (n + 1) (format_time (now + geometric (n + 1) base limit)) (cause_text cause)
        (format_time now) in
    let scanned : WorkRow → M Db WorkItem = λ r. lift (scan_work_item r) in
    transaction-Keeps IsValid (fail_body base limit id cause now) (
      >>=-Keeps IsValid (query (load_attempts id)) (λ n. exec (mark n) >>= scanned)
        (query-Keeps IsValid (load_attempts id))
        λ n.
          >>=-Keeps IsValid (exec (mark n)) scanned
            (exec-Keeps IsValid (mark n)
              (mark_failed-IsValid id n _ (cause_text cause) (format_time now)))
            (λ r. lift-Keeps IsValid (scan_work_item r)))

retry_outcome-Keeps :
    (id : ℕ) (outcome : Result WorkItem) → Keeps IsValid (retry_outcome id outcome)
unfolding retry_outcome reset_scans
retry_outcome-Keeps id (ok item) =
    >>=-Keeps IsValid (exec (reset_scans id)) (λ _. pure item)
      (exec-Keeps IsValid (reset_scans id) λ db u db' v e. set_scans-IsValid _ pending db u db' v e)
      (λ _. pure-Keeps IsValid item)
retry_outcome-Keeps id (err no_rows) =
    >>=-Keeps IsValid (query (row_exists id)) (λ _. throw not_retryable)
      (query-Keeps IsValid (row_exists id)) (λ _. throw-Keeps IsValid WorkItem not_retryable)
retry_outcome-Keeps id (err e) = throw-Keeps IsValid WorkItem e

pub retry-Keeps : (id now : ℕ) → Keeps IsValid (retry id now)
unfolding retry retry_body
retry-Keeps id now =
    let mark = mark_retried id (format_time now) in
    let scanned : WorkRow → M Db WorkItem = λ r. lift (scan_work_item r) in
    let reset : M Db WorkItem = exec mark >>= scanned in
    transaction-Keeps IsValid (retry_body id now) (
      >>=-Keeps IsValid (attempt reset) (retry_outcome id)
        (>>=-Keeps IsValid (exec mark) scanned
          (exec-Keeps IsValid mark (mark_retried-IsValid id (format_time now)))
          (λ r. lift-Keeps IsValid (scan_work_item r)))
        (retry_outcome-Keeps id))
