-- ===== src/Queue/Work.antt =====
-- The worker's side of DBQueue (internal/queue/queue.go): Dequeue, Complete, Release, Fail, Retry.
use mxlrc_go.Common.{
  ℕ, zero, suc, ◌+◌, String, Bool, List, Option, none, some, not, ◌&&◌, ◌||◌, ltb, leb, ◌==◌,
  if◌then◌else◌, find_where, any, select, head?,
}
use mxlrc_go.Common.Sorting.{order_by}
use mxlrc_go.Backoff.{geometric}
use mxlrc_go.Store.Tables.{
  Db, WorkRow, Link, pending, processing, done, failed, is_processing, is_failed, is_done,
  is_retryable, has_id,
}
use mxlrc_go.Store.Session.{
  Result, ok, err, no_rows, not_retryable, M, exec, query, lift, pure, throw, attempt, transaction,
  ◌>>=◌, ◌>>◌,
}
use mxlrc_go.Store.Statements.{update_returning, update_counting, set_scans}
use mxlrc_go.Queue.Items.{WorkItem, format_time, scan_work_item}

-- ORDER BY priority DESC, created_at ASC, id ASC: `a` may stand before `b`.
unfoldable pub before : WorkRow → WorkRow → Bool
before a b =
    ltb b.priority a.priority
    || (a.priority == b.priority
        && (ltb a.created_at b.created_at || (a.created_at == b.created_at && leb a.id b.id)))

abbrev pub is_ready : ℕ → WorkRow → Bool
is_ready now r = is_retryable r.status && leb r.next_attempt_at now

unfoldable pub next_ready : ℕ → List WorkRow → Option WorkRow
unfolding before
next_ready now work = head? (order_by before (select (is_ready now) work))

unfoldable pub claim : ℕ → Db → Result (WorkRow × Db)
unfolding next_ready
claim now db = elim (next_ready now db.work) [
  | none ↦ err no_rows
  | some r ↦ update_returning (has_id r.id) (λ w. record w { status = processing }) now db
]

unfoldable pub dequeue : ℕ → M Db WorkItem
unfolding claim
dequeue now = do row ← exec (claim (format_time now)); lift (scan_work_item row)

abbrev pub is_claimed : ℕ → WorkRow → Bool
is_claimed i r = has_id i r && is_processing r.status

unfoldable pub mark_done : ℕ → ℕ → Db → Result (ℕ × Db)
mark_done id now =
    update_counting (is_claimed id)
      (λ w. record w { status = done; completed_at = some now; last_error = "" }) now

-- id IN (SELECT scan_result_id FROM work_queue_scan_results WHERE work_queue_id = ?)
abbrev pub is_linked : List Link → ℕ → ℕ → Bool
is_linked links work_id scan_id =
    any (λ l. l.work_queue_id == work_id && l.scan_result_id == scan_id) links

unfoldable pub write_back : ℕ → Db → Result (Unit {0} × Db)
write_back id db = set_scans (λ s. is_linked db.links id s.id && not (is_done s.status)) done db

unfoldable pub require_affected : ℕ → M Db (Unit {0})
require_affected zero = throw no_rows
require_affected (suc n) = pure tt

unfoldable pub complete_body : ℕ → ℕ → M Db (Unit {0})
unfolding mark_done write_back require_affected
complete_body id now = do
  n ← exec (mark_done id (format_time now))
  require_affected n
  exec (write_back id)

unfoldable pub complete : ℕ → ℕ → M Db (Unit {0})
unfolding complete_body
complete id now = transaction (complete_body id now)

unfoldable pub mark_released : ℕ → ℕ → Db → Result (ℕ × Db)
mark_released id at =
    update_counting (is_claimed id) (λ w. record w { status = pending; last_error = "" }) at

unfoldable pub release : ℕ → ℕ → M Db (Unit {0})
unfolding mark_released require_affected
release id now = do n ← exec (mark_released id (format_time now)); require_affected n

unfoldable pub load_attempts : ℕ → Db → Result ℕ
load_attempts id db = elim (find_where (is_claimed id) db.work) [
  | none ↦ err no_rows
  | some r ↦ ok r.attempts
]

-- The text of the cause, empty for nil.
abbrev pub cause_text : Option String → String
cause_text none = ""
cause_text (some e) = e

unfoldable pub mark_failed : ℕ → ℕ → ℕ → String → ℕ → Db → Result (WorkRow × Db)
mark_failed id attempts next_at last_error at =
    update_returning (is_claimed id)
      (λ w. record w {
        status = failed;
        attempts = attempts;
        next_attempt_at = next_at;
        last_error = last_error;
      })
      at

unfoldable pub fail_body : (base cap : ℕ) → ℕ → Option String → ℕ → M Db WorkItem
unfolding load_attempts mark_failed
fail_body base cap id cause now = do
  attempts ← query (load_attempts id)
  row ← exec (
      mark_failed id (attempts + 1) (format_time (now + geometric (attempts + 1) base cap))
        (cause_text cause) (format_time now))
  lift (scan_work_item row)

unfoldable pub fail : (base cap : ℕ) → ℕ → Option String → ℕ → M Db WorkItem
unfolding fail_body
fail base cap id cause now = transaction (fail_body base cap id cause now)

unfoldable pub mark_retried : ℕ → ℕ → Db → Result (WorkRow × Db)
mark_retried id at =
    update_returning (λ r. has_id id r && is_failed r.status)
      (λ w. record w { status = pending; attempts = 0; next_attempt_at = at; last_error = "" }) at

abbrev pub row_exists : ℕ → Db → Result (Unit {0})
row_exists id db = if any (has_id id) db.work then ok tt else err no_rows

unfoldable pub reset_scans : ℕ → Db → Result (Unit {0} × Db)
reset_scans id db = set_scans (λ s. is_linked db.links id s.id && is_processing s.status) pending db

-- What follows the UPDATE of Retry: the row, or the reason that there is none.
unfoldable pub retry_outcome : ℕ → Result WorkItem → M Db WorkItem
unfolding reset_scans
retry_outcome id (ok item) = do exec (reset_scans id); pure item
retry_outcome id (err no_rows) = do query (row_exists id); throw not_retryable
retry_outcome id (err e) = throw e

unfoldable pub retry_body : ℕ → ℕ → M Db WorkItem
unfolding mark_retried retry_outcome
retry_body id now = do
  outcome ← attempt (do row ← exec (mark_retried id (format_time now)); lift (scan_work_item row))
  retry_outcome id outcome

unfoldable pub retry : ℕ → ℕ → M Db WorkItem
unfolding retry_body
retry id now = transaction (retry_body id now)
