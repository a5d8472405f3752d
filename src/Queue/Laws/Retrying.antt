-- ===== src/Queue/Laws/Retrying.antt =====
-- Retry (internal/queue/queue.go): what it resets, and why it may refuse.
use mxlrc_go.Common.{
  subst, ◌⊎◌, ◌∙◌, ap, ◌≢◌, find_where-none, find_where, Option-cases, ℕ, ◌≡◌, refl, true, false,
  ◌&&◌, All, arith, any, inl, inr,
}
use mxlrc_go.Store.Tables.{Db, has_id, is_failed}
use mxlrc_go.Store.Session.{
  sql_failure, pure, throw, query, lift, ◌>>=◌, Session, ok, err, exec, M, Result, not_retryable,
  no_rows, Error,
}
use mxlrc_go.Queue.Work.{reset_scans, retry, retry_body, retry_outcome, row_exists, mark_retried}
use mxlrc_go.Queue.Items.{format_time, WorkItem, scan_work_item}
use mxlrc_go.Store.Outcomes.{
  query-eq-ok, query-eq-err, exec_error, transaction-eq-err, exec-eq-err, >>=-eq-err,
}
use mxlrc_go.Queue.Laws.Claiming.{scan_work_item-eq-err}

mark_retried-no_rows :
    (id at : ℕ) (db : Db)
    → mark_retried id at db ≡ err no_rows
    → All (λ r. has_id id r && is_failed r.status ≡ false) db.work
unfolding mark_retried
mark_retried-no_rows id at db h =
    elim (Option-cases (find_where (λ r. has_id id r && is_failed r.status) db.work)) [
      | inl miss ↦ find_where-none _ db.work miss
      | inr (r, hit) ↦ absurd (ground arith)
    ]

mark_retried_error : (id at : ℕ) (db : Db) {e : Error} → mark_retried id at db ≡ err e → e ≡ no_rows
unfolding mark_retried
mark_retried_error id at db h = ground arith

-- The first part of Retry: the UPDATE and its row.
abbrev reset : ℕ → ℕ → M Db WorkItem
reset id at = exec (mark_retried id at) >>= λ row. lift (scan_work_item row)

-- It ends with no rows only if no failed row has the id, and then it has changed nothing.
reset-no_rows :
    (id at : ℕ) (t : Session Db)
    → (reset id at t).0 ≡ err no_rows
    → All (λ r. has_id id r && is_failed r.status ≡ false) t.db.work × ((reset id at t).1.db ≡ t.db)
reset-no_rows id at t h =
    elim (>>=-eq-err (exec (mark_retried id at)) (λ row. lift (scan_work_item row)) t h) [
      | inl (e, same) ↦ elim (exec-eq-err (mark_retried id at) t e) [
        | inl driver ↦ absurd (cc)
        | inr none_failed ↦ (
          mark_retried-no_rows id at t.db none_failed,
          ap (λ (u : Session Db). u.db) same ∙ exec_error (mark_retried id at) t e,
        )
      ]
      | inr (row, _, e) ↦ let bad = scan_work_item-eq-err row no_rows e in absurd (cc)
    ]

reset-ne-not_retryable : (id at : ℕ) (t : Session Db) → (reset id at t).0 ≢ err not_retryable
reset-ne-not_retryable id at t h =
    elim (>>=-eq-err (exec (mark_retried id at)) (λ row. lift (scan_work_item row)) t h) [
      | inl (e, _) ↦ elim (exec-eq-err (mark_retried id at) t e) [
        | inl driver ↦ cc
        | inr own ↦ let n = mark_retried_error id at t.db own in cc
      ]
      | inr (row, _, e) ↦ let bad = scan_work_item-eq-err row not_retryable e in cc
    ]

reset_scans_error :
    (id : ℕ) (item : WorkItem) (t : Session Db) {e : Error}
    → (retry_outcome id (ok item) t).0 ≡ err e
    → e ≡ sql_failure
unfolding retry_outcome reset_scans
reset_scans_error id item t h = elim (>>=-eq-err (exec (reset_scans id)) (λ _. pure item) t h) [
  | inl (e, _) ↦ elim (exec-eq-err (reset_scans id) t e) [
    | inl driver ↦ driver
    | inr own ↦ absurd (ground arith)
  ]
  | inr (_, _, e) ↦ absurd (cc)
]

row_exists-eq-err :
    (id : ℕ) (db : Db) {e : Error} → row_exists id db ≡ err e → any (has_id id) db.work ≡ false
row_exists-eq-err id db h = ground arith

row_exists-eq-ok :
    (id : ℕ) (db : Db) {u : Unit {0}} → row_exists id db ≡ ok u → any (has_id id) db.work ≡ true
row_exists-eq-ok id db h = ground arith

existence-no_rows :
    (id : ℕ) (t : Session Db)
    → (retry_outcome id (err no_rows) t).0 ≡ err no_rows
    → any (has_id id) t.db.work ≡ false
unfolding retry_outcome
existence-no_rows id t h =
    elim (>>=-eq-err (query (row_exists id)) (λ _. throw {A = WorkItem} not_retryable) t h) [
      | inl (e, _) ↦ elim (query-eq-err (row_exists id) t e) [
        | inl driver ↦ absurd (cc)
        | inr missing ↦ row_exists-eq-err id t.db missing
      ]
      | inr (_, _, e) ↦ absurd (cc)
    ]

existence-not_retryable :
    (id : ℕ) (t : Session Db)
    → (retry_outcome id (err no_rows) t).0 ≡ err not_retryable
    → any (has_id id) t.db.work ≡ true
unfolding retry_outcome
existence-not_retryable id t h =
    elim (>>=-eq-err (query (row_exists id)) (λ _. throw {A = WorkItem} not_retryable) t h) [
      | inl (e, _) ↦ elim (query-eq-err (row_exists id) t e) [
        | inl driver ↦ absurd (cc)
        | inr missing ↦ absurd (ground arith)
      ]
      | inr (_, e, _) ↦ row_exists-eq-ok id t.db (query-eq-ok (row_exists id) t e).0
    ]

-- The outcomes of the UPDATE that lead to one of the two refusals.
outcome-refusal :
    (id : ℕ) (o : Result WorkItem) (t : Session Db) (e : Error)
    → (retry_outcome id o t).0 ≡ err e
    → (e ≡ no_rows) ⊎ (e ≡ not_retryable)
    → (o ≡ err no_rows) ⊎ (o ≡ err not_retryable)
unfolding retry_outcome
outcome-refusal id (ok item) t e h which =
    let d = reset_scans_error id item t h in absurd (ground arith)
outcome-refusal id (err no_rows) t e h which = inl refl
outcome-refusal id (err not_retryable) t e h which = inr refl
outcome-refusal id (err other) t e h which = absurd (ground arith)

-- A refusal of the body comes from the existence check after an UPDATE that found no failed row.
body-refusal :
    (id now : ℕ) (t : Session Db) (e : Error)
    → (retry_body id now t).0 ≡ err e
    → (e ≡ no_rows) ⊎ (e ≡ not_retryable)
    → All (λ r. has_id id r && is_failed r.status ≡ false) t.db.work
      × (u : Session Db) × (u.db ≡ t.db)
      × ((retry_outcome id (err no_rows) u).0 ≡ err e)
unfolding retry_body
body-refusal id now t e h which =
    let first = reset id (format_time now) in
    elim (outcome-refusal id (first t).0 (first t).1 e h which) [
      | inl none_failed ↦
          let (others, same) = reset-no_rows id (format_time now) t none_failed in
          (others, (first t).1, same, rw none_failed at h)
      | inr odd ↦ absurd (reset-ne-not_retryable id (format_time now) t odd)
    ]

-- Retry reports a missing row only if the work queue has no row with the id, and "not retryable" only
-- if it has one and none with the id has failed. (The other errors are the driver's, or a row that
-- does not parse.)
pub retry_refusals :
    (id now : ℕ) (s : Session Db)
    → ((retry id now s).0 ≡ err no_rows → any (has_id id) s.db.work ≡ false)
      × ((retry id now s).0 ≡ err not_retryable
          → (any (has_id id) s.db.work ≡ true)
            × All (λ r. has_id id r && is_failed r.status ≡ false) s.db.work)
unfolding retry
retry_refusals id now s = (missing, refused)
  where
    missing : (retry id now s).0 ≡ err no_rows → any (has_id id) s.db.work ≡ false
    missing h = elim (transaction-eq-err (retry_body id now) s h) [
      | inl driver ↦ absurd (cc)
      | inr (t, start, ends) ↦
          let (_, u, same, stop) = body-refusal id now t no_rows ends (inl refl) in
          subst (λ db. any (has_id id) db.work ≡ false) (same ∙ start) (existence-no_rows id u stop)
    ]

    refused :
        (retry id now s).0 ≡ err not_retryable
        → (any (has_id id) s.db.work ≡ true)
          × All (λ r. has_id id r && is_failed r.status ≡ false) s.db.work
    refused h = elim (transaction-eq-err (retry_body id now) s h) [
      | inl driver ↦ absurd (cc)
      | inr (t, start, ends) ↦
          let (others, u, same, stop) = body-refusal id now t not_retryable ends (inr refl) in
          (
            subst (λ db. any (has_id id) db.work ≡ true) (same ∙ start)
                (existence-not_retryable id u stop),
            subst (λ db. All (λ r. has_id id r && is_failed r.status ≡ false) db.work) start others,
          )
    ]
