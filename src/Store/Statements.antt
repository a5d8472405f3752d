-- ===== src/Store/Statements.antt =====
-- The SQL statements that several operations of the repositories share.
use mxlrc_go.Common.{ℕ, Bool, none, some, find_where, update_where, count_where}
use mxlrc_go.Store.Tables.{Db, WorkRow, ScanRow, Status, touch, delete_work}
use mxlrc_go.Store.Session.{Result, ok, err, no_rows}

-- UPDATE work_queue … RETURNING, for an update of at most one row.
abbrev pub update_returning :
    (WorkRow → Bool) → (WorkRow → WorkRow) → ℕ → Db → Result (WorkRow × Db)
update_returning p f at db = elim (find_where p db.work) [
  | none ↦ err no_rows
  | some r ↦ ok (f r, record db { work = update_where p (λ w. touch at (f w)) db.work })
]

-- UPDATE work_queue …, with the number of rows that it affects.
abbrev pub update_counting : (WorkRow → Bool) → (WorkRow → WorkRow) → ℕ → Db → Result (ℕ × Db)
update_counting p f at db =
    ok (count_where p db.work, record db { work = update_where p (λ w. touch at (f w)) db.work })

-- DELETE …, with the number of rows that it affects.
abbrev pub delete_counting : (WorkRow → Bool) → Db → Result (ℕ × Db)
delete_counting p db = ok (count_where p db.work, delete_work p db)

abbrev pub set_scans : (ScanRow → Bool) → Status → Db → Result (Unit {0} × Db)
set_scans p status db =
    ok (tt, record db { scans = update_where p (λ s. record s { status = status }) db.scans })
