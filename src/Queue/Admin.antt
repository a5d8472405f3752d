-- ===== src/Queue/Admin.antt =====
-- The operator's side of DBQueue (internal/queue/queue.go): Cleanup, List, ClearDone, CountDone,
-- CountByStatus.
use mxlrc_go.Common.{
  ℕ, zero, suc, String, Bool, List, [], ◌∷◌, ◌++◌, Option, none, some, ◌&&◌, ◌==◌, text_eq,
  if◌then◌else◌, count_where, select, take,
}
use mxlrc_go.Common.Sorting.{order_by}
use mxlrc_go.Models.{Inputs}
use mxlrc_go.Store.Tables.{
  Db, WorkRow, Status, pending, processing, done, failed, is_done, is_retryable, status_eq,
}
use mxlrc_go.Store.Session.{Result, ok, err, M, exec, query, lift, ◌>>=◌}
use mxlrc_go.Store.Statements.{delete_counting}
use mxlrc_go.Queue.Items.{WorkItem, scan_work_item}
use mxlrc_go.Queue.Work.{before}

unfoldable pub cleanup : (String → String) → Inputs → M Db ℕ
cleanup normalize_key inputs = exec (
    delete_counting λ r.
      text_eq r.artist_key (normalize_key inputs.track.artist_name)
      && text_eq r.title_key (normalize_key inputs.track.track_name)
      && is_retryable r.status)

-- No status is no filter, and a limit of 0 is no cap.
pub record ListFilter : Type 0 where
  pub status : Option Status
  pub limit : ℕ

abbrev pub matches : Option Status → WorkRow → Bool
matches none r = Bool.true
matches (some s) r = status_eq s r.status

abbrev pub capped {ℓ} : {A : Type ℓ} → ℕ → List A → List A
capped zero xs = xs
capped (suc n) xs = take (suc n) xs

-- The rows.Next loop: the first row that does not scan ends it.
unfoldable pub scan_items : List WorkRow → Result (List WorkItem)
scan_items [] = ok []
scan_items (r ∷ rs) = elim (scan_work_item r) [
  | err e ↦ err e
  | ok item ↦ elim (scan_items rs) [ err e ↦ err e | ok items ↦ ok (item ∷ items) ]
]

unfoldable pub list : ListFilter → M Db (List WorkItem)
unfolding before scan_items
list filter = do
  rows ←
      query
        (λ db. ok (capped filter.limit (order_by before (select (matches filter.status) db.work))))
  lift (scan_items rows)

unfoldable pub clear_done : M Db ℕ
clear_done = exec (delete_counting (λ r. is_done r.status))

unfoldable pub count_done : M Db ℕ
count_done = query (λ db. ok (count_where (λ r. is_done r.status) db.work))

-- A GROUP BY has no group for a status that no row has.
abbrev pub group : Status → List WorkRow → List (Status × ℕ)
group s work =
    let n = count_where (λ r. status_eq s r.status) work in if n == 0 then [] else (s, n) ∷ []

unfoldable pub count_by_status : M Db (List (Status × ℕ))
count_by_status = query λ db. ok (
    group pending db.work
    ++ (group processing db.work ++ (group done db.work ++ group failed db.work)))
