-- ===== src/Scan/Repository/Upserting.antt =====
-- Upsert (internal/scan/repository.go) and the statuses that the worker has recorded.
use mxlrc_go.Common.{
  ℕ, ◌≡◌, refl, subst, Bool-cases, Option-cases, inl, inr, false, List, [], ◌∷◌, ◌++◌, In,
  In-update_hit, In-update_other, find_where, update_where, arith,
}
use mxlrc_go.Models.{ScanResult}
use mxlrc_go.Store.Tables.{Db, ScanRow, Status}
use mxlrc_go.Store.Session.{Session, exec, ok}
use mxlrc_go.Store.Keeps.{Keeps, Preserves, exec-Keeps, >>=-Keeps, transaction-Keeps}
use mxlrc_go.Queue.Items.{format_time}
use mxlrc_go.Scan.Repository.{
  same_file, insert_status, new_scan, rescan, upsert_scan, upsert_result, upsert_results, upsert,
}

-- The same file of the same library, found at the same time, with the same id and status.
abbrev pub IsSameRecord : ScanRow → ScanRow → Type 0
IsSameRecord r w =
    (w.id ≡ r.id)
    × (w.library_id ≡ r.library_id)
    × (w.file_path ≡ r.file_path)
    × (w.status ≡ r.status)
    × (w.created_at ≡ r.created_at)

-- Each of the old rows is still there, with its status.
unfoldable pub Recorded : List ScanRow → List ScanRow → Type 0
Recorded old rows = (r : ScanRow) → In r old → (w : ScanRow) × In w rows × IsSameRecord r w

IsSameRecord-trans : (a b c : ScanRow) → IsSameRecord a b → IsSameRecord b c → IsSameRecord a c
IsSameRecord-trans a b c h k = ground arith

rescan-IsSameRecord : (new r : ScanRow) → IsSameRecord r (rescan false new r)
unfolding rescan
rescan-IsSameRecord new r = (refl, refl, refl, refl, refl)

update-Recorded :
    (new : ScanRow) (old rows : List ScanRow)
    → Recorded old rows
    → Recorded old (update_where (same_file new) (rescan false new) rows)
unfolding Recorded
update-Recorded new old rows h r i =
    let (w, j, e) = h r i in
    elim (Bool-cases (same_file new w)) [
      | inl hit ↦ (
        rescan false new w,
        In-update_hit (same_file new) (rescan false new) w rows j hit,
        IsSameRecord-trans r w (rescan false new w) e (rescan-IsSameRecord new w),
      )
      | inr other ↦ (w, In-update_other (same_file new) (rescan false new) w rows j other, e)
    ]

In-append : (a : ScanRow) (xs ys : List ScanRow) → In a xs → In a (xs ++ ys)
In-append a [] ys i = elim i [ ]
In-append a (x ∷ xs) ys (inl e) = inl e
In-append a (x ∷ xs) ys (inr i) = inr (In-append a xs ys i)

append-Recorded :
    (new : ScanRow) (old rows : List ScanRow) → Recorded old rows → Recorded old (rows ++ new ∷ [])
unfolding Recorded
append-Recorded new old rows h r i = let (w, j, e) = h r i in (w, In-append w rows (new ∷ []) j, e)

upsert_scan-Recorded :
    (old : List ScanRow) (new : ScanRow) (db db' : Db) {u : Unit {0}}
    → Recorded old db.scans
    → upsert_scan false new db ≡ ok (u, db')
    → Recorded old db'.scans
unfolding upsert_scan
upsert_scan-Recorded old new db db' h e =
    elim (Option-cases (find_where (same_file new) db.scans)) [
      | inl miss ↦
          subst (Recorded old) {x = db.scans ++ new ∷ []} (ground arith)
            (append-Recorded new old db.scans h)
      | inr (r, hit) ↦
          subst (Recorded old) {x = update_where (same_file new) (rescan false new) db.scans}
            (ground arith) (update-Recorded new old db.scans h)
    ]

upsert_result-Recorded :
    (old : List ScanRow) (library_id at : ℕ) (res : ScanResult Status)
    → Preserves (λ (db : Db). Recorded old db.scans) (upsert_result false library_id at res)
unfolding upsert_result
upsert_result-Recorded old library_id at res db u db' h e =
    elim (Option-cases (insert_status res.status)) [
      | inl none_given ↦ absurd (ground arith)
      | inr (s, given) ↦
          upsert_scan-Recorded old (new_scan library_id res s at db.scan_seq) db db' h
            (ground arith)
    ]

upsert_results-Keeps :
    (old : List ScanRow) (library_id at : ℕ) (results : List (ScanResult Status))
    → Keeps (λ (db : Db). Recorded old db.scans) (upsert_results false library_id at results)
unfolding upsert_results
upsert_results-Keeps old library_id at [] = λ s h. h
upsert_results-Keeps old library_id at (res ∷ results) =
    >>=-Keeps (λ (db : Db). Recorded old db.scans) (exec (upsert_result false library_id at res))
      (λ _. upsert_results false library_id at results)
      (exec-Keeps (λ (db : Db). Recorded old db.scans) (upsert_result false library_id at res)
        (upsert_result-Recorded old library_id at res))
      (λ _. upsert_results-Keeps old library_id at results)

-- An Upsert without ForceStatus, whether it succeeds or fails, leaves every scan result that was
-- there in the table, with its id, its file, its creation time and its status: a periodic scan does
-- not undo what the worker has recorded.
pub upsert-Recorded :
    (library_id now : ℕ) (results : List (ScanResult Status)) (s : Session Db)
    → Recorded s.db.scans (upsert false library_id now results s).1.db.scans
unfolding upsert Recorded
upsert-Recorded library_id now results s =
    transaction-Keeps (λ (db : Db). Recorded s.db.scans db.scans)
      (upsert_results false library_id (format_time now) results)
      (upsert_results-Keeps s.db.scans library_id (format_time now) results) s
      (λ r i. (r, i, (refl, refl, refl, refl, refl)))
