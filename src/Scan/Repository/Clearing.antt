-- ===== src/Scan/Repository/Clearing.antt =====
-- ClearByLibrary and CountByLibrary (internal/scan/repository.go).
use mxlrc_go.Common.{
  ℕ, ◌∙◌, ap, sym, ◌≡◌, refl, Bool, List, [], ◌∷◌, count_where, delete_where, arith, ◌==◌,
}
use mxlrc_go.Store.Tables.{Db, ScanRow}
use mxlrc_go.Store.Session.{Session, ok}
use mxlrc_go.Store.Outcomes.{exec-eq-ok, query-eq-ok}
use mxlrc_go.Queue.Items.{format_time}
use mxlrc_go.Scan.Repository.{delete_scans, clear_by_library, count_by_library}

pub count-delete : (p : ScanRow → Bool) (xs : List ScanRow) → count_where p (delete_where p xs) ≡ 0
count-delete p [] = refl
count-delete p (x ∷ xs) = ground (arith, count-delete p xs)

count_by_library-eq-ok :
    (library_id n : ℕ) (s : Session Db)
    → (count_by_library library_id s).0 ≡ ok n
    → (n ≡ count_where (λ r. r.library_id == library_id) s.db.scans)
      × ((count_by_library library_id s).1.db ≡ s.db)
unfolding count_by_library
count_by_library-eq-ok library_id n s h =
    let (e, same) =
      query-eq-ok (λ (db : Db). ok (count_where (λ r. r.library_id == library_id) db.scans)) s h in
    (ground arith, same)

pub clear_by_library-eq-ok :
    (library_id now n : ℕ) (s : Session Db)
    → (clear_by_library library_id now s).0 ≡ ok n
    → (n ≡ count_where (λ r. r.library_id == library_id) s.db.scans)
      × ((clear_by_library library_id now s).1.db.scans
          ≡ delete_where (λ r. r.library_id == library_id) s.db.scans)
unfolding clear_by_library delete_scans
clear_by_library-eq-ok library_id now n s h =
    let e = exec-eq-ok (delete_scans library_id (format_time now)) s h in
    (ground arith, ground arith)

-- What CountByLibrary reports is what the next ClearByLibrary deletes, where neither fails, and a
-- count after it reports nothing left.
pub count-then-clear :
    (library_id now n m k : ℕ) (s : Session Db)
    → (count_by_library library_id s).0 ≡ ok n
    → (clear_by_library library_id now (count_by_library library_id s).1).0 ≡ ok m
    → (count_by_library library_id
        (clear_by_library library_id now (count_by_library library_id s).1).1).0
      ≡ ok k
    → (m ≡ n) × (k ≡ 0)
count-then-clear library_id now n m k s h₁ h₂ h₃ =
    let t = (count_by_library library_id s).1 in
    let u = (clear_by_library library_id now t).1 in
    let (counted, same) = count_by_library-eq-ok library_id n s h₁ in
    let (cleared, left) = clear_by_library-eq-ok library_id now m t h₂ in
    let (again, _) = count_by_library-eq-ok library_id k u h₃ in
    let p : ScanRow → Bool = λ r. r.library_id == library_id in
    (
      cleared ∙ ap (λ (db : Db). count_where p db.scans) same ∙ sym counted,
      again ∙ ap (count_where p) left ∙ count-delete p t.db.scans,
    )
