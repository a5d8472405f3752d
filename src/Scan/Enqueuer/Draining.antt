-- ===== src/Scan/Enqueuer/Draining.antt =====
-- EnqueuePending (internal/scan/enqueuer.go): what becomes of the results that it lists.
use mxlrc_go.Common.{
  ap, ◌&&◌, In-select, All-In, In-select_of, select, In-map, Bool, All-map, All-of_In, ==_iff, ◌==◌,
  All-mono, sym, ◌≢◌, subst, ℕ, String, List, All, ◌<◌, ◌⊎◌, map, refl, inl, inr, [], arith, ◌∙◌,
  ◌≡◌,
}
use mxlrc_go.Models.{ScanResult}
use mxlrc_go.Store.Tables.{status_eq, Db, ScanRow, Status, Link, pending, processing}
use mxlrc_go.Store.Session.{Session, Result, ok, ◌>>=◌}
use mxlrc_go.Store.Outcomes.{query-eq-ok, >>=-eq-ok, exec_unit_db}
use mxlrc_go.Scan.Repository.{by_id, list_where, scan_result, list_pending_by_library}
use mxlrc_go.Scan.Enqueuer.{check_context, enqueue_results, enqueue_pending}
use mxlrc_go.Scan.Enqueuer.Effects.{Linked}
use mxlrc_go.Common.Sorting.{In-order_by, In-order_by_of, order_by}
use mxlrc_go.Scan.Enqueuer.Due.{WasProcessing, Nothing, Due, same_db-Due, enqueue_results-Due}

abbrev listed : ℕ → ScanRow → Bool
listed library_id r = (r.library_id == library_id) && status_eq pending r.status

-- Before the loop every pending row is listed.
listed-Due :
    (library_id : ℕ) (db : Db)
    → Due library_id db.scans (map (λ res. res.id) (list_where (listed library_id) db)) Nothing db
unfolding list_where scan_result
listed-Due library_id db = All-of_In _ db.scans λ r i. (
  λ l e.
      In-map (λ (res : ScanResult Status). res.id) (scan_result r) _
        (In-map scan_result r _ (
          In-order_by_of by_id r (select (listed library_id) db.scans) (
            In-select_of (listed library_id) r db.scans i
              (ground (arith, (==_iff r.library_id library_id).1 l))))),
  λ e. inl (inl (r, i, refl, e)),
)

positive-ids :
    (library_id : ℕ) (db : Db)
    → All (λ (r : ScanRow). 0 < r.id) db.scans
    → All (λ (res : ScanResult Status). 0 < res.id) (list_where (listed library_id) db)
unfolding list_where scan_result
positive-ids library_id db h =
    All-map _ scan_result (order_by by_id (select (listed library_id) db.scans)) (
      All-of_In _ _ λ r i.
        All-In _ db.scans h (In-select (listed library_id) r db.scans (In-order_by by_id r _ i)).0)

-- What EnqueuePending leaves of a scan result.
abbrev pub TakenOn : ℕ → List ScanRow → List Link → ScanRow → Type 0
TakenOn library_id old links r =
    (r.library_id ≡ library_id → r.status ≢ pending)
    × (r.status ≡ processing → WasProcessing old r.id ⊎ Linked links r.id)

-- After EnqueuePending has succeeded, no scan result of the library is pending, and every result that
-- is being processed has a work item linked to it or was being processed before; the ids of scan
-- results are positive.
pub enqueue_pending-TakenOn :
    (normalize_key : String → String) (priority : ℕ) (now : ℕ → ℕ) (library_id : ℕ) (s : Session Db)
    {u : Unit {0}}
    → All (λ (r : ScanRow). 0 < r.id) s.db.scans
    → (enqueue_pending normalize_key priority now library_id s).0 ≡ ok u
    → let t = (enqueue_pending normalize_key priority now library_id s).1 in
      All (TakenOn library_id s.db.scans t.db.links) t.db.scans
unfolding enqueue_pending list_pending_by_library
enqueue_pending-TakenOn normalize_key priority now library_id s positive k =
    let old = s.db.scans in
    let loop = enqueue_results normalize_key priority now in
    let (_, _, e, q) =
      >>=-eq-ok check_context (λ _. list_pending_by_library library_id >>= loop) s k in
    let t = (check_context s).1 in
    let same : t.db ≡ s.db = exec_unit_db s in
    let (results, e', e'', q') = >>=-eq-ok (list_pending_by_library library_id) loop t e in
    let v = (list_pending_by_library library_id t).1 in
    let (answered, kept) = query-eq-ok (λ (db : Db). ok (list_where (listed library_id) db)) t e' in
    let read : list_where (listed library_id) s.db ≡ results =
      ap (list_where (listed library_id)) (sym same) ∙ ground arith in
    let start =
      same_db-Due library_id old (map (λ res. res.id) results) Nothing s.db v.db (kept ∙ same) (
        subst (λ rs. Due library_id old (map (λ res. res.id) rs) Nothing s.db) read
          (listed-Due library_id s.db)) in
    let ends =
      enqueue_results-Due normalize_key priority now library_id old results v
        (subst (All (λ (res : ScanResult Status). 0 < res.id)) read
          (positive-ids library_id s.db positive))
        start e'' in
    let done_all : Due library_id old [] Nothing
        (enqueue_pending normalize_key priority now library_id s).1.db =
      subst (λ (p : Result (Unit {0}) × Session Db). Due library_id old [] Nothing p.1.db)
        (sym (q ∙ q')) ends in
    All-mono _ _
      (λ r h.
        (λ l p. elim (h.0 l p) [ ], λ p. elim (h.1 p) [ inl known ↦ known | inr i ↦ elim i [ ] ]))
      _ done_all
