-- ===== src/Queue/Laws/Completing.antt =====
-- Complete and Release (internal/queue/queue.go), and the calls that change all or nothing.
use mxlrc_go.Common.{
  In-update_other, sym, subst, some, ℕ, zero, suc, ◌≡◌, ◌≢◌, refl, ap, ◌∙◌, Bool, true, false, ◌&&◌,
  not, List, [], ◌∷◌, In, All, arith, update_where, any, count_where, if◌then◌else◌,
}
use mxlrc_go.Store.Tables.{touch, Db, ScanRow, done, is_done, Link, Status}
use mxlrc_go.Store.Session.{◌>>=◌, M, Session, ok, exec, Result}
use mxlrc_go.Queue.Work.{
  complete, write_back, mark_done, require_affected, complete_body, is_claimed, is_linked,
}
use mxlrc_go.Queue.Items.{format_time}
use mxlrc_go.Store.Outcomes.{transaction-eq-ok, exec-eq-ok, >>=-eq-ok}

is_done-eq : (s : Status) → is_done s ≡ true → s ≡ done
is_done-eq done h = refl
is_done-eq _ h = absurd (cc)

count_where-any : {A : Type 0} (p : A → Bool) (xs : List A) → count_where p xs ≢ 0 → any p xs ≡ true
count_where-any p [] h = absurd (h refl)
count_where-any p (x ∷ xs) h = ground (arith, count_where-any p xs)

write_back-done :
    (links : List Link) (id : ℕ) (scans : List ScanRow)
    → All
        (λ r. is_linked links id r.id ≡ true → r.status ≡ done)
        (update_where
          (λ r. is_linked links id r.id && not (is_done r.status))
          (λ r. record r { status = done })
          scans)
write_back-done links id [] = tt
write_back-done links id (r ∷ rs) = (linked_done, write_back-done links id rs)
  where
    linked_done :
        is_linked links id
            (if is_linked links id r.id && not (is_done r.status)
              then record r { status = done }
              else r).id
          ≡ true
        → (if is_linked links id r.id && not (is_done r.status)
            then record r { status = done }
            else r).status
          ≡ done
    linked_done h = ground (arith, is_done-eq r.status)

require_affected-eq-ok :
    (n : ℕ) (s : Session Db) {u : Unit {0}}
    → (require_affected n s).0 ≡ ok u
    → (n ≢ 0) × ((require_affected n s).1 ≡ s)
unfolding require_affected
require_affected-eq-ok zero s h = absurd (cc)
require_affected-eq-ok (suc n) s h = (λ e. omega arith, refl)

-- What Complete has done when it reports success.
pub record Completed (id at : ℕ) (db db' : Db) : Type 0 where
  pub claimed : any (is_claimed id) db.work ≡ true
  pub work :
      db'.work
      ≡ update_where
          (is_claimed id)
          (λ w. touch at (record w { status = done; completed_at = some at; last_error = "" }))
          db.work
  pub linked_done : All (λ r. is_linked db.links id r.id ≡ true → r.status ≡ done) db'.scans
  pub others_same :
      (r : ScanRow) → In r db.scans → is_linked db.links id r.id ≡ false → In r db'.scans
  pub links_same : db'.links ≡ db.links

-- The database after both statements.
abbrev finished : ℕ → ℕ → Db → Db
finished id at db = record db {
  work =
      update_where (is_claimed id)
        (λ w. touch at (record w { status = done; completed_at = some at; last_error = "" }))
        db.work;
  scans =
      update_where (λ r. is_linked db.links id r.id && not (is_done r.status))
        (λ r. record r { status = done }) db.scans;
}

statements-Completed :
    (id at n : ℕ) (db marked final : Db) (u : Unit {0})
    → mark_done id at db ≡ ok (n, marked)
    → n ≢ 0
    → write_back id marked ≡ ok (u, final)
    → Completed id at db final
unfolding mark_done write_back
statements-Completed id at n db marked final u e some_row e' =
    subst (Completed id at db) {x = finished id at db} (ground arith) (record {
      claimed = count_where-any (is_claimed id) db.work (λ z. some_row (ground arith));
      work = refl;
      linked_done = write_back-done db.links id db.scans;
      others_same = λ r i other.
          In-update_other (λ r. is_linked db.links id r.id && not (is_done r.status)) _ r db.scans i
            (rw other refl);
      links_same = refl;
    })

complete_body-Completed :
    (id now : ℕ) (s : Session Db) {u : Unit {0}}
    → (complete_body id now s).0 ≡ ok u
    → Completed id (format_time now) s.db (complete_body id now s).1.db
unfolding complete_body
complete_body-Completed id now s h =
    let mark = mark_done id (format_time now) in
    let finish : ℕ → M Db (Unit {0}) = λ n. require_affected n >>= λ _. exec (write_back id) in
    let (n, e₁, e₂, q₁) = >>=-eq-ok (exec mark) finish s h in
    let (u, e₃, e₄, q₂) =
      >>=-eq-ok (require_affected n) (λ _. exec (write_back id)) (exec mark s).1 e₂ in
    let (some_row, same) = require_affected-eq-ok n (exec mark s).1 e₃ in
    let written = exec-eq-ok (write_back id) (require_affected n (exec mark s).1).1 e₄ in
    subst (Completed id (format_time now) s.db)
      (ap (λ (p : Result (Unit {0}) × Session Db). p.1.db) (sym (q₁ ∙ q₂)))
      (statements-Completed id (format_time now) n s.db (exec mark s).1.db _ _
        (exec-eq-ok mark s e₁) some_row
        (ap (λ (t : Session Db). write_back id t.db) (sym same) ∙ written))

-- When Complete reports success, a row with the id was being processed; the rows with the id that were
-- are done, with the time of completion and no error text, and the other rows of the work queue are
-- as they were; every scan result linked to the id is done, each that is not linked is still there as
-- it was, and the links are unchanged.
pub complete-Completed :
    (id now : ℕ) (s : Session Db) {u : Unit {0}}
    → (complete id now s).0 ≡ ok u
    → Completed id (format_time now) s.db (complete id now s).1.db
unfolding complete
complete-Completed id now s h =
    let (t, start, ends, left) = transaction-eq-ok (complete_body id now) s h in
    subst (Completed id (format_time now) s.db) (sym left) (
      subst (λ db. Completed id (format_time now) db (complete_body id now t).1.db) start
        (complete_body-Completed id now t ends))
