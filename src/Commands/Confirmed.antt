-- ===== src/Commands/Confirmed.antt =====
-- The clear commands with and without --yes (internal/commands/commands.go).
use Prim.Native.String.{String}
use mxlrc_go.Common.{
  ◌==◌, ap, Option, subst, text_eq, ℕ, Bool, count_where, ◌⊎◌, true, false, refl, none, some, inl,
  inr, ◌∙◌, ◌≡◌,
}
use mxlrc_go.Models.{Library}
use mxlrc_go.Auth.Text.{trim_space}
use mxlrc_go.Config.Numbers.{ℤ, pos, negsuc, atoi}
use mxlrc_go.Library.{get, get_by_name}
use mxlrc_go.Store.Tables.{Db, ScanRow}
use mxlrc_go.Store.Session.{
  Session, Error, Result, ok, err, no_rows, empty_name, M, attempt, pure, throw, query, lift,
  transaction, ◌>>=◌,
}
use mxlrc_go.Store.Keeps.{Keeps, query-Keeps, throw-Keeps, if-Keeps, >>=-Keeps, lift-Keeps}
use mxlrc_go.Store.Outcomes.{transaction-eq-ok, transaction_error, >>=-eq-ok}
use mxlrc_go.Queue.Cancel.{Tally, cancel_by_library_tx}
use mxlrc_go.Scan.Repository.{clear_by_library}
use mxlrc_go.Scan.Repository.Clearing.{count-delete, clear_by_library-eq-ok}
use mxlrc_go.Commands.Libraries.{resolve_library, resolve_trimmed, resolve_either, get_id, chosen}
use mxlrc_go.Commands.Maintenance.{
  Exit, canceled, unresolved, clear_body, clear_library, cancel_exit, run_scan_clear,
}

module _ (P : Db → Type 0) where
  get_by_name-Keeps : (ref : String) → Keeps P (get_by_name ref)
  unfolding get_by_name
  get_by_name-Keeps ref =
      if-Keeps P (text_eq (trim_space ref) "") (throw empty_name) (query _)
        (throw-Keeps P Library empty_name) (query-Keeps P _)

  get_id-Keeps : (id : ℤ) → Keeps P (get_id id)
  unfolding get_id get
  get_id-Keeps (pos n) = query-Keeps P _
  get_id-Keeps (negsuc n) = query-Keeps P (λ db. err no_rows)

  resolve_either-Keeps : (id : ℤ) (ref : String) → Keeps P (resolve_either id ref)
  unfolding resolve_either
  resolve_either-Keeps id ref =
      >>=-Keeps P (attempt (get_id id))
        (λ by_id. attempt (get_by_name ref) >>= λ by_name. lift (chosen by_id by_name))
        (get_id-Keeps id)
        λ by_id.
          >>=-Keeps P (attempt (get_by_name ref)) (λ by_name. lift (chosen by_id by_name))
            (get_by_name-Keeps ref) (λ by_name. lift-Keeps P (chosen by_id by_name))

  resolve_trimmed-Keeps : (ref : String) (o : Option ℤ) → Keeps P (resolve_trimmed ref o)
  unfolding resolve_either
  resolve_trimmed-Keeps ref none = get_by_name-Keeps ref
  resolve_trimmed-Keeps ref (some id) = resolve_either-Keeps id ref

  -- Resolving a reference only reads.
  pub resolve_library-Keeps : (ref : String) → Keeps P (resolve_library ref)
  unfolding resolve_library
  resolve_library-Keeps ref =
      if-Keeps P (text_eq (trim_space ref) "") (throw empty_name)
        (resolve_trimmed (trim_space ref) (atoi (trim_space ref)))
        (throw-Keeps P Library empty_name)
        (resolve_trimmed-Keeps (trim_space ref) (atoi (trim_space ref)))

-- The command has deleted every scan result of the library, or it has changed nothing.
abbrev pub AllOrNothing : Result Library → Result Exit → Db → Db → Type 0
AllOrNothing found r before after =
    (exit : Exit) × (r ≡ ok exit)
    × (((exit.code ≡ 0)
          × ((lib : Library) × (found ≡ ok lib)
              × (count_where (λ s. s.library_id == lib.id) after.scans ≡ 0)))
        ⊎ ((exit.code ≡ 1) × (after ≡ before)))

clear_body-eq-ok :
    (lib : Library) (now : ℕ) (s : Session Db) {a : ℕ × Tally}
    → (clear_body lib now s).0 ≡ ok a
    → count_where (λ r. r.library_id == lib.id) (clear_body lib now s).1.db.scans ≡ 0
unfolding clear_body
clear_body-eq-ok lib now s h =
    let cancel = cancel_by_library_tx false lib.id now in
    let rest : Tally → M Db (ℕ × Tally) = λ t. clear_by_library lib.id now >>= λ n. pure (n, t) in
    let (t, _, e, q) = >>=-eq-ok cancel rest s h in
    let u = (cancel s).1 in
    let (n, e', _, q') = >>=-eq-ok (clear_by_library lib.id now) (λ n. pure (n, t)) u e in
    let (_, left) = clear_by_library-eq-ok lib.id now n u e' in
    let p : ScanRow → Bool = λ r. r.library_id == lib.id in
    ap (λ (x : Result (ℕ × Tally) × Session Db). count_where p x.1.db.scans) (q ∙ q')
    ∙ (ap (count_where p) left ∙ count-delete p u.db.scans)

unresolved_exits :
    (e : Error) (s : Session Db)
    → (exit : Exit) × ((unresolved e s).0 ≡ ok exit)
      × (exit.code ≡ 1)
      × ((unresolved e s).1.db ≡ s.db)
unresolved_exits no_rows s = (_, refl, refl, refl)
unresolved_exits e s = (_, refl, refl, refl)

canceled-AllOrNothing :
    (lib : Library) (r : Result (ℕ × Tally)) (before : Db) (t : Session Db)
    → ((a : ℕ × Tally) → r ≡ ok a → count_where (λ s. s.library_id == lib.id) t.db.scans ≡ 0)
    → ((e : Error) → r ≡ err e → t.db ≡ before)
    → AllOrNothing (ok lib) (cancel_exit canceled r t).0 before (cancel_exit canceled r t).1.db
canceled-AllOrNothing lib (ok (n, tally)) before t h k =
    (_, refl, inl (refl, (lib, refl, h (n, tally) refl)))
canceled-AllOrNothing lib (err e) before t h k = (_, refl, inr (refl, k e refl))

clear_library-AllOrNothing :
    (now : ℕ) (found : Result Library) (s : Session Db)
    → AllOrNothing found
        (clear_library true now found s).0
        s.db
        (clear_library true now found s).1.db
unfolding clear_library
clear_library-AllOrNothing now (err e) s =
    let (exit, e', one, same) = unresolved_exits e s in (exit, e', inr (one, same))
clear_library-AllOrNothing now (ok lib) s =
    let body = clear_body lib now in
    canceled-AllOrNothing lib (transaction body s).0 s.db (transaction body s).1
      (λ a h.
        let (t, _, e, q) = transaction-eq-ok body s h in
        ap (λ (db : Db). count_where (λ r. r.library_id == lib.id) db.scans) q
        ∙ clear_body-eq-ok lib now t e)
      (λ e h. transaction_error body s h)

-- `scan clear --yes` ends with exit code 0 and no scan result left of the library that its reference
-- resolves to, or with exit code 1 and a database that has not changed, whatever the driver refuses.
pub run_scan_clear-AllOrNothing :
    (ref : String) (now : ℕ) (s : Session Db)
    → AllOrNothing
        (resolve_library ref s).0
        (run_scan_clear ref true now s).0
        s.db
        (run_scan_clear ref true now s).1.db
unfolding run_scan_clear
run_scan_clear-AllOrNothing ref now s =
    let t = (resolve_library ref s).1 in
    let same : t.db ≡ s.db = resolve_library-Keeps (λ db. db ≡ s.db) ref s refl in
    subst
      (λ before.
        AllOrNothing (resolve_library ref s).0 (run_scan_clear ref true now s).0 before
          (run_scan_clear ref true now s).1.db)
      same (clear_library-AllOrNothing now (resolve_library ref s).0 t)
