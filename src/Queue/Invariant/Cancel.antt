-- ===== src/Queue/Invariant/Cancel.antt =====
-- Cleanup, ClearDone and CancelByLibrary (internal/queue/queue.go) and the invariant of the
-- work_queue table.
use mxlrc_go.Common.{ℕ, ◌+◌, refl, Bool, false, List, [], ◌∷◌, String, length, ◌==◌}
use mxlrc_go.Models.{Inputs, OutputPath}
use mxlrc_go.Store.Tables.{is_done, Db, WorkRow, encoded}
use mxlrc_go.Store.Session.{ok, query, lift, M, exec, pure, ◌>>=◌}
use mxlrc_go.Queue.Cancel.{
  keep_set_for_row, candidates, kept, count_if_one, decode_paths, Tally, Candidate, is_open,
  cancel_by_library_tx, cancel_all, cancel_by_library, cancel_one, cancel_row,
}
use mxlrc_go.Store.Valid.{update_counting-IsValid, delete_counting-IsValid, IsValid, IsHarmless}
use mxlrc_go.Queue.Admin.{clear_done, cleanup}
use mxlrc_go.Store.Keeps.{
  lift-Keeps, query-Keeps, if-Keeps, transaction-Keeps, exec-Keeps, pure-Keeps, >>=-Keeps, Keeps,
}
use mxlrc_go.Store.Statements.{update_counting, delete_counting}
use mxlrc_go.Queue.Items.{format_time}

pub cleanup-Keeps : (nk : String → String) (inputs : Inputs) → Keeps IsValid (cleanup nk inputs)
unfolding cleanup
cleanup-Keeps nk inputs = exec-Keeps IsValid _ (delete_counting-IsValid _)

pub clear_done-Keeps : Keeps IsValid clear_done
unfolding clear_done
clear_done-Keeps = exec-Keeps IsValid _ (delete_counting-IsValid (λ r. is_done r.status))

rewrite-IsHarmless :
    (id : ℕ) (paths : List OutputPath) (work : List WorkRow)
    → IsHarmless work (is_open id) (λ w. record w { output_paths = encoded paths })
rewrite-IsHarmless id paths work = record {
  same_id = λ r. refl;
  same_artist = λ r. refl;
  same_title = λ r. refl;
  row_ok = λ r _ h v. record { completed = v.completed; quiet = v.quiet; tried = v.tried };
}

cancel_row-Keeps :
    (dry_run : Bool) (at : ℕ) (c : Candidate) (paths filtered : List OutputPath) (t : Tally)
    → Keeps IsValid (cancel_row dry_run at c paths filtered t)
unfolding cancel_row
cancel_row-Keeps dry_run at c paths filtered t =
    let tally : Tally → M Db Tally = λ u. pure u in
    let remove : M Db Tally = exec (delete_counting (is_open c.id)) >>= λ n.
    pure (record t { deleted = count_if_one n t.deleted }) in
    let write =
      update_counting (is_open c.id) (λ w. record w { output_paths = encoded filtered }) at in
    let rewrite : M Db Tally =
      exec write >>= λ n. pure (record t { updated = count_if_one n t.updated }) in
    if-Keeps IsValid (length filtered == 0) _ _
      (if-Keeps IsValid dry_run (tally (record t { deleted = t.deleted + 1 })) remove (λ s v. v)
        (>>=-Keeps IsValid (exec (delete_counting (is_open c.id))) _
          (exec-Keeps IsValid _ (delete_counting-IsValid (is_open c.id))) (λ n s v. v)))
      (if-Keeps IsValid (length filtered == length paths) (tally t) _ (λ s v. v)
        (if-Keeps IsValid dry_run (tally (record t { updated = t.updated + 1 })) rewrite (λ s v. v)
          (>>=-Keeps IsValid (exec write) _
            (exec-Keeps IsValid write λ db n db' v e.
              update_counting-IsValid (is_open c.id) _ at db n db'
                (rewrite-IsHarmless c.id filtered db.work) v e)
            (λ n s v. v))))

cancel_one-Keeps :
    (dry_run : Bool) (at library : ℕ) (c : Candidate) (t : Tally)
    → Keeps IsValid (cancel_one dry_run at library c t)
unfolding cancel_one
cancel_one-Keeps dry_run at library c t =
    let read : M Db (List OutputPath) = lift (decode_paths c.output_paths) in
    let rest : List OutputPath → List OutputPath → M Db Tally =
      λ keep paths. cancel_row dry_run at c paths (kept keep paths) t in
    >>=-Keeps IsValid (query (λ db. ok (keep_set_for_row c.id library db)))
      (λ keep. read >>= rest keep)
      (query-Keeps IsValid (λ db. ok (keep_set_for_row c.id library db)))
      λ keep.
        >>=-Keeps IsValid read (rest keep) (lift-Keeps IsValid (decode_paths c.output_paths))
          (λ paths. cancel_row-Keeps dry_run at c paths (kept keep paths) t)

cancel_all-Keeps :
    (dry_run : Bool) (at library : ℕ) (cs : List Candidate) (t : Tally)
    → Keeps IsValid (cancel_all dry_run at library cs t)
unfolding cancel_all
cancel_all-Keeps dry_run at library [] t = pure-Keeps IsValid t
cancel_all-Keeps dry_run at library (c ∷ cs) t =
    >>=-Keeps IsValid (cancel_one dry_run at library c t) (cancel_all dry_run at library cs)
      (cancel_one-Keeps dry_run at library c t) (cancel_all-Keeps dry_run at library cs)

pub cancel_by_library_tx-Keeps :
    (dry_run : Bool) (library now : ℕ) → Keeps IsValid (cancel_by_library_tx dry_run library now)
unfolding cancel_by_library_tx
cancel_by_library_tx-Keeps dry_run library now =
    let start : Tally = record { deleted = 0; updated = 0 } in
    >>=-Keeps IsValid (query (λ db. ok (candidates library db)))
      (λ cs. cancel_all dry_run (format_time now) library cs start)
      (query-Keeps IsValid (λ db. ok (candidates library db)))
      (λ cs. cancel_all-Keeps dry_run (format_time now) library cs start)

pub cancel_by_library-Keeps : (library now : ℕ) → Keeps IsValid (cancel_by_library library now)
unfolding cancel_by_library
cancel_by_library-Keeps library now =
    transaction-Keeps IsValid (cancel_by_library_tx false library now)
      (cancel_by_library_tx-Keeps false library now)
