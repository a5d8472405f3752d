-- ===== src/Queue/Cancel.antt =====
-- CancelByLibrary, CancelByLibraryTx and CountCancelByLibrary of internal/queue/queue.go.
use mxlrc_go.Common.{
  ℕ, ◌+◌, String, Bool, true, false, List, [], ◌∷◌, not, ◌&&◌, leb, ◌==◌, text_eq, if◌then◌else◌,
  select, any, length, map,
}
use mxlrc_go.Common.Sorting.{order_by}
use mxlrc_go.Models.{OutputPath}
use mxlrc_go.Store.Tables.{
  Db, WorkRow, StoredPaths, blank, encoded, malformed, is_retryable, has_id,
}
use mxlrc_go.Store.Session.{
  Result, ok, err, bad_row, M, exec, query, lift, pure, boundary, transaction, ◌>>=◌, ◌>>◌,
}
use mxlrc_go.Queue.Items.{format_time}
use mxlrc_go.Store.Statements.{update_counting, delete_counting}
use mxlrc_go.Queue.Work.{is_linked}

pub record Candidate : Type 0 where
  pub id : ℕ
  pub output_paths : StoredPaths

-- The row is linked to a scan result of the library.
abbrev pub derives_from : ℕ → Db → WorkRow → Bool
derives_from library db r =
    any (λ s. is_linked db.links r.id s.id && s.library_id == library) db.scans

unfoldable pub candidates : ℕ → Db → List Candidate
candidates library db =
    map (λ r. record { id = r.id; output_paths = r.output_paths })
      (order_by (λ a b. leb a.id b.id)
        (select (λ r. is_retryable r.status && derives_from library db r) db.work))

-- The two parts of a key are separated by a NUL, which no path holds.
abbrev pub output_path_key : OutputPath → String × String
output_path_key p = (p.outdir, p.filename)

abbrev pub same_path : OutputPath → OutputPath → Bool
same_path p q =
    text_eq (output_path_key p).0 (output_path_key q).0
    && text_eq (output_path_key p).1 (output_path_key q).1

-- The destinations of the row's scan results in other libraries.
unfoldable pub keep_set_for_row : ℕ → ℕ → Db → List OutputPath
keep_set_for_row work_id library db =
    map (λ s. record { outdir = s.outdir; filename = s.filename })
      (select (λ s. is_linked db.links work_id s.id && not (s.library_id == library)) db.scans)

abbrev pub decode_paths : StoredPaths → Result (List OutputPath)
decode_paths blank = ok []
decode_paths (encoded paths) = ok paths
decode_paths malformed = err bad_row

abbrev pub kept : List OutputPath → List OutputPath → List OutputPath
kept keep paths = select (λ p. any (same_path p) keep) paths

pub record Tally : Type 0 where
  pub deleted : ℕ
  pub updated : ℕ

abbrev pub is_open : ℕ → WorkRow → Bool
is_open i r = has_id i r && is_retryable r.status

abbrev pub count_if_one : ℕ → ℕ → ℕ
count_if_one n total = if n == 1 then total + 1 else total

-- The body of the loop over the candidates, after the keep set and the paths are read.
unfoldable pub cancel_row :
    (dry_run : Bool) → (at : ℕ) → Candidate → List OutputPath → List OutputPath → Tally → M Db Tally
cancel_row dry_run at c paths filtered t =
    if length filtered == 0
    then (if dry_run then pure (record t { deleted = t.deleted + 1 }) else do
      n ← exec (delete_counting (is_open c.id))
      pure (record t { deleted = count_if_one n t.deleted }))
    else if length filtered == length paths
    then pure t
    else if dry_run
    then pure (record t { updated = t.updated + 1 })
    else do
      n ←
          exec
            (update_counting (is_open c.id) (λ w. record w { output_paths = encoded filtered }) at)
      pure (record t { updated = count_if_one n t.updated })

unfoldable pub cancel_one : (dry_run : Bool) → (at library : ℕ) → Candidate → Tally → M Db Tally
unfolding cancel_row keep_set_for_row
cancel_one dry_run at library c t = do
  keep ← query (λ db. ok (keep_set_for_row c.id library db))
  paths ← lift (decode_paths c.output_paths)
  cancel_row dry_run at c paths (kept keep paths) t

unfoldable pub cancel_all :
    (dry_run : Bool) → (at library : ℕ) → List Candidate → Tally → M Db Tally
unfolding cancel_one
cancel_all dry_run at library [] t = pure t
cancel_all dry_run at library (c ∷ cs) t =
    cancel_one dry_run at library c t >>= cancel_all dry_run at library cs

-- cancelByLibrary, and CancelByLibraryTx with `dry_run` false.
unfoldable pub cancel_by_library_tx : (dry_run : Bool) → (library now : ℕ) → M Db Tally
unfolding candidates cancel_all
cancel_by_library_tx dry_run library now = do
  cs ← query (λ db. ok (candidates library db))
  cancel_all dry_run (format_time now) library cs (record { deleted = 0; updated = 0 })

unfoldable pub cancel_by_library : (library now : ℕ) → M Db Tally
unfolding cancel_by_library_tx
cancel_by_library library now = transaction (cancel_by_library_tx false library now)

-- CountCancelByLibrary never commits.
unfoldable pub count_cancel_by_library : (library now : ℕ) → M Db Tally
unfolding cancel_by_library_tx
count_cancel_by_library library now s =
    let (r, s') = (do boundary; cancel_by_library_tx true library now) s in
    (r, record s' { db = s.db })
