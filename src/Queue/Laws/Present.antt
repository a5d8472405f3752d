-- ===== src/Queue/Laws/Present.antt =====
-- Rows of a track in the work queue, through Enqueue (internal/queue/queue.go).
use mxlrc_go.Common.{
  ap, sym, subst, ltb, if◌then◌else◌, ◌&&◌, eq_iff, ◌++◌, update_where, find_where, text_eq, leb,
  Bool, Option-cases, ℕ, String, List, any, true, refl, some, inl, inr, [], ◌∷◌, arith, ◌≡◌, ◌∙◌,
}
use mxlrc_go.Common.Pairs.{any-update}
use mxlrc_go.Models.{Inputs}
use mxlrc_go.Store.Tables.{Db, WorkRow, same_key, touch}
use mxlrc_go.Store.Session.{Result, pure, ◌>>=◌, exec, Session, lift, M, ok}
use mxlrc_go.Store.Keeps.{
  pure-Keeps, if-Keeps, exec-Keeps, lift-Keeps, >>=-Keeps, transaction-Keeps, Keeps, Preserves,
}
use mxlrc_go.Queue.Items.{scan_work_item, WorkItem, format_time}
use mxlrc_go.Queue.Enqueue.{
  enqueue_body, link_item, enqueue, link_scan, enqueue_row, upsert_work, new_row, merge,
}
use mxlrc_go.Store.Outcomes.{exec-eq-ok, >>=-eq-ok, transaction-eq-ok}

unfoldable pub is_for : (String → String) → Inputs → WorkRow → Bool
is_for normalize_key inputs r =
    text_eq (normalize_key inputs.track.artist_name) r.artist_key
    && text_eq (normalize_key inputs.track.track_name) r.title_key

-- The queue has a row with the normalized artist and title of the inputs.
abbrev pub HasRow : (String → String) → Inputs → Db → Type 0
HasRow normalize_key inputs db = any (is_for normalize_key inputs) db.work ≡ true

find_where-any :
    {A : Type 0} (p : A → Bool) (xs : List A) (a : A) → find_where p xs ≡ some a → any p xs ≡ true
find_where-any p [] a h = ground arith
find_where-any p (x ∷ xs) a h = ground (arith, find_where-any p xs a)

pub any-append :
    {A : Type 0} (p : A → Bool) (xs ys : List A) → any p xs ≡ true → any p (xs ++ ys) ≡ true
any-append p [] ys h = ground arith
any-append p (x ∷ xs) ys h = ground (arith, any-append p xs ys)

pub any-last :
    {A : Type 0} (p : A → Bool) (xs : List A) (a : A) → p a ≡ true → any p (xs ++ a ∷ []) ≡ true
any-last p [] a h = ground arith
any-last p (x ∷ xs) a h = ground (arith, any-last p xs a h)

any-merged :
    (normalize_key : String → String) (v : Inputs) (refresh : Bool) (at : ℕ) (new : WorkRow)
    (rows : List WorkRow)
    → any
        (is_for normalize_key v)
        (update_where (same_key new) (λ r. touch at (merge refresh new r)) rows)
      ≡ any (is_for normalize_key v) rows
unfolding is_for merge
any-merged normalize_key v refresh at new rows =
    any-update (is_for normalize_key v) (same_key new) (λ r. touch at (merge refresh new r))
      (λ r. refl) rows

module _ (normalize_key : String → String) (inputs : Inputs) (priority now : ℕ) where
  enqueue_row-HasRow :
      (v : Inputs)
      → Preserves (HasRow normalize_key v) (enqueue_row normalize_key inputs priority now)
  unfolding enqueue_row upsert_work
  enqueue_row-HasRow v db row db' h e =
      let new = new_row normalize_key inputs priority now db.work_seq in
      ground (
        arith,
        any-merged normalize_key v (leb 10 priority) (format_time now) new db.work,
        any-append (is_for normalize_key v) db.work (new ∷ []) h,
      )

  enqueue_row-eq-ok :
      (db db' : Db) {row : WorkRow}
      → enqueue_row normalize_key inputs priority now db ≡ ok (row, db')
      → HasRow normalize_key inputs db'
  unfolding enqueue_row upsert_work new_row is_for
  enqueue_row-eq-ok db db' e =
      let new = new_row normalize_key inputs priority now db.work_seq in
      elim (Option-cases (find_where (same_key new) db.work)) [
        | inl miss ↦ ground (
          arith,
          any-last (is_for normalize_key inputs) db.work new (
              ground (
                arith,
                (eq_iff new.artist_key new.artist_key).1 refl,
                (eq_iff new.title_key new.title_key).1 refl,
              )),
        )
        | inr (old, hit) ↦ ground (
          arith,
          any-merged normalize_key inputs (leb 10 priority) (format_time now) new db.work,
          find_where-any (is_for normalize_key inputs) db.work old hit,
        )
      ]

  link_scan-HasRow :
      (v : Inputs) (work_id scan_id : ℕ)
      → Preserves (HasRow normalize_key v) (link_scan work_id scan_id)
  unfolding link_scan
  link_scan-HasRow v work_id scan_id db u db' h e = ground arith

  unfoldable linking : WorkRow → M Db WorkItem
  linking row = lift (scan_work_item row) >>= link_item inputs

  linking-HasRow : (v : Inputs) (row : WorkRow) → Keeps (HasRow normalize_key v) (linking row)
  unfolding link_item linking
  linking-HasRow v row =
      let P = HasRow normalize_key v in
      >>=-Keeps P (lift (scan_work_item row)) (link_item inputs) (lift-Keeps P (scan_work_item row))
        λ item.
          >>=-Keeps P
            (if ltb 0 inputs.scan_result_id
              then exec (link_scan item.id inputs.scan_result_id)
              else pure tt)
            (λ _. pure item)
            (if-Keeps P (ltb 0 inputs.scan_result_id)
              (exec (link_scan item.id inputs.scan_result_id)) (pure tt)
              (exec-Keeps P (link_scan item.id inputs.scan_result_id)
                (link_scan-HasRow v item.id inputs.scan_result_id))
              (pure-Keeps P tt))
            (λ _. pure-Keeps P item)

  -- No Enqueue takes a track's row away.
  pub enqueue-HasRow :
      (v : Inputs) → Keeps (HasRow normalize_key v) (enqueue normalize_key inputs priority now)
  unfolding enqueue enqueue_body linking
  enqueue-HasRow v =
      let P = HasRow normalize_key v in
      transaction-Keeps P (enqueue_body normalize_key inputs priority now) (
        >>=-Keeps P (exec (enqueue_row normalize_key inputs priority now)) linking
          (exec-Keeps P (enqueue_row normalize_key inputs priority now) (enqueue_row-HasRow v))
          (linking-HasRow v))

  -- A successful Enqueue leaves a row for its track.
  pub enqueue-Present :
      (item : WorkItem) (s : Session Db)
      → (enqueue normalize_key inputs priority now s).0 ≡ ok item
      → HasRow normalize_key inputs (enqueue normalize_key inputs priority now s).1.db
  unfolding enqueue enqueue_body linking
  enqueue-Present item s h =
      let m = exec (enqueue_row normalize_key inputs priority now) in
      let (t, _, e, q) = transaction-eq-ok (enqueue_body normalize_key inputs priority now) s h in
      let (row, e₁, _, q₁) = >>=-eq-ok m linking t e in
      let made =
        enqueue_row-eq-ok t.db (m t).1.db
          (exec-eq-ok (enqueue_row normalize_key inputs priority now) t e₁) in
      subst (HasRow normalize_key inputs)
        (sym (q ∙ ap (λ (p : Result WorkItem × Session Db). p.1.db) q₁))
        (linking-HasRow inputs row (m t).1 made)
