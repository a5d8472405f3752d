-- ===== src/Queue/Laws/Claiming.antt =====
-- Dequeue (internal/queue/queue.go): the choice among the ready rows.
use mxlrc_go.Common.{
  ◌⊎◌, ◌<◌, ◌≤◌, select-none, head?, find_where-found, find_where-some, find_where, select,
  update_where, ℕ, ◌≡◌, refl, ap, ◌∙◌, inl, inr, true, false, none, some, List, [], ◌∷◌, In, All,
  arith, Option-cases, ==_iff, In-select_of,
}
use mxlrc_go.Store.Tables.{processing, touch, has_id, Db, WorkRow}
use mxlrc_go.Store.Session.{bad_row, Error, Result, lift, Session, ok, err, exec, no_rows}
use mxlrc_go.Queue.Work.{is_ready, before, dequeue, claim, next_ready}
use mxlrc_go.Queue.Items.{unmarshal_output_paths, format_time, WorkItem, scan_work_item}
use mxlrc_go.Common.Sorting.{insert, order_by, head?-order_by}
use mxlrc_go.Store.Outcomes.{exec-eq-err, >>=-eq-err, exec-eq-ok, >>=-eq-ok}
use mxlrc_go.Queue.Invariant.Work.{next_ready-some}

before-total : (a b : WorkRow) → before a b ≡ false → before b a ≡ true
unfolding before
before-total a b h = ground arith

before_trans : (a b c : WorkRow) → before a b ≡ true → before b c ≡ true → before a c ≡ true
unfolding before
before_trans a b c h k = ground arith

before_refl : (a b : WorkRow) → a ≡ b → before a b ≡ true
unfolding before
before_refl a b e = ground arith

next_ready-first :
    (now : ℕ) (work : List WorkRow) (r w : WorkRow)
    → next_ready now work ≡ some r
    → In w work
    → is_ready now w ≡ true
    → before r w ≡ true
unfolding next_ready
next_ready-first now work r w h i k =
    elim (head?-order_by before before-total before_trans (select (is_ready now) work) h w
      (In-select_of (is_ready now) w work i k)) [ inl e ↦ before_refl r w e | inr b ↦ b ]

claim-eq-ok :
    (now : ℕ) (db db' : Db) (row : WorkRow)
    → claim now db ≡ ok (row, db')
    → (r : WorkRow) × (next_ready now db.work ≡ some r)
      × (row.id ≡ r.id)
      × (db' ≡ record db {
        work =
            update_where (has_id r.id) (λ w. touch now (record w { status = processing })) db.work;
      })
unfolding claim
claim-eq-ok now db db' row h = elim (Option-cases (next_ready now db.work)) [
  | inl miss ↦ absurd (ground arith)
  | inr (r, hit) ↦ elim (Option-cases (find_where (has_id r.id) db.work)) [
    | inl miss ↦ absurd (ground arith)
    | inr (w, found) ↦ (
      r,
      hit,
      (let i = find_where-some (has_id r.id) db.work w found in
          let same = (==_iff w.id r.id).0 i.1 in ground arith),
      ground arith,
    )
  ]
]

scan_work_item-id : (r : WorkRow) (item : WorkItem) → scan_work_item r ≡ ok item → item.id ≡ r.id
unfolding scan_work_item
scan_work_item-id r item h = ground arith

-- What the ORDER BY of Dequeue asks for: a higher priority, or the same and an earlier creation, or
-- both the same and an id that is not greater.
abbrev pub IsAhead : WorkRow → WorkRow → Type 0
IsAhead a b =
    (b.priority < a.priority)
    ⊎ ((a.priority ≡ b.priority)
        × ((a.created_at < b.created_at) ⊎ ((a.created_at ≡ b.created_at) × (a.id ≤ b.id))))

before-IsAhead : (a b : WorkRow) → before a b ≡ true → IsAhead a b
unfolding before
before-IsAhead a b h = ground arith

-- A dequeue that succeeds has taken a pending or failed row whose time had come, one that no other
-- such row precedes by priority, then age, then id; it has set that row to processing and has
-- changed nothing else.
pub dequeue-first :
    (now : ℕ) (s : Session Db) (item : WorkItem)
    → (dequeue now s).0 ≡ ok item
    → (r : WorkRow) × In r s.db.work
      × (is_ready (format_time now) r ≡ true)
      × (item.id ≡ r.id)
      × ((w : WorkRow) → In w s.db.work → is_ready (format_time now) w ≡ true → IsAhead r w)
      × ((dequeue now s).1.db ≡ record (s.db) {
        work =
            update_where
              (has_id r.id)
              (λ w. touch (format_time now) (record w { status = processing }))
              s.db.work;
      })
unfolding dequeue
dequeue-first now s item h =
    let at = format_time now in
    let (row, e, scanned, ends) =
      >>=-eq-ok (exec (claim at)) (λ row. lift (scan_work_item row)) s h in
    let (r, hit, same, changed) = claim-eq-ok at s.db _ row (exec-eq-ok (claim at) s e) in
    let (i, ready) = next_ready-some at s.db.work r hit in
    (
      r,
      i,
      ready,
      scan_work_item-id row item scanned ∙ same,
      λ w j k. before-IsAhead r w (next_ready-first at s.db.work r w hit j k),
      ap (λ (p : Result WorkItem × Session Db). p.1.db) ends ∙ changed,
    )

pub scan_work_item-eq-err : (r : WorkRow) (e : Error) → scan_work_item r ≡ err e → e ≡ bad_row
unfolding scan_work_item unmarshal_output_paths
scan_work_item-eq-err r e h = ground arith

claim-no_rows : (now : ℕ) (db : Db) → claim now db ≡ err no_rows → next_ready now db.work ≡ none
unfolding claim
claim-no_rows now db h = elim (Option-cases (next_ready now db.work)) [
  | inl miss ↦ miss
  | inr (r, hit) ↦
      let (i, _) = next_ready-some now db.work r hit in
      let found = find_where-found (has_id r.id) r db.work i ((==_iff r.id r.id).1 refl) in
      absurd (found (ground arith))
]

order_by-nil : (rows : List WorkRow) → head? (order_by before rows) ≡ none → rows ≡ []
order_by-nil [] h = refl
order_by-nil (r ∷ rows) h = absurd (insert-ne-nil r (order_by before rows) h)
  where
    insert-ne-nil : (a : WorkRow) (l : List WorkRow) → head? (insert before a l) ≡ none → ⊥
    insert-ne-nil a [] k = ground arith
    insert-ne-nil a (x ∷ l) k = ground arith

-- Dequeue reports an empty queue only when no pending or failed row is due.
pub dequeue-no_rows :
    (now : ℕ) (s : Session Db)
    → (dequeue now s).0 ≡ err no_rows
    → All (λ r. is_ready (format_time now) r ≡ false) s.db.work
unfolding dequeue next_ready
dequeue-no_rows now s h =
    let at = format_time now in
    elim (>>=-eq-err (exec (claim at)) (λ row. lift (scan_work_item row)) s h) [
      | inl (e, _) ↦ elim (exec-eq-err (claim at) s e) [
        | inl driver ↦ absurd (cc)
        | inr none_ready ↦
            select-none (is_ready at) s.db.work (order_by-nil _ (claim-no_rows at s.db none_ready))
      ]
      | inr (row, _, e) ↦ let bad = scan_work_item-eq-err row no_rows e in absurd (cc)
    ]
