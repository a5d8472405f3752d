-- ===== src/Store/Valid.antt =====
-- What holds of the work_queue table between two statements, and the changes that keep it.
use mxlrc_go.Common.{
  List, ℕ, suc, ◌<◌, ◌≡◌, subst, inl, inr, Bool, true, false, ◌||◌, [], ◌∷◌, ◌++◌, Option, none,
  some, All, In, All-In, All-append, All-update, All-delete, All-mono, All-zip, update_where,
  find_where, Option-cases, arith,
}
use mxlrc_go.Common.Pairs.{Pairwise, Pairwise-update, Pairwise-delete, Pairwise-snoc}
use mxlrc_go.Store.Keeps.{Preserves}
use mxlrc_go.Store.Statements.{update_returning, update_counting, delete_counting}
use mxlrc_go.Store.Tables.{
  Db, WorkRow, is_done, is_pending, is_failed, same_key, touch, delete_work,
}
use mxlrc_go.Store.Session.{ok}

abbrev pub is_some : Option ℕ → Bool
is_some none = false
is_some (some n) = true

-- completed_at is set on done rows only; an error text stands on neither pending nor done rows;
-- a failed row has been tried.
pub record RowOk (r : WorkRow) : Type 0 where
  pub completed : is_done r.status ≡ is_some r.completed_at
  pub quiet : is_pending r.status || is_done r.status ≡ true → r.last_error ≡ ""
  pub tried : is_failed r.status ≡ true → 0 < r.attempts

abbrev pub Apart : WorkRow → WorkRow → Type 0
Apart a b = (a.id < b.id) × (same_key b a ≡ false)

-- Each row is in order, ids ascend below the sequence number, and no two rows share a key.
pub record IsValid (db : Db) : Type 0 where
  pub rows : All RowOk db.work
  pub below : All (λ r. r.id < db.work_seq) db.work
  pub apart : Pairwise Apart db.work

-- An update of columns that neither the ids nor the keys show, which leaves each row in order.
pub record IsHarmless (work : List WorkRow) (p : WorkRow → Bool) (f : WorkRow → WorkRow)
    : Type 0 where
  pub same_id : (r : WorkRow) → (f r).id ≡ r.id
  pub same_artist : (r : WorkRow) → (f r).artist_key ≡ r.artist_key
  pub same_title : (r : WorkRow) → (f r).title_key ≡ r.title_key
  pub row_ok : (r : WorkRow) → In r work → p r ≡ true → RowOk r → RowOk (f r)

module _ (p : WorkRow → Bool) (f : WorkRow → WorkRow) (at : ℕ) (db : Db)
    (h : IsHarmless db.work p f) where
  open h use {same_id, same_artist, same_title, row_ok}

  abbrev updated : WorkRow → WorkRow
  updated r = touch at (f r)

  updated-RowOk : (r : WorkRow) → In r db.work → p r ≡ true → RowOk r → RowOk (updated r)
  updated-RowOk r i t k =
      let k' = row_ok r i t k in
      record { completed = k'.completed; quiet = k'.quiet; tried = k'.tried }

  Apart-left : (a b : WorkRow) → Apart a b → Apart (updated a) b
  Apart-left a b k = rw (same_id a, same_artist a, same_title a) k

  Apart-right : (a b : WorkRow) → Apart a b → Apart a (updated b)
  Apart-right a b k = rw (same_id b, same_artist b, same_title b) k

  pub update-IsValid : IsValid db → IsValid (record db { work = update_where p updated db.work })
  update-IsValid v = record {
    rows = All-update RowOk p updated db.work updated-RowOk v.rows;
    below = All-update _ p updated db.work (λ r _ _ k. rw (same_id r) k) v.below;
    apart = Pairwise-update Apart p updated Apart-left Apart-right db.work v.apart;
  }

pub insert-IsValid :
    (new : WorkRow) (db : Db)
    → RowOk new
    → new.id ≡ db.work_seq
    → All (λ r. same_key new r ≡ false) db.work
    → IsValid db
    → IsValid (record db { work = db.work ++ new ∷ []; work_seq = suc db.work_seq })
insert-IsValid new db good here other v = record {
  rows = All-append RowOk db.work (new ∷ []) v.rows (good, tt);
  below =
      All-append _ db.work (new ∷ [])
        (All-mono _ _ (λ r (h : r.id < db.work_seq). omega arith) db.work v.below)
        (omega arith, tt);
  apart =
      Pairwise-snoc Apart db.work new
        (All-zip (λ r. r.id < db.work_seq) (λ r. same_key new r ≡ false) (λ r. Apart r new)
          (λ r h k. (rw here h, k)) db.work v.below other)
        v.apart;
}

pub delete-IsValid : (p : WorkRow → Bool) (db : Db) → IsValid db → IsValid (delete_work p db)
delete-IsValid p db v = record {
  rows = All-delete RowOk p db.work v.rows;
  below = All-delete _ p db.work v.below;
  apart = Pairwise-delete Apart p db.work v.apart;
}

-- Ids tell rows apart.
same_id-Pairwise :
    (a b : WorkRow) (rows : List WorkRow)
    → Pairwise Apart rows
    → In a rows
    → In b rows
    → a.id ≡ b.id
    → a ≡ b
same_id-Pairwise a b [] h i j e = elim i [ ]
same_id-Pairwise a b (x ∷ xs) h (inl i) (inl j) e = cc
same_id-Pairwise a b (x ∷ xs) h (inl i) (inr j) e =
    let k = All-In (Apart x) xs h.0 j in absurd (ground arith)
same_id-Pairwise a b (x ∷ xs) h (inr i) (inl j) e =
    let k = All-In (Apart x) xs h.0 i in absurd (ground arith)
same_id-Pairwise a b (x ∷ xs) h (inr i) (inr j) e = same_id-Pairwise a b xs h.1 i j e

pub same_id-eq :
    (db : Db) (a b : WorkRow) → IsValid db → In a db.work → In b db.work → a.id ≡ b.id → a ≡ b
same_id-eq db a b v i j e = same_id-Pairwise a b db.work v.apart i j e

-- The statements that the work table is changed by.
pub update_returning-IsValid :
    (p : WorkRow → Bool) (f : WorkRow → WorkRow) (at : ℕ) (db : Db) (row : WorkRow) (db' : Db)
    → IsHarmless db.work p f
    → IsValid db
    → update_returning p f at db ≡ ok (row, db')
    → IsValid db'
update_returning-IsValid p f at db row db' h v e = elim (Option-cases (find_where p db.work)) [
  | inl miss ↦ absurd (ground arith)
  | inr (r, hit) ↦
      subst IsValid {x = record db { work = update_where p (λ w. touch at (f w)) db.work }}
        (ground arith) (update-IsValid p f at db h v)
]

pub update_counting-IsValid :
    (p : WorkRow → Bool) (f : WorkRow → WorkRow) (at : ℕ) (db : Db) (n : ℕ) (db' : Db)
    → IsHarmless db.work p f
    → IsValid db
    → update_counting p f at db ≡ ok (n, db')
    → IsValid db'
update_counting-IsValid p f at db n db' h v e =
    subst IsValid {x = record db { work = update_where p (λ w. touch at (f w)) db.work }} (cc)
      (update-IsValid p f at db h v)

pub delete_counting-IsValid : (p : WorkRow → Bool) → Preserves IsValid (delete_counting p)
delete_counting-IsValid p db n db' v e =
    subst IsValid {x = delete_work p db} (cc) (delete-IsValid p db v)

-- A change of the other tables.
pub same_work-IsValid :
    (db db' : Db) → db'.work ≡ db.work → db'.work_seq ≡ db.work_seq → IsValid db → IsValid db'
same_work-IsValid db db' e q v = record {
  rows = rw e v.rows;
  below = rw (e, q) v.below;
  apart = rw e v.apart;
}
