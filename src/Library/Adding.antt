-- ===== src/Library/Adding.antt =====
-- Add (internal/library/repository.go) and the row that it returns.
use mxlrc_go.Common.{
  ℕ, suc, ◌<◌, ◌≡◌, ◌∙◌, ap, sym, subst, String, false, List, [], ◌∷◌, ◌++◌, All, find_where, any,
  some, arith,
}
use mxlrc_go.Models.{Library}
use mxlrc_go.Store.Tables.{Db}
use mxlrc_go.Store.Session.{Session, M, Result, ok, lift, exec, ◌>>=◌}
use mxlrc_go.Store.Outcomes.{>>=-eq-ok, exec-eq-ok, query-eq-ok}
use mxlrc_go.Auth.Text.{trim_space}
use mxlrc_go.Queue.Items.{format_time}
use mxlrc_go.Library.{Root, has_path, is_library, validate, insert_library, one_row, get, add}

-- The row that Add inserts.
abbrev pub library_of : ℕ → Root → ℕ → Library
library_of id root at = record {
  id = id;
  path = root.path;
  name = root.name;
  created_at = at;
  updated_at = at;
}

validate-eq-ok :
    (path name : String) (root : Root)
    → validate path name ≡ ok root
    → root ≡ record { path = trim_space path; name = trim_space name }
unfolding validate
validate-eq-ok path name root h = ground arith

insert_library-eq-ok :
    (root : Root) (at id : ℕ) (db db' : Db)
    → insert_library root at db ≡ ok (id, db')
    → (id ≡ db.library_seq)
      × (any (has_path root.path) db.libraries ≡ false)
      × (db' ≡ record db {
        libraries = db.libraries ++ library_of db.library_seq root at ∷ [];
        library_seq = suc db.library_seq;
      })
unfolding insert_library
insert_library-eq-ok root at id db db' h = ground arith

find_where-new :
    (l : Library) (ls : List Library)
    → All (λ k. k.id < l.id) ls
    → find_where (is_library l.id) (ls ++ l ∷ []) ≡ some l
find_where-new l [] h = ground arith
find_where-new l (k ∷ ls) h = ground (arith, find_where-new l ls h.1)

-- Where the ids of the libraries are below the sequence number, an Add that succeeds returns the row
-- of the next id with the trimmed path and name; no library had that path, and the database has the
-- row in addition and is otherwise as it was.
pub add-eq-ok :
    (path name : String) (now : ℕ) (s : Session Db) (lib : Library)
    → All (λ l. l.id < s.db.library_seq) s.db.libraries
    → (add path name now s).0 ≡ ok lib
    → (lib
        ≡ library_of s.db.library_seq
            (record { path = trim_space path; name = trim_space name })
            (format_time now))
      × (any (has_path (trim_space path)) s.db.libraries ≡ false)
      × ((add path name now s).1.db ≡ record (s.db) {
        libraries = s.db.libraries ++ lib ∷ [];
        library_seq = suc s.db.library_seq;
      })
unfolding add get
add-eq-ok path name now s lib below h =
    let at = format_time now in
    let insert : Root → M Db ℕ = λ root. exec (insert_library root at) in
    let (root, checked, e₁, q₁) =
      >>=-eq-ok (lift (validate path name)) (λ root. insert root >>= get) s h in
    let (id, e₂, e₃, q₂) = >>=-eq-ok (insert root) get s e₁ in
    let u : Db = (insert root s).1.db in
    let trimmed = validate-eq-ok path name root checked in
    let (fresh, new_path, changed) =
      insert_library-eq-ok root at id s.db u (exec-eq-ok (insert_library root at) s e₂) in
    let (got, same) =
      query-eq-ok (λ (db : Db). one_row (find_where (is_library id) db.libraries)) (insert root s).1
        e₃ in
    let libs : List Library = s.db.libraries in
    let row : Library = library_of s.db.library_seq root at in
    let found : one_row (find_where (is_library id) u.libraries) ≡ ok row =
      ap (λ (db : Db). one_row (find_where (is_library id) db.libraries)) changed
      ∙ ap (λ i. one_row (find_where (is_library i) (libs ++ row ∷ []))) fresh
      ∙ ap one_row (find_where-new row libs below) in
    let both : ok lib ≡ ok row = sym got ∙ found in
    let back : lib ≡ row = cc in
    (
      back ∙ ap (λ r. library_of s.db.library_seq r at) trimmed,
      subst (λ (r : Root). any (has_path r.path) libs ≡ false) trimmed new_path,
      ap (λ (p : Result Library × Session Db). p.1.db) (q₁ ∙ q₂)
          ∙ same
          ∙ changed
          ∙ ap
              (λ l. record (s.db) {
                libraries = libs ++ l ∷ [];
                library_seq = suc s.db.library_seq;
              })
              (sym back),
    )
