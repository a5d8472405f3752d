-- ===== src/Library.antt =====
-- The repository of library roots (internal/library/repository.go). strings.TrimSpace is that of
-- Auth.Text.
pub mod Adding
use mxlrc_go.Common.{
  ℕ, suc, String, Bool, not, ◌&&◌, ◌==◌, leb, List, [], ◌∷◌, ◌++◌, map, Option, none, some, text_eq,
  if◌then◌else◌, find_where, update_where, delete_where, count_where, select, any, take, length,
}
use mxlrc_go.Common.Sorting.{order_by}
use mxlrc_go.Models.{Library}
use mxlrc_go.Store.Tables.{Db, ScanRow, scan_exists}
use mxlrc_go.Store.Session.{
  Result, ok, err, constraint, no_rows, empty_path, empty_name, ambiguous_name, M, exec, query,
  throw, lift, ◌>>=◌, ◌>>◌,
}
use mxlrc_go.Auth.Text.{trim_space}
use mxlrc_go.Queue.Items.{format_time}
use mxlrc_go.Queue.Work.{require_affected}
use mxlrc_go.Scan.Repository.{unlink}

abbrev pub has_path : String → Library → Bool
has_path path l = text_eq l.path path

abbrev pub is_library : ℕ → Library → Bool
is_library id l = l.id == id

-- What validate returns where it accepts.
pub record Root : Type 0 where
  pub path : String
  pub name : String

unfoldable pub validate : String → String → Result Root
unfolding trim_space
validate path name =
    if text_eq (trim_space path) ""
    then err empty_path
    else if text_eq (trim_space name) ""
    then err empty_name
    else ok (record { path = trim_space path; name = trim_space name })

-- The INSERT and its LastInsertId; the path is unique.
unfoldable pub insert_library : Root → ℕ → Db → Result (ℕ × Db)
insert_library root at db =
    if any (has_path root.path) db.libraries
    then err constraint
    else ok (
      db.library_seq,
      record db {
        libraries =
            db.libraries
            ++ (record {
              id = db.library_seq;
              path = root.path;
              name = root.name;
              created_at = at;
              updated_at = at;
            })
              ∷ [];
        library_seq = suc db.library_seq;
      },
    )

abbrev pub one_row : Option Library → Result Library
one_row none = err no_rows
one_row (some l) = ok l

unfoldable pub get : ℕ → M Db Library
get id = query (λ db. one_row (find_where (is_library id) db.libraries))

unfoldable pub add : (path name : String) → (now : ℕ) → M Db Library
unfolding validate insert_library get
add path name now = do
  root ← lift (validate path name)
  id ← exec (insert_library root (format_time now))
  get id

unfoldable pub list : M Db (List Library)
list = query (λ db. ok (order_by (λ a b. leb a.id b.id) db.libraries))

-- The rows of the query, at most two.
abbrev pub only_row : List Library → Result Library
only_row [] = err no_rows
only_row (l ∷ []) = ok l
only_row (l ∷ m ∷ ls) = err ambiguous_name

unfoldable pub get_by_name : String → M Db Library
unfolding trim_space
get_by_name name =
    if text_eq (trim_space name) ""
    then throw empty_name
    else query
        (λ db. only_row (take 2 (select (λ l. text_eq l.name (trim_space name)) db.libraries)))

-- The UPDATE of both columns, and the trigger on updated_at.
unfoldable pub set_root : ℕ → Root → ℕ → Db → Result (ℕ × Db)
set_root id root at db =
    if any (λ l. has_path root.path l && not (is_library id l)) db.libraries
      && any (is_library id) db.libraries
    then err constraint
    else ok (
      count_where (is_library id) db.libraries,
      record db {
        libraries =
            update_where (is_library id)
              (λ l. record l { path = root.path; name = root.name; updated_at = at }) db.libraries;
      },
    )

unfoldable pub update : ℕ → (path name : String) → (now : ℕ) → M Db Library
unfolding validate set_root require_affected get
update id path name now = do
  root ← lift (validate path name)
  n ← exec (set_root id root (format_time now))
  require_affected n
  get id

-- DELETE, with the cascades of the tables that refer to the library and its scan results.
unfoldable pub delete_library : ℕ → ℕ → Db → Result (ℕ × Db)
delete_library id at db =
    let gone = select (λ r. (r.library_id == id) && any (is_library id) db.libraries) db.scans in
    ok (
      count_where (is_library id) db.libraries,
      record db {
        libraries = delete_where (is_library id) db.libraries;
        scans = delete_where (λ r. scan_exists gone r.id) db.scans;
        links = delete_where (λ l. scan_exists gone l.scan_result_id) db.links;
        work = map (unlink at gone) db.work;
      },
    )

unfoldable pub remove : (id now : ℕ) → M Db (Unit {0})
unfolding delete_library require_affected
remove id now = do n ← exec (delete_library id (format_time now)); require_affected n
