-- ===== src/Scan/Repository.antt =====
-- The repository of scan results (internal/scan/repository.go).
pub mod Upserting
pub mod Clearing
use mxlrc_go.Common.{
  ℕ, zero, suc, String, Bool, true, false, ◌&&◌, ◌==◌, leb, List, [], ◌∷◌, ◌++◌, map, Option, none,
  some, text_eq, if◌then◌else◌, find_where, update_where, delete_where, count_where, select, any,
  take,
}
use mxlrc_go.Common.Sorting.{order_by}
use mxlrc_go.Models.{Track, ScanResult, StatusText, no_status, other_status, known_status}
use mxlrc_go.Store.Tables.{Db, ScanRow, WorkRow, Status, pending, status_eq, scan_exists, touch}
use mxlrc_go.Store.Session.{
  Result, ok, err, constraint, no_rows, unsupported_status, M, exec, query, pure, throw,
  transaction, ◌>>=◌, ◌>>◌,
}
use mxlrc_go.Queue.Items.{format_time}
use mxlrc_go.Queue.Work.{require_affected}

-- The unique index on (library_id, file_path).
abbrev pub same_file : ScanRow → ScanRow → Bool
same_file a b = (a.library_id == b.library_id) && text_eq a.file_path b.file_path

-- The status that is inserted; the CHECK constraint refuses other texts.
abbrev pub insert_status : StatusText Status → Option Status
insert_status no_status = some pending
insert_status (known_status s) = some s
insert_status other_status = none

-- The VALUES of the statement.
unfoldable pub new_scan : ℕ → ScanResult Status → Status → ℕ → ℕ → ScanRow
new_scan library_id res s at id = record {
  id = id;
  library_id = library_id;
  file_path = res.file_path;
  artist = res.track.artist_name;
  title = res.track.track_name;
  outdir = res.outdir;
  filename = res.filename;
  status = s;
  created_at = at;
}

-- ON CONFLICT(library_id, file_path) DO UPDATE SET: `new` is excluded.
unfoldable pub rescan : (force_status : Bool) → ScanRow → ScanRow → ScanRow
rescan force new old = record old {
  artist = new.artist;
  title = new.title;
  outdir = new.outdir;
  filename = new.filename;
  status = if force then new.status else old.status;
}

unfoldable pub upsert_scan : (force_status : Bool) → ScanRow → Db → Result (Unit {0} × Db)
unfolding rescan
upsert_scan force new db = elim (find_where (same_file new) db.scans) [
  | some _ ↦ ok (tt, record db { scans = update_where (same_file new) (rescan force new) db.scans })
  | none ↦
      if any (λ l. l.id == new.library_id) db.libraries
      then ok (tt, record db { scans = db.scans ++ new ∷ []; scan_seq = suc db.scan_seq })
      else err constraint
]

unfoldable pub upsert_result :
    (force_status : Bool) → (library_id at : ℕ) → ScanResult Status → Db → Result (Unit {0} × Db)
unfolding new_scan upsert_scan
upsert_result force library_id at res db = elim (insert_status res.status) [
  | none ↦ err constraint
  | some s ↦ upsert_scan force (new_scan library_id res s at db.scan_seq) db
]

unfoldable pub upsert_results :
    (force_status : Bool) → (library_id at : ℕ) → List (ScanResult Status) → M Db (Unit {0})
unfolding upsert_result
upsert_results force library_id at [] = pure tt
upsert_results force library_id at (res ∷ results) = do
  exec (upsert_result force library_id at res)
  upsert_results force library_id at results

unfoldable pub upsert :
    (force_status : Bool) → (library_id now : ℕ) → List (ScanResult Status) → M Db (Unit {0})
unfolding upsert_results
upsert force library_id now results =
    transaction (upsert_results force library_id (format_time now) results)

-- scanResultRows; the other fields of the track keep their zero values.
unfoldable pub scan_result : ScanRow → ScanResult Status
scan_result r = record {
  id = r.id;
  library_id = r.library_id;
  file_path = r.file_path;
  track = record {
    track_name = r.title;
    artist_name = r.artist;
    album_name = "";
    track_length = 0;
    instrumental = 0;
    has_lyrics = 0;
    has_subtitles = 0;
  };
  outdir = r.outdir;
  filename = r.filename;
  status = known_status r.status;
  created_at = r.created_at;
}

abbrev pub by_id : ScanRow → ScanRow → Bool
by_id a b = leb a.id b.id

unfoldable pub list_where : (ScanRow → Bool) → Db → List (ScanResult Status)
unfolding scan_result
list_where p db = map scan_result (order_by by_id (select p db.scans))

unfoldable pub list_by_library : ℕ → M Db (List (ScanResult Status))
unfolding list_where
list_by_library library_id = query (λ db. ok (list_where (λ r. r.library_id == library_id) db))

unfoldable pub list_pending_by_library : ℕ → M Db (List (ScanResult Status))
unfolding list_where
list_pending_by_library library_id =
    query
      (λ db. ok (list_where (λ r. (r.library_id == library_id) && status_eq pending r.status) db))

-- A limit of 0 is no limit.
pub record Filter : Type 0 where
  pub library_id : Option ℕ
  pub status : StatusText Status
  pub limit : ℕ

abbrev pub in_library : Option ℕ → ScanRow → Bool
in_library none r = true
in_library (some i) r = r.library_id == i

abbrev pub has_status : StatusText Status → ScanRow → Bool
has_status no_status r = true
has_status (known_status s) r = status_eq s r.status
has_status other_status r = false

abbrev pub limited : ℕ → List (ScanResult Status) → List (ScanResult Status)
limited zero rows = rows
limited (suc n) rows = take (suc n) rows

unfoldable pub list : Filter → M Db (List (ScanResult Status))
unfolding list_where
list filter = query (λ db. ok (
    limited filter.limit
      (list_where (λ r. in_library filter.library_id r && has_status filter.status r) db)))

-- ON DELETE SET NULL in the work queue, whose update trigger fires, and ON DELETE CASCADE of the links.
abbrev pub unlink : ℕ → List ScanRow → WorkRow → WorkRow
unlink at gone r = elim r.scan_result_id [
  | none ↦ r
  | some i ↦ if scan_exists gone i then touch at (record r { scan_result_id = none }) else r
]

unfoldable pub delete_scans : ℕ → ℕ → Db → Result (ℕ × Db)
delete_scans library_id at db =
    let gone = select (λ r. r.library_id == library_id) db.scans in
    ok (
      count_where (λ r. r.library_id == library_id) db.scans,
      record db {
        scans = delete_where (λ r. r.library_id == library_id) db.scans;
        links = delete_where (λ l. scan_exists gone l.scan_result_id) db.links;
        work = map (unlink at gone) db.work;
      },
    )

-- ClearByLibrary, and ClearByLibraryTx inside the caller's transaction.
unfoldable pub clear_by_library : (library_id now : ℕ) → M Db ℕ
unfolding delete_scans
clear_by_library library_id now = exec (delete_scans library_id (format_time now))

unfoldable pub count_by_library : ℕ → M Db ℕ
count_by_library library_id =
    query (λ db. ok (count_where (λ r. r.library_id == library_id) db.scans))

unfoldable pub set_one : Status → ℕ → Db → Result (ℕ × Db)
set_one s id db = ok (
  count_where (λ r. r.id == id) db.scans,
  record db { scans = update_where (λ r. r.id == id) (λ r. record r { status = s }) db.scans },
)

unfoldable pub set_all : Status → List ℕ → M Db (Unit {0})
unfolding set_one require_affected
set_all s [] = pure tt
set_all s (id ∷ ids) = do n ← exec (set_one s id); require_affected n; set_all s ids

unfoldable pub set_status : List ℕ → StatusText Status → M Db (Unit {0})
unfolding set_all
set_status [] s = pure tt
set_status (id ∷ ids) (known_status s) = transaction (set_all s (id ∷ ids))
set_status (id ∷ ids) other = throw unsupported_status
