-- ===== src/Store/Tables.antt =====
-- The tables of internal/db/migrations as lists of rows in the order of their ids. A sequence number
-- is the next AUTOINCREMENT id. Times are whole seconds, as RFC 3339 text in UTC keeps them.
use mxlrc_go.Common.{
  ℕ, String, Bool, true, false, List, Option, none, some, ◌&&◌, ◌==◌, text_eq, any, delete_where,
}
use mxlrc_go.Models.{OutputPath, Library}

-- The CHECK constraint on both status columns.
pub data Status : Type 0 where
  pending processing done failed : Status

abbrev pub is_pending : Status → Bool
is_pending pending = true
is_pending _ = false

abbrev pub is_processing : Status → Bool
is_processing processing = true
is_processing _ = false

abbrev pub is_done : Status → Bool
is_done done = true
is_done _ = false

abbrev pub is_failed : Status → Bool
is_failed failed = true
is_failed _ = false

-- status IN ('pending', 'failed')
abbrev pub is_retryable : Status → Bool
is_retryable pending = true
is_retryable failed = true
is_retryable _ = false

-- status IN ('done', 'processing')
abbrev pub is_settled : Status → Bool
is_settled done = true
is_settled processing = true
is_settled _ = false

abbrev pub status_eq : Status → Status → Bool
status_eq pending s = is_pending s
status_eq processing s = is_processing s
status_eq done s = is_done s
status_eq failed s = is_failed s

-- The text of the output_paths column: empty in rows older than the column, a JSON array of paths,
-- or a text that does not parse.
pub data StoredPaths : Type 0 where
  blank : StoredPaths
  encoded : List OutputPath → StoredPaths
  malformed : StoredPaths

pub record WorkRow : Type 0 where
  pub id : ℕ
  pub artist : String
  pub title : String
  pub artist_key : String
  pub title_key : String
  pub outdir : String
  pub filename : String
  pub source_path : String
  pub output_paths : StoredPaths
  pub scan_result_id : Option ℕ
  pub status : Status
  pub priority : ℕ
  pub attempts : ℕ
  pub next_attempt_at : ℕ
  pub last_error : String
  pub created_at : ℕ
  pub updated_at : ℕ
  pub completed_at : Option ℕ

pub record Link : Type 0 where
  pub work_queue_id : ℕ
  pub scan_result_id : ℕ

pub record ScanRow : Type 0 where
  pub id : ℕ
  pub library_id : ℕ
  pub file_path : String
  pub artist : String
  pub title : String
  pub outdir : String
  pub filename : String
  pub status : Status
  pub created_at : ℕ

pub record CacheRow : Type 0 where
  pub id : ℕ
  pub artist : String
  pub title : String
  pub album : String
  pub lyrics : String
  pub created_at : ℕ
  pub updated_at : ℕ

pub record Db : Type 0 where
  pub work : List WorkRow
  pub work_seq : ℕ
  pub links : List Link
  pub scans : List ScanRow
  pub scan_seq : ℕ
  pub cache : List CacheRow
  pub cache_seq : ℕ
  pub libraries : List Library
  pub library_seq : ℕ

abbrev pub has_id : ℕ → WorkRow → Bool
has_id i r = r.id == i

-- The unique index on (artist_key, title_key).
abbrev pub same_key : WorkRow → WorkRow → Bool
same_key a b = text_eq a.artist_key b.artist_key && text_eq a.title_key b.title_key

-- REFERENCES scan_results(id), which NULL satisfies.
abbrev pub scan_exists : List ScanRow → ℕ → Bool
scan_exists scans i = any (λ s. s.id == i) scans

abbrev pub refers : List ScanRow → Option ℕ → Bool
refers scans none = true
refers scans (some i) = scan_exists scans i

-- The trigger update_work_queue_updated_at. A RETURNING clause shows the row before it fires.
abbrev pub touch : ℕ → WorkRow → WorkRow
touch at r = record r { updated_at = at }

-- DELETE FROM work_queue, with the ON DELETE CASCADE of its links.
abbrev pub delete_work : (WorkRow → Bool) → Db → Db
delete_work p db = record db {
  work = delete_where p db.work;
  links = delete_where (λ l. any (λ r. p r && has_id l.work_queue_id r) db.work) db.links;
}
