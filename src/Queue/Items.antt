-- ===== src/Queue/Items.antt =====
-- Work items of internal/queue/queue.go and the columns that are stored as text.
use mxlrc_go.Common.{ℕ, ◌/◌, String, List, [], ◌∷◌, Option, none, some, ◌==◌, if◌then◌else◌}
use mxlrc_go.Models.{Inputs, OutputPath}
use mxlrc_go.Backoff.{second}
use mxlrc_go.Store.Tables.{Status, StoredPaths, blank, encoded, malformed, WorkRow}
use mxlrc_go.Store.Session.{Result, ok, err, bad_row}

-- What scanWorkItem fills of models.Inputs; the other fields of the track keep their zero values.
pub record WorkItem : Type 0 where
  pub id : ℕ
  pub artist_name : String
  pub track_name : String
  pub outdir : String
  pub filename : String
  pub source_path : String
  pub output_paths : List OutputPath
  pub scan_result_id : ℕ
  pub status : Status
  pub priority : ℕ
  pub attempts : ℕ
  pub next_attempt_at : ℕ
  pub last_error : String
  pub created_at : ℕ
  pub updated_at : ℕ
  pub completed_at : Option ℕ

-- RFC 3339 in UTC keeps whole seconds; texts of that form are ordered as the seconds are.
abbrev pub format_time : ℕ → ℕ
format_time t = t / second

abbrev pub nullable_id : ℕ → Option ℕ
nullable_id i = if i == 0 then none else some i

-- sql.NullInt64 into an int64 that is 0 where the column is NULL.
abbrev pub id_or_zero : Option ℕ → ℕ
id_or_zero none = 0
id_or_zero (some i) = i

abbrev pub or_default : OutputPath → List OutputPath → List OutputPath
or_default p [] = p ∷ []
or_default p (q ∷ qs) = q ∷ qs

unfoldable pub marshal_output_paths : Inputs → StoredPaths
marshal_output_paths inputs =
    encoded (
      or_default (record { outdir = inputs.outdir; filename = inputs.filename })
        inputs.output_paths)

unfoldable pub unmarshal_output_paths : StoredPaths → String → String → Result (List OutputPath)
unmarshal_output_paths blank outdir filename =
    ok (record { outdir = outdir; filename = filename } ∷ [])
unmarshal_output_paths (encoded paths) outdir filename =
    ok (or_default (record { outdir = outdir; filename = filename }) paths)
unmarshal_output_paths malformed outdir filename = err bad_row

abbrev pub item_of : WorkRow → List OutputPath → WorkItem
item_of r paths = record {
  id = r.id;
  artist_name = r.artist;
  track_name = r.title;
  outdir = r.outdir;
  filename = r.filename;
  source_path = r.source_path;
  output_paths = paths;
  scan_result_id = id_or_zero r.scan_result_id;
  status = r.status;
  priority = r.priority;
  attempts = r.attempts;
  next_attempt_at = r.next_attempt_at;
  last_error = r.last_error;
  created_at = r.created_at;
  updated_at = r.updated_at;
  completed_at = r.completed_at;
}

unfoldable pub scan_work_item : WorkRow → Result WorkItem
unfolding unmarshal_output_paths
scan_work_item r = elim (unmarshal_output_paths r.output_paths r.outdir r.filename) [
  | ok paths ↦ ok (item_of r paths)
  | err e ↦ err e
]
