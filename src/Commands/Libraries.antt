-- ===== src/Commands/Libraries.antt =====
-- resolveLibrary (internal/commands/commands.go): a library by its id or its name.
use Prim.Native.String.{String}
use mxlrc_go.Common.{Option, none, some, ◌==◌, text_eq, if◌then◌else◌}
use mxlrc_go.Models.{Library}
use mxlrc_go.Auth.Text.{trim_space}
use mxlrc_go.Config.Numbers.{ℤ, pos, negsuc, atoi}
use mxlrc_go.Library.{get, get_by_name}
use mxlrc_go.Store.Tables.{Db}
use mxlrc_go.Store.Session.{
  Result, ok, err, no_rows, empty_name, ambiguous_name, M, lift, throw, query, attempt, ◌>>=◌,
}

-- No row has a negative id.
unfoldable pub get_id : ℤ → M Db Library
unfolding get
get_id (pos n) = get n
get_id (negsuc n) = query (λ db. err no_rows)

-- The switch on the two lookups.
unfoldable pub chosen : Result Library → Result Library → Result Library
chosen (ok by_id) (ok by_name) = if by_id.id == by_name.id then ok by_id else err ambiguous_name
chosen (ok by_id) (err no_rows) = ok by_id
chosen (ok by_id) (err e) = err e
chosen (err no_rows) (ok by_name) = ok by_name
chosen (err e) (ok by_name) = err e
chosen (err no_rows) (err e) = err e
chosen (err e) (err e') = err e

unfoldable pub resolve_either : ℤ → String → M Db Library
unfolding chosen get_id get_by_name
resolve_either id ref = do
  by_id ← attempt (get_id id)
  by_name ← attempt (get_by_name ref)
  lift (chosen by_id by_name)

abbrev pub resolve_trimmed : String → Option ℤ → M Db Library
resolve_trimmed ref none = get_by_name ref
resolve_trimmed ref (some id) = resolve_either id ref

-- A text that strconv.ParseInt reads is a number for both readings.
unfoldable pub resolve_library : String → M Db Library
unfolding resolve_either get_by_name atoi trim_space
resolve_library ref =
    if text_eq (trim_space ref) ""
    then throw empty_name
    else resolve_trimmed (trim_space ref) (atoi (trim_space ref))
