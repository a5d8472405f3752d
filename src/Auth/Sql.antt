-- ===== src/Auth/Sql.antt =====
-- SQLStore (internal/auth/store.go) over the rows of api_key_metadata, whose ids and whose hashes are
-- unique. A time that is stored keeps its whole seconds.
use text.Mathlib.Text.{is_lt}
use Prim.Native.String.{String, compare}
use mxlrc_go.Common.{
  ℕ, ◌*◌, Bool, ◌&&◌, ◌||◌, not, ltb, ◌==◌, List, [], ◌∷◌, ◌++◌, Option, none, some, text_eq, any,
  find_where, update_where, map, if◌then◌else◌,
}
use mxlrc_go.Common.Sorting.{order_by}
use mxlrc_go.Backoff.{second}
use mxlrc_go.Strings.Splitting.{split, join}
use mxlrc_go.Auth.Text.{trim_space}
use mxlrc_go.Auth.Keys.{Key, Store}
use mxlrc_go.Auth.Scopes.{empty_hash, invalid_key, store_failure, Result, ok, err}
use mxlrc_go.Queue.Items.{format_time}
use mxlrc_go.Store.Session
use mxlrc_go.Store.Session.{Session, exec, query, constraint, no_rows}

pub record KeyRow : Type 0 where
  pub id : String
  pub name : String
  pub hash : String
  pub scopes : String
  pub created_at : ℕ
  pub revoked_at : Option ℕ

abbrev pub KeyTable : Type 0
KeyTable = List KeyRow

unfoldable pub encode_scopes : List String → String
unfolding join
encode_scopes scopes = join "," scopes

abbrev trimmed : List String → List String
trimmed [] = []
trimmed (v ∷ vs) = let w = trim_space v in if text_eq w "" then trimmed vs else w ∷ trimmed vs

unfoldable pub decode_scopes : String → List String
unfolding split trim_space
decode_scopes scopes = trimmed (split 44 scopes)

abbrev pub moment : Option ℕ → Option ℕ
moment none = none
moment (some t) = some (t * second)

-- scanKey; the columns hold what formatTime has written.
unfoldable pub scan_key : KeyRow → Key
unfolding decode_scopes
scan_key r = record {
  id = r.id;
  name = r.name;
  hash = r.hash;
  scopes = decode_scopes r.scopes;
  created_at = r.created_at * second;
  revoked_at = moment r.revoked_at;
}

unfoldable pub key_row : Key → KeyRow
unfolding encode_scopes
key_row key = record {
  id = key.id;
  name = key.name;
  hash = key.hash;
  scopes = encode_scopes key.scopes;
  created_at = format_time key.created_at;
  revoked_at = none;
}

abbrev pub row_with : String → KeyRow → Bool
row_with hash r = text_eq r.hash hash

abbrev pub same_id : KeyRow → KeyRow → Bool
same_id a b = text_eq b.id a.id

unfoldable pub insert_key : KeyRow → KeyTable → Session.Result (Unit {0} × KeyTable)
insert_key row table =
    if any (row_with row.hash) table || any (same_id row) table
    then Session.err constraint
    else Session.ok (tt, table ++ row ∷ [])

-- ON CONFLICT(hash) DO NOTHING, with the rows that are affected.
unfoldable pub insert_new_key : KeyRow → KeyTable → Session.Result (ℕ × KeyTable)
insert_new_key row table =
    if any (row_with row.hash) table
    then Session.ok (0, table)
    else if any (same_id row) table
    then Session.err constraint
    else Session.ok (1, table ++ row ∷ [])

abbrev pub outcome :
    {A : Type 0} → Session.Result A × Session KeyTable → Result A × Session KeyTable
outcome (Session.ok a, s) = (ok a, s)
outcome (Session.err e, s) = (err store_failure, s)

unfoldable pub create : Key → Session KeyTable → Result (Unit {0}) × Session KeyTable
unfolding key_row insert_key
create key s =
    let created = outcome (exec (insert_key (key_row key)) s) in
    if text_eq key.hash "" then (err empty_hash, s) else created

abbrev pub was_inserted : Result ℕ × Session KeyTable → Result Bool × Session KeyTable
was_inserted (ok n, s) = (ok (ltb 0 n), s)
was_inserted (err e, s) = (err e, s)

unfoldable pub create_if_not_exists : Key → Session KeyTable → Result Bool × Session KeyTable
unfolding key_row insert_new_key
create_if_not_exists key s =
    let inserted = was_inserted (outcome (exec (insert_new_key (key_row key)) s)) in
    if text_eq key.hash "" then (err empty_hash, s) else inserted

abbrev pub one_key : Option KeyRow → Session.Result Key
one_key none = Session.err no_rows
one_key (some r) = Session.ok (scan_key r)

-- sql.ErrNoRows is ErrInvalidKey.
abbrev pub found : Session.Result Key × Session KeyTable → Result Key × Session KeyTable
found (Session.ok key, s) = (ok key, s)
found (Session.err no_rows, s) = (err invalid_key, s)
found (Session.err e, s) = (err store_failure, s)

unfoldable pub find_by_hash : String → Session KeyTable → Result Key × Session KeyTable
unfolding scan_key
find_by_hash hash s = found (query (λ table. one_key (find_where (row_with hash) table)) s)

unfoldable pub set_revoked : String → ℕ → KeyTable → Session.Result (Unit {0} × KeyTable)
set_revoked hash at table =
    Session.ok (tt, update_where (row_with hash) (λ r. record r { revoked_at = some at }) table)

abbrev pub revoked : Key → ℕ → Result (Unit {0}) × Session KeyTable → Result Key × Session KeyTable
revoked key at (ok _, s) = (ok (record key { revoked_at = some at }), s)
revoked key at (err e, s) = (err e, s)

abbrev pub revoke_found : String → ℕ → Result Key × Session KeyTable → Result Key × Session KeyTable
revoke_found hash at (err e, s) = (err e, s)
revoke_found hash at (ok key, s) =
    revoked key at (outcome (exec (set_revoked hash (format_time at)) s))

unfoldable pub revoke_by_hash : String → ℕ → Session KeyTable → Result Key × Session KeyTable
unfolding find_by_hash set_revoked
revoke_by_hash hash at s = revoke_found hash at (find_by_hash hash s)

-- ORDER BY created_at ASC, id ASC
unfoldable pub row_before : KeyRow → KeyRow → Bool
row_before a b =
    ltb a.created_at b.created_at
    || (a.created_at == b.created_at && not (is_lt (compare b.id a.id)))

unfoldable pub list : Session KeyTable → Result (List Key) × Session KeyTable
unfolding row_before scan_key
list s = outcome (query (λ table. Session.ok (map scan_key (order_by row_before table))) s)

unfoldable pub sql_store : Store (Session KeyTable)
unfolding create find_by_hash revoke_by_hash list
sql_store = record {
  create = create;
  find_by_hash = find_by_hash;
  revoke_by_hash = revoke_by_hash;
  list = list;
}
