-- ===== src/Commands/Texts.antt =====
-- Tests and texts of the commands (internal/commands/commands.go).
use Prim.Native.String.{String, len, slice, ◌++◌}
use text.Mathlib.Text.{is_le}
use mxlrc_go.Common.{
  ℕ, ◌-◌, Bool, false, ◌||◌, ◌==◌, leb, List, [], ◌∷◌, text_eq, if◌then◌else◌, any,
}
use mxlrc_go.Common.Sorting.{order_by}
use mxlrc_go.Strings.Splitting.{join}
use mxlrc_go.Auth.Scopes.{Result, scope_webhook, normalize_scopes}

-- usesSubcommand
unfoldable pub uses_subcommand : List String → Bool
uses_subcommand [] = false
uses_subcommand (a ∷ args) =
    text_eq a "-h"
    || text_eq a "--help"
    || any (text_eq a) ("fetch" ∷ "serve" ∷ "scan" ∷ "library" ∷ "keys" ∷ "config" ∷ "queue" ∷ [])

-- A status that the queue commands accept; an empty one is no filter.
unfoldable pub validate_queue_status : String → Bool
validate_queue_status s =
    text_eq s "" || any (text_eq s) ("pending" ∷ "processing" ∷ "failed" ∷ "done" ∷ [])

unfoldable pub validate_scan_status : String → Bool
validate_scan_status s = text_eq s "" || any (text_eq s) ("pending" ∷ "processing" ∷ "done" ∷ [])

-- Lengths and cuts count bytes.
unfoldable pub truncate : String → ℕ → String
truncate s max =
    if (max == 0) || leb (len s) max
    then s
    else if leb max 3
    then slice s 0 max
    else slice s 0 (max - 3) ++ "..."

unfoldable pub parse_scopes : List String → Result (List String)
unfolding normalize_scopes
parse_scopes [] = normalize_scopes (scope_webhook ∷ [])
parse_scopes (v ∷ vs) = normalize_scopes (v ∷ vs)

abbrev pub text_before : String → String → Bool
text_before a b = is_le (Prim.Native.String.compare a b)

-- encodeScopes of the commands sorts what it joins.
unfoldable pub encode_sorted_scopes : List String → String
unfolding join
encode_sorted_scopes scopes = join "," (order_by text_before scopes)
