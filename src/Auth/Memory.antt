-- ===== src/Auth/Memory.antt =====
-- The MemoryStore (internal/auth/memory.go): a map from hashes to keys. Whether the context has ended
-- is a field; the mutex and the defensive copies have no counterpart.
use text.Mathlib.Text.{is_lt}
use Prim.Native.String.{compare}
use mxlrc_go.Common.{
  ◌++◌, update_where, any, ◌==◌, ltb, not, ◌&&◌, ◌||◌, find_where, ℕ, String, Bool, List, [], ◌∷◌,
  Option, none, some, text_eq, if◌then◌else◌,
}
use mxlrc_go.Auth.Scopes.{canceled, empty_hash, duplicate_key, invalid_key, Result, ok, err}
use mxlrc_go.Auth.Keys.{Key, Store}
use mxlrc_go.Common.Sorting.{order_by}

pub record MemoryStore : Type 0 where
  pub keys : List Key
  pub context_ended : Bool

abbrev pub has_hash : String → Key → Bool
has_hash hash k = text_eq k.hash hash

abbrev pub found : Option Key → Result Key
found none = err invalid_key
found (some k) = ok k

unfoldable pub create : Key → MemoryStore → Result (Unit {0}) × MemoryStore
create key s =
    if s.context_ended
    then (err canceled, s)
    else if text_eq key.hash ""
    then (err empty_hash, s)
    else if any (has_hash key.hash) s.keys
    then (err duplicate_key, s)
    else (ok tt, record s { keys = s.keys ++ key ∷ [] })

unfoldable pub find_by_hash : String → MemoryStore → Result Key × MemoryStore
find_by_hash hash s =
    if s.context_ended then (err canceled, s) else (found (find_where (has_hash hash) s.keys), s)

abbrev pub revoked : ℕ → Key → Key
revoked at k = record k { revoked_at = some at }

unfoldable pub revoke_by_hash : String → ℕ → MemoryStore → Result Key × MemoryStore
revoke_by_hash hash at s = elim (find_where (has_hash hash) s.keys) [
  | none ↦ (err (if s.context_ended then canceled else invalid_key), s)
  | some k ↦
      if s.context_ended
      then (err canceled, s)
      else (ok (revoked at k), record s { keys = update_where (has_hash hash) (revoked at) s.keys })
]

-- The comparison of slices.SortFunc, as "not after".
unfoldable pub listed_before : Key → Key → Bool
listed_before a b =
    ltb a.created_at b.created_at
    || (a.created_at == b.created_at && not (is_lt (compare b.id a.id)))

unfoldable pub list : MemoryStore → Result (List Key) × MemoryStore
unfolding listed_before
list s = if s.context_ended then (err canceled, s) else (ok (order_by listed_before s.keys), s)

unfoldable pub memory_store : Store MemoryStore
unfolding create find_by_hash revoke_by_hash list
memory_store = record {
  create = create;
  find_by_hash = find_by_hash;
  revoke_by_hash = revoke_by_hash;
  list = list;
}
