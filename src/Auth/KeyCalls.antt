-- ===== src/Auth/KeyCalls.antt =====
-- The calls of a SQLStore (internal/auth/store.go) in any order, and the keys that are revoked.
use Prim.Native.String.{String}
use mxlrc_go.Common.{
  ℕ, List, [], ◌∷◌, ◌++◌, some, ◌≡◌, ◌∙◌, refl, sym, subst, inl, inr, arith, find_where,
  update_where, text_eq, Bool-cases,
}
use mxlrc_go.Auth.Keys.{Key}
use mxlrc_go.Auth.Scopes.{Result, ok, err}
use mxlrc_go.Auth.Sql.{
  KeyRow, KeyTable, row_with, key_row, insert_key, insert_new_key, set_revoked, create,
  create_if_not_exists, find_by_hash, revoke_by_hash, revoke_found, revoked, list, outcome,
  was_inserted,
}
use mxlrc_go.Store.Session
use mxlrc_go.Store.Session.{Session, exec}
use mxlrc_go.Store.Keeps.{exec-Keeps}
use mxlrc_go.Queue.Items.{format_time}

-- The row that the hash finds has a revocation time.
abbrev pub IsRevoked : String → KeyTable → Type 0
IsRevoked hash table =
    (r : KeyRow) × (t : ℕ) × (find_where (row_with hash) table ≡ some r) × (r.revoked_at ≡ some t)

-- The calls of a SQLStore.
pub data KeyCall : Type 0 where
  creates creates_if_new : Key → KeyCall
  revokes : (hash : String) → (at : ℕ) → KeyCall
  finds : String → KeyCall
  lists : KeyCall

unfoldable pub perform_call : KeyCall → Session KeyTable → Session KeyTable
perform_call (creates key) s = (create key s).1
perform_call (creates_if_new key) s = (create_if_not_exists key s).1
perform_call (revokes hash at) s = (revoke_by_hash hash at s).1
perform_call (finds hash) s = (find_by_hash hash s).1
perform_call lists s = (list s).1

unfoldable pub perform_calls : List KeyCall → Session KeyTable → Session KeyTable
perform_calls [] s = s
perform_calls (c ∷ cs) s = perform_calls cs (perform_call c s)

find_where-left :
    (hash : String) (table new : KeyTable) (r : KeyRow)
    → find_where (row_with hash) table ≡ some r
    → find_where (row_with hash) (table ++ new) ≡ some r
find_where-left hash [] new r h = absurd (ground arith)
find_where-left hash (x ∷ xs) new r h = ground (arith, find_where-left hash xs new r)

find_where-updated :
    (hash other : String) (at : ℕ) (table : KeyTable) (r : KeyRow) (t : ℕ)
    → find_where (row_with hash) table ≡ some r
    → r.revoked_at ≡ some t
    → IsRevoked hash (update_where (row_with other) (λ x. record x { revoked_at = some at }) table)
find_where-updated hash other at [] r t h k = absurd (ground arith)
find_where-updated hash other at (x ∷ xs) r t h k = elim (Bool-cases (row_with hash x)) [
  | inl here ↦ elim (Bool-cases (row_with other x)) [
    | inl hit ↦ (record x { revoked_at = some at }, at, ground arith, refl)
    | inr miss ↦ (x, t, ground arith, ground arith)
  ]
  | inr there ↦
      let (r', t', e, e') = find_where-updated hash other at xs r t (ground arith) k in
      (r', t', ground arith, e')
]

outcome_state : {A : Type 0} (r : Session.Result A) (s : Session KeyTable) → (outcome (r, s)).1 ≡ s
outcome_state (Session.ok a) s = refl
outcome_state (Session.err e) s = refl

was_inserted_state : (r : Result ℕ) (s : Session KeyTable) → (was_inserted (r, s)).1 ≡ s
was_inserted_state (ok n) s = refl
was_inserted_state (err e) s = refl

revoked_state :
    (key : Key) (at : ℕ) (r : Result (Unit {0})) (s : Session KeyTable)
    → (revoked key at (r, s)).1 ≡ s
revoked_state key at (ok u) s = refl
revoked_state key at (err e) s = refl

pub find_by_hash_state : (hash : String) (s : Session KeyTable) → (find_by_hash hash s).1.db ≡ s.db
unfolding find_by_hash exec
find_by_hash_state hash s = ground arith

list_state : (s : Session KeyTable) → (list s).1.db ≡ s.db
unfolding list exec
list_state s = ground arith

module _ (hash : String) where
  insert_key-IsRevoked :
      (row : KeyRow) (table : KeyTable) (u : Unit {0}) (table' : KeyTable)
      → IsRevoked hash table
      → insert_key row table ≡ Session.ok (u, table')
      → IsRevoked hash table'
  unfolding insert_key
  insert_key-IsRevoked row table u table' (r, t, e, k) h =
      (r, t, ground (arith, find_where-left hash table (row ∷ []) r), k)

  insert_new_key-IsRevoked :
      (row : KeyRow) (table : KeyTable) (n : ℕ) (table' : KeyTable)
      → IsRevoked hash table
      → insert_new_key row table ≡ Session.ok (n, table')
      → IsRevoked hash table'
  unfolding insert_new_key
  insert_new_key-IsRevoked row table n table' (r, t, e, k) h =
      (r, t, ground (arith, find_where-left hash table (row ∷ []) r), k)

  set_revoked-IsRevoked :
      (other : String) (at : ℕ) (table : KeyTable) (u : Unit {0}) (table' : KeyTable)
      → IsRevoked hash table
      → set_revoked other at table ≡ Session.ok (u, table')
      → IsRevoked hash table'
  unfolding set_revoked
  set_revoked-IsRevoked other at table u table' (r, t, e, k) h =
      subst (IsRevoked hash) (ground arith) (find_where-updated hash other at table r t e k)

  create-IsRevoked :
      (key : Key) (s : Session KeyTable) → IsRevoked hash s.db → IsRevoked hash (create key s).1.db
  unfolding create
  create-IsRevoked key s h =
      let (r, t) = exec (insert_key (key_row key)) s in
      let kept : IsRevoked hash t.db =
        exec-Keeps (IsRevoked hash) (insert_key (key_row key))
          (λ db u db' p e. insert_key-IsRevoked (key_row key) db u db' p e) s h in
      elim (Bool-cases (text_eq key.hash "")) [
        | inl blank ↦ rw blank h
        | inr given ↦
            rw given
              (subst (λ (u : Session KeyTable). IsRevoked hash u.db) (sym (outcome_state r t)) kept)
      ]

  create_if_not_exists-IsRevoked :
      (key : Key) (s : Session KeyTable)
      → IsRevoked hash s.db
      → IsRevoked hash (create_if_not_exists key s).1.db
  unfolding create_if_not_exists
  create_if_not_exists-IsRevoked key s h =
      let (r, t) = exec (insert_new_key (key_row key)) s in
      let kept : IsRevoked hash t.db =
        exec-Keeps (IsRevoked hash) (insert_new_key (key_row key))
          (λ db n db' p e. insert_new_key-IsRevoked (key_row key) db n db' p e) s h in
      elim (Bool-cases (text_eq key.hash "")) [
        | inl blank ↦ rw blank h
        | inr given ↦ rw given (
            subst (λ (u : Session KeyTable). IsRevoked hash u.db)
              (sym (was_inserted_state (outcome (r, t)).0 (outcome (r, t)).1 ∙ outcome_state r t))
              kept)
      ]

  revoke_found-IsRevoked :
      (other : String) (at : ℕ) (found : Result Key) (s : Session KeyTable)
      → IsRevoked hash s.db
      → IsRevoked hash (revoke_found other at (found, s)).1.db
  revoke_found-IsRevoked other at (err e) s h = h
  revoke_found-IsRevoked other at (ok key) s h =
      let set = set_revoked other (format_time at) in
      let (r, t) = exec set s in
      let kept : IsRevoked hash t.db =
        exec-Keeps (IsRevoked hash) set
          (λ db u db' p e. set_revoked-IsRevoked other (format_time at) db u db' p e) s h in
      subst (λ (u : Session KeyTable). IsRevoked hash u.db)
        (sym (revoked_state key at (outcome (r, t)).0 (outcome (r, t)).1 ∙ outcome_state r t)) kept

  perform_call-IsRevoked :
      (c : KeyCall) (s : Session KeyTable)
      → IsRevoked hash s.db
      → IsRevoked hash (perform_call c s).db
  unfolding perform_call revoke_by_hash
  perform_call-IsRevoked (creates key) s h = create-IsRevoked key s h
  perform_call-IsRevoked (creates_if_new key) s h = create_if_not_exists-IsRevoked key s h
  perform_call-IsRevoked (revokes other at) s h =
      revoke_found-IsRevoked other at (find_by_hash other s).0 (find_by_hash other s).1
        (subst (IsRevoked hash) (sym (find_by_hash_state other s)) h)
  perform_call-IsRevoked (finds other) s h =
      subst (IsRevoked hash) (sym (find_by_hash_state other s)) h
  perform_call-IsRevoked lists s h = subst (IsRevoked hash) (sym (list_state s)) h

  pub perform_calls-IsRevoked :
      (cs : List KeyCall) (s : Session KeyTable)
      → IsRevoked hash s.db
      → IsRevoked hash (perform_calls cs s).db
  unfolding perform_calls
  perform_calls-IsRevoked [] s h = h
  perform_calls-IsRevoked (c ∷ cs) s h =
      perform_calls-IsRevoked cs (perform_call c s) (perform_call-IsRevoked c s h)
