-- ===== src/Auth/Revocation.antt =====
-- Revocation in SQLStore (internal/auth/store.go) as the Service sees it (internal/auth/service.go).
use Prim.Native.String.{String}
use text.Mathlib.Text.{starts_with}
use mxlrc_go.Common.{
  ℕ, true, List, [], ◌∷◌, Option, some, ◌≡◌, ◌∙◌, refl, ap, ◌⊎◌, inl, inr, arith, find_where,
  find_where-some, update_where, Bool-cases, Option-cases,
}
use mxlrc_go.Auth.Keys.{Key}
use mxlrc_go.Auth.Scopes.{Result, ok, err, revoked_key, store_failure}
use mxlrc_go.Auth.Service.{
  key_prefix, permit, validate_key, validate_hashed, revoke_key, revoke_hashed,
}
use mxlrc_go.Auth.Sql.{
  KeyRow, KeyTable, row_with, scan_key, set_revoked, find_by_hash, revoke_by_hash, revoke_found,
  sql_store, outcome,
}
use mxlrc_go.Store.Session
use mxlrc_go.Store.Session.{Session, exec}
use mxlrc_go.Queue.Items.{format_time}
use mxlrc_go.Auth.KeyCalls.{
  IsRevoked, KeyCall, perform_calls, perform_calls-IsRevoked, find_by_hash_state,
}

module _ (hash : String) where
  -- What finds a revoked key is refused by the checks, unless the driver refuses the query.
  find_by_hash-refused :
      (required : String) (s : Session KeyTable)
      → IsRevoked hash s.db
      → let answer = permit hash required (find_by_hash hash s).0 in
        (answer ≡ err revoked_key) ⊎ (answer ≡ err store_failure)
  unfolding find_by_hash permit exec scan_key
  find_by_hash-refused required s (r, t, e, k) =
      let (i, same) = find_where-some (row_with hash) s.db r e in ground arith

find_where-set :
    (hash : String) (at : ℕ) (table : KeyTable) (r : KeyRow)
    → find_where (row_with hash) table ≡ some r
    → find_where
        (row_with hash)
        (update_where (row_with hash) (λ x. record x { revoked_at = some at }) table)
      ≡ some (record r { revoked_at = some at })
find_where-set hash at [] r h = absurd (ground arith)
find_where-set hash at (x ∷ xs) r h = ground (arith, find_where-set hash at xs r)

outcome-eq-ok :
    {A : Type 0} (r : Session.Result A) (s : Session KeyTable) (a : A)
    → (outcome (r, s)).0 ≡ ok a
    → r ≡ Session.ok a
outcome-eq-ok (Session.ok b) s a h = ground arith
outcome-eq-ok (Session.err e) s a h = absurd (cc)

find_by_hash-eq-ok :
    (hash : String) (s : Session KeyTable) (key : Key)
    → (find_by_hash hash s).0 ≡ ok key
    → (r : KeyRow) × (find_where (row_with hash) s.db ≡ some r)
unfolding find_by_hash exec
find_by_hash-eq-ok hash s key h = elim (Option-cases (find_where (row_with hash) s.db)) [
  | inl miss ↦ absurd (ground arith)
  | inr (r, hit) ↦ (r, hit)
]

revoke_found-eq-ok :
    (hash : String) (at : ℕ) (key : Key) (s : Session KeyTable) (r : KeyRow) (answered : Key)
    → find_where (row_with hash) s.db ≡ some r
    → (revoke_found hash at (ok key, s)).0 ≡ ok answered
    → IsRevoked hash (revoke_found hash at (ok key, s)).1.db
unfolding exec set_revoked
revoke_found-eq-ok hash at key s r answered e h =
    let p = find_where-set hash (format_time at) s.db r e in
    (record r { revoked_at = some (format_time at) }, format_time at, ground arith, refl)

revoke_by_hash-eq-ok :
    (hash : String) (at : ℕ) (s : Session KeyTable) (key : Key)
    → (revoke_by_hash hash at s).0 ≡ ok key
    → IsRevoked hash (revoke_by_hash hash at s).1.db
unfolding revoke_by_hash
revoke_by_hash-eq-ok hash at s key h = split (find_by_hash hash s).0 refl h
  where
    t : Session KeyTable
    t = (find_by_hash hash s).1

    split :
        (r : Result Key)
        → (find_by_hash hash s).0 ≡ r
        → (revoke_found hash at (r, t)).0 ≡ ok key
        → IsRevoked hash (revoke_found hash at (r, t)).1.db
    split (err e) q k = absurd (cc)
    split (ok found_key) q k =
        let (r, hit) = find_by_hash-eq-ok hash s found_key q in
        revoke_found-eq-ok hash at found_key t r key
          (ap (find_where (row_with hash)) (find_by_hash_state hash s) ∙ hit) k

module _ (hash_key : String → Option String) where
  -- Of a raw key whose row is revoked.
  pub validate_key-refused :
      (raw required hash : String) (s : Session KeyTable)
      → starts_with raw key_prefix ≡ true
      → hash_key raw ≡ some hash
      → IsRevoked hash s.db
      → let answer = (validate_key sql_store hash_key raw required s).0 in
        (answer ≡ err revoked_key) ⊎ (answer ≡ err store_failure)
  unfolding validate_key validate_hashed sql_store
  validate_key-refused raw required hash s prefixed derived h =
      let refused = find_by_hash-refused hash required s h in rw (prefixed, derived) refused

  pub validate_key_state :
      (raw required : String) (s : Session KeyTable)
      → (validate_key sql_store hash_key raw required s).1.db ≡ s.db
  unfolding validate_key validate_hashed sql_store
  validate_key_state raw required s = elim (Option-cases (hash_key raw)) [
    | inl failed ↦ ground arith
    | inr (hash, derived) ↦ ground (arith, find_by_hash_state hash s)
  ]

  pub revoke_key-IsRevoked :
      (raw : String) (now : ℕ) (s : Session KeyTable) (key : Key)
      → (revoke_key sql_store hash_key raw now s).0 ≡ ok key
      → (hash : String) × (starts_with raw key_prefix ≡ true)
        × (hash_key raw ≡ some hash)
        × IsRevoked hash (revoke_key sql_store hash_key raw now s).1.db
  unfolding revoke_key revoke_hashed sql_store
  revoke_key-IsRevoked raw now s key h = elim (Bool-cases (starts_with raw key_prefix)) [
    | inr foreign ↦ absurd (ground arith)
    | inl prefixed ↦ elim (Option-cases (hash_key raw)) [
      | inl failed ↦ absurd (ground arith)
      | inr (hash, derived) ↦
          let answered : (revoke_by_hash hash now s).0 ≡ ok key = ground arith in
          (
            hash,
            prefixed,
            derived,
            rw (prefixed, derived) (revoke_by_hash-eq-ok hash now s key answered),
          )
    ]
  ]

  -- After a RevokeKey over a SQLStore that succeeds, and after whatever calls of the store follow, with
  -- whatever statements the driver refuses, ValidateKey never accepts the raw key, whatever scope is
  -- asked for: it answers that the key is revoked, or that the store has failed.
  pub revoke-then-validate :
      (raw required : String) (now : ℕ) (s : Session KeyTable) (key : Key) (cs : List KeyCall)
      → (revoke_key sql_store hash_key raw now s).0 ≡ ok key
      → let t = perform_calls cs (revoke_key sql_store hash_key raw now s).1 in
        let answer = (validate_key sql_store hash_key raw required t).0 in
        (answer ≡ err revoked_key) ⊎ (answer ≡ err store_failure)
  revoke-then-validate raw required now s key cs h =
      let (hash, prefixed, derived, gone) = revoke_key-IsRevoked raw now s key h in
      validate_key-refused raw required hash _ prefixed derived
        (perform_calls-IsRevoked hash cs _ gone)
