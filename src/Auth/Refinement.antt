-- ===== src/Auth/Refinement.antt =====
-- SQLStore (internal/auth/store.go) and MemoryStore (internal/auth/memory.go): the same keys, held as
-- rows and as values.
use Prim.Native.String.{String}
use mxlrc_go.Common.{
  ◌/◌, ◌*◌, ◌∙◌, All, All-In, All-update, find_where-some, ap, subst, sym, Option-cases, ◌⊎◌, ℕ,
  List, Option, map, find_where, update_where, false, refl, none, some, Bool-cases, inl, inr, [],
  ◌∷◌, arith, ◌≡◌,
}
use mxlrc_go.Auth.Keys.{Key}
use mxlrc_go.Auth.Scopes.{Result, ok, err, invalid_key}
use mxlrc_go.Auth.Memory
use mxlrc_go.Auth.Memory.{MemoryStore, has_hash}
use mxlrc_go.Auth.Sql
use mxlrc_go.Auth.Sql.{
  decode_scopes, encode_scopes, moment, KeyRow, KeyTable, key_row, scan_key, row_with, one_key,
}
use mxlrc_go.Queue.Items.{format_time}
use mxlrc_go.Store.Session.{exec, Session}

abbrev whole_seconds : Option ℕ → Option ℕ
whole_seconds none = none
whole_seconds (some t) = some (format_time t)

-- A key's row, and the key that is read from it: its times in whole seconds.
unfoldable pub as_row : Key → KeyRow
unfolding key_row
as_row k = record (key_row k) { revoked_at = whole_seconds k.revoked_at }

-- A time that has been cut to a whole second.
abbrev cut : Option ℕ → Option ℕ
cut none = none
cut (some t) = some (t / 1000000000 * 1000000000)

-- The key itself, with its times cut to whole seconds.
abbrev pub as_read : Key → Key
as_read k = record k {
  created_at = k.created_at / 1000000000 * 1000000000;
  revoked_at = cut k.revoked_at;
}

-- Scopes as a service stores them: one of the two, or both in their order.
pub data IsNormal : List String → Type 0 where
  one_scope : (scope : String) → (scope ≡ "admin") ⊎ (scope ≡ "webhook") → IsNormal (scope ∷ [])
  both_scopes : IsNormal ("admin" ∷ "webhook" ∷ [])

abbrev pub Normal : List Key → Type 0
Normal ks = All (λ k. IsNormal k.scopes) ks

-- The table holds the rows of the memory store's keys, whose scopes are normalized, in a session whose
-- driver refuses nothing.
pub record Holds (s : MemoryStore) (t : Session KeyTable) : Type 0 where
  pub rows : t.db ≡ map as_row s.keys
  pub running : s.context_ended ≡ false
  pub no_faults : t.faults ≡ []
  pub normal : Normal s.keys

-- Both have found no key, or both have found the same one.
abbrev pub SameKey : (Key → Key) → Result Key → Result Key → Type 0
SameKey read r r' =
    ((r ≡ err invalid_key) × (r' ≡ err invalid_key)) ⊎ ((k : Key) × (r ≡ ok k) × (r' ≡ ok (read k)))

row_of_found : Option Key → Option KeyRow
row_of_found none = none
row_of_found (some k) = some (as_row k)

find_where-rows :
    (hash : String) (ks : List Key)
    → find_where (row_with hash) (map as_row ks) ≡ row_of_found (find_where (has_hash hash) ks)
unfolding as_row key_row row_of_found
find_where-rows hash [] = refl
find_where-rows hash (k ∷ ks) = ground (arith, find_where-rows hash ks)

update_where-rows :
    (hash : String) (at : ℕ) (ks : List Key)
    → update_where
        (row_with hash)
        (λ r. record r { revoked_at = some (format_time at) })
        (map as_row ks)
      ≡ map as_row (update_where (has_hash hash) (Memory.revoked at) ks)
unfolding as_row key_row
update_where-rows hash at [] = refl
update_where-rows hash at (k ∷ ks) = ground (arith, update_where-rows hash at ks)

scopes-read :
    (scopes : List String) → IsNormal scopes → decode_scopes (encode_scopes scopes) ≡ scopes
unfolding decode_scopes encode_scopes
scopes-read _ (one_scope scope (inl e)) = rw e refl
scopes-read _ (one_scope scope (inr e)) = rw e refl
scopes-read _ both_scopes = refl

moment-cut : (o : Option ℕ) → moment (whole_seconds o) ≡ cut o
moment-cut none = refl
moment-cut (some t) = refl

-- What is read from a key's row is the key, with its times cut.
scan_key-as_row : (k : Key) → IsNormal k.scopes → scan_key (as_row k) ≡ as_read k
unfolding scan_key as_row key_row
scan_key-as_row k n =
    let scopes = scopes-read k.scopes n in
    let revoked = moment-cut k.revoked_at in
    λ i. record (as_read k) { scopes = scopes i; revoked_at = revoked i }

revoked-Normal :
    (hash : String) (at : ℕ) (ks : List Key)
    → Normal ks
    → Normal (update_where (has_hash hash) (Memory.revoked at) ks)
revoked-Normal hash at ks h =
    All-update (λ (k : Key). IsNormal k.scopes) (has_hash hash) (Memory.revoked at) ks
      (λ k i p n. n) h

module _ (s : MemoryStore) (hash : String) (at : ℕ) where
  -- The session whose table is the rows of the memory store.
  abbrev held : Session KeyTable
  held = record { db = map as_row s.keys; faults = [] }

  found-Normal :
      Normal s.keys → (k : Key) → find_where (has_hash hash) s.keys ≡ some k → IsNormal k.scopes
  found-Normal normal k hit =
      All-In (λ (x : Key). IsNormal x.scopes) s.keys normal
        (find_where-some (has_hash hash) s.keys k hit).0

  find-SameKey :
      s.context_ended ≡ false
      → Normal s.keys
      → SameKey as_read (Memory.find_by_hash hash s).0 (Sql.find_by_hash hash held).0
        × ((Sql.find_by_hash hash held).1 ≡ held)
  unfolding Memory.find_by_hash Sql.find_by_hash exec row_of_found
  find-SameKey running normal =
      let e = find_where-rows hash s.keys in
      elim (Option-cases (find_where (has_hash hash) s.keys)) [
        | inl miss ↦ (inl (ground arith, ground arith), ground arith)
        | inr (k, hit) ↦
            let read = scan_key-as_row k (found-Normal normal k hit) in
            let answered : (Sql.find_by_hash hash held).0 ≡ ok (scan_key (as_row k)) =
              ground arith in
            (inr (k, ground arith, answered ∙ ap (λ r. ok r) read), ground arith)
      ]

  -- The revocation time that is answered has not been rounded yet.
  abbrev pub as_answered : Key → Key
  as_answered k = record (as_read k) { revoked_at = k.revoked_at }

  abbrev held_after : MemoryStore → Session KeyTable
  held_after s' = record { db = map as_row s'.keys; faults = [] }

  revoke-SameKey :
      s.context_ended ≡ false
      → Normal s.keys
      → SameKey as_answered (Memory.revoke_by_hash hash at s).0 (Sql.revoke_by_hash hash at held).0
        × ((Sql.revoke_by_hash hash at held).1 ≡ held_after (Memory.revoke_by_hash hash at s).1)
        × ((Memory.revoke_by_hash hash at s).1.context_ended ≡ false)
  unfolding Memory.revoke_by_hash Sql.revoke_by_hash Sql.find_by_hash Sql.set_revoked exec
      row_of_found as_row key_row
  revoke-SameKey running normal =
      let e = find_where-rows hash s.keys in
      let u = update_where-rows hash at s.keys in
      elim (Option-cases (find_where (has_hash hash) s.keys)) [
        | inl miss ↦ (inl (ground arith, ground arith), ground arith, ground arith)
        | inr (k, hit) ↦
            let read = scan_key-as_row k (found-Normal normal k hit) in
            let answered : (Sql.revoke_by_hash hash at held).0
                ≡ ok (record (scan_key (as_row k)) { revoked_at = some at }) =
              ground arith in
            (
              inr (
                Memory.revoked at k,
                ground arith,
                answered ∙ ap (λ (r : Key). ok (record r { revoked_at = some at })) read,
              ),
              ground arith,
              ground arith,
            )
      ]

  revoke_by_hash-Normal : Normal s.keys → Normal (Memory.revoke_by_hash hash at s).1.keys
  unfolding Memory.revoke_by_hash
  revoke_by_hash-Normal normal = elim (Option-cases (find_where (has_hash hash) s.keys)) [
    | inl miss ↦
        let kept : s.keys ≡ (Memory.revoke_by_hash hash at s).1.keys = ground arith in
        subst Normal kept normal
    | inr (k, hit) ↦ elim (Bool-cases s.context_ended) [
      | inl over ↦
          let kept : s.keys ≡ (Memory.revoke_by_hash hash at s).1.keys = ground arith in
          subst Normal kept normal
      | inr running ↦
          let changed : update_where (has_hash hash) (Memory.revoked at) s.keys
              ≡ (Memory.revoke_by_hash hash at s).1.keys =
            ground arith in
          subst Normal changed (revoked-Normal hash at s.keys normal)
    ]
  ]

  -- While the driver refuses nothing, a table that holds the rows of a memory store's keys, whose scopes
  -- are normalized, answers a lookup and a revocation as that store does: with no key where it finds
  -- none, and else with the same id, name, hash and scopes, and with times cut to whole seconds, but for
  -- the time of a revocation that has just been made. It holds the rows of the store's keys afterwards.
  pub find-revoke-Holds :
      (t : Session KeyTable)
      → Holds s t
      → SameKey as_read (Memory.find_by_hash hash s).0 (Sql.find_by_hash hash t).0
        × Holds s (Sql.find_by_hash hash t).1
        × SameKey as_answered (Memory.revoke_by_hash hash at s).0 (Sql.revoke_by_hash hash at t).0
        × Holds (Memory.revoke_by_hash hash at s).1 (Sql.revoke_by_hash hash at t).1
  find-revoke-Holds t h =
      let same : held ≡ t = λ i. record { db = sym (h.rows) i; faults = sym (h.no_faults) i } in
      let (found, kept) = find-SameKey h.running h.normal in
      let (revoked, left, running) = revoke-SameKey h.running h.normal in
      subst
        (λ (u : Session KeyTable).
          SameKey as_read (Memory.find_by_hash hash s).0 (Sql.find_by_hash hash u).0
          × Holds s (Sql.find_by_hash hash u).1
          × SameKey as_answered (Memory.revoke_by_hash hash at s).0 (Sql.revoke_by_hash hash at u).0
          × Holds (Memory.revoke_by_hash hash at s).1 (Sql.revoke_by_hash hash at u).1)
        same
        (
          found,
          record {
            rows = ap (λ (u : Session KeyTable). u.db) kept;
            running = h.running;
            no_faults = ap (λ (u : Session KeyTable). u.faults) kept;
            normal = h.normal;
          },
          revoked,
          record {
            rows = ap (λ (u : Session KeyTable). u.db) left;
            running = running;
            no_faults = ap (λ (u : Session KeyTable). u.faults) left;
            normal = revoke_by_hash-Normal h.normal;
          },
        )
