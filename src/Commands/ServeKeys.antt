-- ===== src/Commands/ServeKeys.antt =====
-- keyService (internal/commands/commands.go): the configured webhook keys are put into the key table.
use text.Mathlib.Text.{starts_with}
use Prim.Native.String.{String, len, slice, ◌++◌ as append}
use mxlrc_go.Common.{
  append_nil, subst, append_assoc, ap, sym, any, Bool-cases, ℕ, ◌+◌, Bool, not, ltb, List, [], ◌∷◌,
  ◌++◌, Option, none, some, text_eq, if◌then◌else◌, true, false, refl, inl, inr, arith, ◌∙◌, ◌≡◌,
}
use mxlrc_go.Auth.Text.{trim_space}
use mxlrc_go.Auth.Keys.{Key}
use mxlrc_go.Auth.Scopes.{
  Result, ok, err, hash_failed, hash_too_short, invalid_format, scope_webhook,
}
use mxlrc_go.Auth.Service.{key_prefix}
use mxlrc_go.Auth.Sql.{
  KeyRow, KeyTable, create_if_not_exists, insert_new_key, key_row, outcome, row_with, same_id,
  was_inserted,
}
use mxlrc_go.Store.Session
use mxlrc_go.Store.Session.{Session, exec}
use mxlrc_go.Store.Keeps.{exec-Keeps}

abbrev pub Step : Type 0
Step = Session KeyTable → Result (Unit {0}) × Session KeyTable

-- `number` is the decimal text of i+1; PBKDF2 is `hash_key`.
module _ (number : ℕ → String) (hash_key : String → Option String) (now : ℕ) where
  abbrev pub stored : Result Bool × Session KeyTable → Result (Unit {0}) × Session KeyTable
  stored (ok b, s) = (ok tt, s)
  stored (err e, s) = (err e, s)

  abbrev pub webhook_key : ℕ → String → Key
  webhook_key i hash = record {
    id = slice hash 0 16;
    name = append "webhook-" (number (i + 1));
    hash = hash;
    scopes = scope_webhook ∷ [];
    created_at = now;
    revoked_at = none;
  }

  unfoldable pub store_hashed : ℕ → Option String → Step
  unfolding create_if_not_exists
  store_hashed i none s = (err hash_failed, s)
  store_hashed i (some hash) s =
      let made = stored (create_if_not_exists (webhook_key i hash) s) in
      if ltb (len hash) 16 then (err hash_too_short, s) else made

  unfoldable pub store_raw : ℕ → String → Step
  unfolding store_hashed
  store_raw i raw s =
      let made = store_hashed i (hash_key raw) s in
      if text_eq raw ""
      then (ok tt, s)
      else if not (starts_with raw key_prefix)
      then (err invalid_format, s)
      else made

  abbrev pub then_next :
      Step → Result (Unit {0}) × Session KeyTable → Result (Unit {0}) × Session KeyTable
  then_next next (ok u, s) = next s
  then_next next (err e, s) = (err e, s)

  unfoldable pub store_all : ℕ → List String → Step
  unfolding store_raw trim_space
  store_all i [] = λ s. (ok tt, s)
  store_all i (raw ∷ raws) =
      λ s. then_next (store_all (i + 1) raws) (store_raw i (trim_space raw) s)

  unfoldable pub key_service : List String → Step
  unfolding store_all
  key_service raws = store_all 0 raws

-- The old rows, unchanged and in their order, and perhaps new ones after them.
abbrev pub Extends : KeyTable → KeyTable → Type 0
Extends old table = (new : KeyTable) × (table ≡ old ++ new)

insert_new_key-Extends :
    (old : KeyTable) (row : KeyRow) (table : KeyTable) (n : ℕ) (table' : KeyTable)
    → Extends old table
    → insert_new_key row table ≡ Session.ok (n, table')
    → Extends old table'
unfolding insert_new_key
insert_new_key-Extends old row table n table' (new, e) h =
    elim (Bool-cases (any (row_with row.hash) table)) [
      | inl known ↦ (new, ground arith)
      | inr fresh ↦ elim (Bool-cases (any (same_id row) table)) [
        | inl taken ↦ absurd (ground arith)
        | inr free ↦
            let added : table ++ row ∷ [] ≡ table' = ground arith in
            (
              new ++ row ∷ [],
              sym added ∙ (ap (λ t. t ++ row ∷ []) e ∙ append_assoc old new (row ∷ [])),
            )
      ]
    ]

outcome_state : {A : Type 0} (r : Session.Result A) (s : Session KeyTable) → (outcome (r, s)).1 ≡ s
outcome_state (Session.ok a) s = refl
outcome_state (Session.err e) s = refl

was_inserted_state : (r : Result ℕ) (s : Session KeyTable) → (was_inserted (r, s)).1 ≡ s
was_inserted_state (ok n) s = refl
was_inserted_state (err e) s = refl

create_if_not_exists-Extends :
    (old : KeyTable) (key : Key) (s : Session KeyTable)
    → Extends old s.db
    → Extends old (create_if_not_exists key s).1.db
unfolding create_if_not_exists
create_if_not_exists-Extends old key s h =
    let (r, t) = exec (insert_new_key (key_row key)) s in
    let k : Extends old t.db =
      exec-Keeps (Extends old) (insert_new_key (key_row key))
        (λ db n db' p e. insert_new_key-Extends old (key_row key) db n db' p e) s h in
    let same : (was_inserted (outcome (r, t))).1 ≡ t =
      was_inserted_state (outcome (r, t)).0 (outcome (r, t)).1 ∙ outcome_state r t in
    let inserted : Extends old (was_inserted (outcome (r, t))).1.db =
      subst (λ (u : Session KeyTable). Extends old u.db) (sym same) k in
    elim (Bool-cases (text_eq key.hash "")) [
      | inl blank ↦ rw blank h
      | inr given ↦ rw given inserted
    ]

module _ (number : ℕ → String) (hash_key : String → Option String) (now : ℕ) (old : KeyTable) where
  -- A step leaves the old rows where it finds them.
  abbrev Kept : Step → Type 0
  Kept step = (s : Session KeyTable) → Extends old s.db → Extends old (step s).1.db

  if-Kept : (b : Bool) (f g : Step) → Kept f → Kept g → Kept (λ s. if b then f s else g s)
  if-Kept true f g hf hg = hf
  if-Kept false f g hf hg = hg

  stored_state :
      (r : Result Bool) (s : Session KeyTable)
      → Extends old s.db
      → Extends old (stored number hash_key now (r, s)).1.db
  stored_state (ok b) s h = h
  stored_state (err e) s h = h

  store_hashed-Kept : (i : ℕ) (o : Option String) → Kept (store_hashed number hash_key now i o)
  unfolding store_hashed
  store_hashed-Kept i none = λ s h. h
  store_hashed-Kept i (some hash) =
      if-Kept (ltb (len hash) 16) (λ s. (err hash_too_short, s))
        (λ s.
          stored number hash_key now
            (create_if_not_exists (webhook_key number hash_key now i hash) s))
        (λ s h. h)
        λ s h.
          let key = webhook_key number hash_key now i hash in
          stored_state (create_if_not_exists key s).0 (create_if_not_exists key s).1
            (create_if_not_exists-Extends old key s h)

  store_raw-Kept : (i : ℕ) (raw : String) → Kept (store_raw number hash_key now i raw)
  unfolding store_raw
  store_raw-Kept i raw =
      if-Kept (text_eq raw "") (λ s. (ok tt, s))
        (λ s.
          if not (starts_with raw key_prefix)
          then (err invalid_format, s)
          else store_hashed number hash_key now i (hash_key raw) s)
        (λ s h. h)
        (if-Kept (not (starts_with raw key_prefix)) (λ s. (err invalid_format, s))
          (store_hashed number hash_key now i (hash_key raw)) (λ s h. h)
          (store_hashed-Kept i (hash_key raw)))

  then_next-Kept :
      (next : Step) (r : Result (Unit {0})) (s : Session KeyTable)
      → Kept next
      → Extends old s.db
      → Extends old (then_next number hash_key now next (r, s)).1.db
  then_next-Kept next (ok u) s k h = k s h
  then_next-Kept next (err e) s k h = h

  store_all-Kept : (i : ℕ) (raws : List String) → Kept (store_all number hash_key now i raws)
  unfolding store_all
  store_all-Kept i [] = λ s h. h
  store_all-Kept i (raw ∷ raws) = λ s h.
      then_next-Kept (store_all number hash_key now (i + 1) raws)
        (store_raw number hash_key now i (trim_space raw) s).0
        (store_raw number hash_key now i (trim_space raw) s).1 (store_all-Kept (i + 1) raws)
        (store_raw-Kept i (trim_space raw) s h)

-- Putting the configured webhook keys into the key table, whether it succeeds or fails, leaves every
-- row that was there unchanged and in its place: a key that was revoked stays revoked.
pub key_service-Extends :
    (number : ℕ → String) (hash_key : String → Option String) (now : ℕ) (raws : List String)
    (s : Session KeyTable)
    → Extends s.db (key_service number hash_key now raws s).1.db
unfolding key_service
key_service-Extends number hash_key now raws s =
    store_all-Kept number hash_key now s.db 0 raws s ([], sym (append_nil s.db))
