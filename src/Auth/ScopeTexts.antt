-- ===== src/Auth/ScopeTexts.antt =====
-- Scopes as a service normalizes them and as a table stores them (internal/auth/service.go,
-- internal/auth/store.go).
use Prim.Native.String.{String}
use mxlrc_go.Common.{
  ◌++◌, eq_iff, Bool-cases, text_eq, sym, if◌then◌else◌, ◌⊎◌, subst, List, any, true, refl, inl,
  inr, [], ◌∷◌, arith, ◌≡◌,
}
use mxlrc_go.Auth.Text.{trim_space}
use mxlrc_go.Auth.Scopes.{
  scope_before, Result, ok, err, scope_webhook, scope_admin, is_supported, collect_scopes,
  normalize_scopes, sorted,
}
use mxlrc_go.Auth.Sql.{encode_scopes, decode_scopes}
use mxlrc_go.Common.Sorting.{order_by}

-- What the loop of NormalizeScopes has collected.
data IsCollected : List String → Type 0 where
  neither : IsCollected []
  only_webhook : IsCollected (scope_webhook ∷ [])
  only_admin : IsCollected (scope_admin ∷ [])
  webhook_first : IsCollected (scope_webhook ∷ scope_admin ∷ [])
  admin_first : IsCollected (scope_admin ∷ scope_webhook ∷ [])

abbrev pub with_scope : String → List String → List String
with_scope scope norm = if any (text_eq scope) norm then norm else norm ++ scope ∷ []

with_webhook-IsCollected :
    {norm : List String} → IsCollected norm → IsCollected (with_scope scope_webhook norm)
with_webhook-IsCollected neither = only_webhook
with_webhook-IsCollected only_webhook = only_webhook
with_webhook-IsCollected only_admin = admin_first
with_webhook-IsCollected webhook_first = webhook_first
with_webhook-IsCollected admin_first = admin_first

with_admin-IsCollected :
    {norm : List String} → IsCollected norm → IsCollected (with_scope scope_admin norm)
with_admin-IsCollected neither = only_admin
with_admin-IsCollected only_webhook = webhook_first
with_admin-IsCollected only_admin = only_admin
with_admin-IsCollected webhook_first = webhook_first
with_admin-IsCollected admin_first = admin_first

is_supported-cases :
    (scope : String) → is_supported scope ≡ true → (scope ≡ scope_webhook) ⊎ (scope ≡ scope_admin)
is_supported-cases scope h = elim (Bool-cases (text_eq scope scope_webhook)) [
  | inl is_hook ↦ inl ((eq_iff scope scope_webhook).0 is_hook)
  | inr other ↦ inr ((eq_iff scope scope_admin).0 (ground arith))
]

with_scope-IsCollected :
    (scope : String) {norm : List String}
    → is_supported scope ≡ true
    → IsCollected norm
    → IsCollected (with_scope scope norm)
with_scope-IsCollected scope {norm} h c = elim (is_supported-cases scope h) [
  | inl e ↦ subst (λ s. IsCollected (with_scope s norm)) (sym e) (with_webhook-IsCollected c)
  | inr e ↦ subst (λ s. IsCollected (with_scope s norm)) (sym e) (with_admin-IsCollected c)
]

collect_scopes-IsCollected :
    (norm vs out : List String)
    → IsCollected norm
    → collect_scopes norm vs ≡ ok out
    → IsCollected out
unfolding collect_scopes
collect_scopes-IsCollected norm [] out c h = subst IsCollected {x = norm} (ground arith) c
collect_scopes-IsCollected norm (v ∷ vs) out c h = elim (Bool-cases (is_supported (trim_space v))) [
  | inl known ↦
      collect_scopes-IsCollected (with_scope (trim_space v) norm) vs out
        (with_scope-IsCollected (trim_space v) known c) (ground arith)
  | inr unknown ↦ absurd (ground arith)
]

order_by-decoded :
    {norm : List String}
    → IsCollected norm
    → decode_scopes (encode_scopes (order_by scope_before norm)) ≡ order_by scope_before norm
unfolding decode_scopes encode_scopes
order_by-decoded neither = refl
order_by-decoded only_webhook = refl
order_by-decoded only_admin = refl
order_by-decoded webhook_first = refl
order_by-decoded admin_first = refl

sorted-decoded :
    (r : Result (List String)) (norm : List String)
    → ((out : List String) → r ≡ ok out → IsCollected out)
    → sorted r ≡ ok norm
    → decode_scopes (encode_scopes norm) ≡ norm
sorted-decoded (err e) norm h k = absurd (cc)
sorted-decoded (ok out) norm h k =
    subst (λ ns. decode_scopes (encode_scopes ns) ≡ ns) {x = order_by scope_before out} (cc)
      (order_by-decoded (h out refl))

-- Scopes that NormalizeScopes has accepted are what is read back from their text in the table.
pub normalize-then-decode :
    (scopes norm : List String)
    → normalize_scopes scopes ≡ ok norm
    → decode_scopes (encode_scopes norm) ≡ norm
unfolding normalize_scopes
normalize-then-decode [] norm h = absurd (cc)
normalize-then-decode (v ∷ vs) norm h =
    sorted-decoded (collect_scopes [] (v ∷ vs)) norm
      (λ out k. collect_scopes-IsCollected [] (v ∷ vs) out neither k) h
