-- ===== src/Auth/Granting.antt =====
-- The scopes that a key is given and those that it grants (internal/auth/service.go).
use Prim.Native.String.{String}
use mxlrc_go.Common.{
  List, [], ◌∷◌, ◌++◌, In, any, text_eq, eq_iff, ◌≡◌, ◌⊎◌, true, refl, sym, subst, inl, inr,
  Bool-cases, arith, ◌||◌,
}
use mxlrc_go.Common.Texts.{In-any}
use mxlrc_go.Common.Sorting.{order_by, In-order_by, In-order_by_of}
use mxlrc_go.Auth.Text.{trim_space}
use mxlrc_go.Auth.Scopes.{
  Result, ok, err, scope_before, sorted, is_supported, collect_scopes, normalize_scopes, has_scope,
}
use mxlrc_go.Auth.ScopeTexts.{with_scope}

-- The scope stands among the values, but for blanks around it.
abbrev pub IsGiven : String → List String → Type 0
IsGiven w vs = (v : String) × In v vs × (trim_space v ≡ w)

-- The values ask for nothing less than the scope: none is required, or it is given, or admin is.
abbrev pub Grants : List String → String → Type 0
Grants vs required = (required ≡ "") ⊎ (IsGiven "admin" vs ⊎ IsGiven required vs)

In-left : (w : String) (xs ys : List String) → In w xs → In w (xs ++ ys)
In-left w [] ys i = elim i [ ]
In-left w (x ∷ xs) ys (inl e) = inl e
In-left w (x ∷ xs) ys (inr i) = inr (In-left w xs ys i)

In-last : (w : String) (xs : List String) → In w (xs ++ w ∷ [])
In-last w [] = inl refl
In-last w (x ∷ xs) = inr (In-last w xs)

In-append : (w x : String) (xs : List String) → In w (xs ++ x ∷ []) → In w xs ⊎ (x ≡ w)
In-append w x [] (inl e) = inr e
In-append w x [] (inr i) = elim i [ ]
In-append w x (y ∷ xs) (inl e) = inl (inl e)
In-append w x (y ∷ xs) (inr i) = elim (In-append w x xs i) [ inl j ↦ inl (inr j) | inr e ↦ inr e ]

In-with_scope : (w scope : String) (norm : List String) → In w norm → In w (with_scope scope norm)
In-with_scope w scope norm i = elim (Bool-cases (any (text_eq scope) norm)) [
  | inl known ↦ subst (In w) {x = norm} (ground arith) i
  | inr new ↦ subst (In w) {x = norm ++ scope ∷ []} (ground arith) (In-left w norm (scope ∷ []) i)
]

In-with_scope_self : (scope : String) (norm : List String) → In scope (with_scope scope norm)
In-with_scope_self scope norm = elim (Bool-cases (any (text_eq scope) norm)) [
  | inl known ↦ subst (In scope) {x = norm} (ground arith) (In-any scope norm known)
  | inr new ↦ subst (In scope) {x = norm ++ scope ∷ []} (ground arith) (In-last scope norm)
]

In-with_scope_of :
    (w scope : String) (norm : List String) → In w (with_scope scope norm) → In w norm ⊎ (scope ≡ w)
In-with_scope_of w scope norm i = elim (Bool-cases (any (text_eq scope) norm)) [
  | inl known ↦ inl (subst (In w) {y = norm} (ground arith) i)
  | inr new ↦ In-append w scope norm (subst (In w) {y = norm ++ scope ∷ []} (ground arith) i)
]

collect_scopes-In :
    (w : String) (vs norm out : List String)
    → collect_scopes norm vs ≡ ok out
    → (In w norm ⊎ IsGiven w vs → In w out) × (In w out → In w norm ⊎ IsGiven w vs)
unfolding collect_scopes
collect_scopes-In w [] norm out h =
    let same : norm ≡ out = ground arith in
    (
      λ c. elim c [ inl i ↦ subst (In w) same i | inr g ↦ elim g.1 [ ] ],
      λ i. inl (subst (In w) (sym same) i),
    )
collect_scopes-In w (v ∷ vs) norm out h = elim (Bool-cases (is_supported (trim_space v))) [
  | inr unknown ↦ absurd (ground arith)
  | inl known ↦
      let scope = trim_space v in
      let (into, from) = collect_scopes-In w vs (with_scope scope norm) out (ground arith) in
      (
        λ c. elim c [
          | inl i ↦ into (inl (In-with_scope w scope norm i))
          | inr (x, i, e) ↦ elim i [
            | inl here ↦ into (
                inl (
                  subst (λ y. In y (with_scope scope norm))
                    (subst (λ y. trim_space y ≡ w) (sym here) e) (In-with_scope_self scope norm)))
            | inr there ↦ into (inr (x, there, e))
          ]
        ],
        λ i. elim (from i) [
          | inl j ↦ elim (In-with_scope_of w scope norm j) [
            | inl k ↦ inl k
            | inr e ↦ inr (v, inl refl, e)
          ]
          | inr (x, k, e) ↦ inr (x, inr k, e)
        ],
      )
]

-- What NormalizeScopes has accepted holds the given scopes and no other.
pub normalize_scopes-In :
    (w : String) (vs norm : List String)
    → normalize_scopes vs ≡ ok norm
    → (IsGiven w vs → In w norm) × (In w norm → IsGiven w vs)
unfolding normalize_scopes
normalize_scopes-In w [] norm h = absurd (cc)
normalize_scopes-In w (v ∷ vs) norm h = split (collect_scopes [] (v ∷ vs)) refl h
  where
    split :
        (r : Result (List String))
        → collect_scopes [] (v ∷ vs) ≡ r
        → sorted r ≡ ok norm
        → (IsGiven w (v ∷ vs) → In w norm) × (In w norm → IsGiven w (v ∷ vs))
    split (err e) q k = absurd (cc)
    split (ok out) q k =
        let (into, from) = collect_scopes-In w (v ∷ vs) [] out q in
        let same : order_by scope_before out ≡ norm = ground arith in
        (
          λ g. subst (In w) same (In-order_by_of scope_before w out (into (inr g))),
          λ i. elim (from (In-order_by scope_before w out (subst (In w) (sym same) i))) [
            | inl j ↦ elim j [ ]
            | inr g ↦ g
          ],
        )

-- `has_scope` on lists of scopes.
any_scope-In :
    (required : String) (scopes : List String)
    → (any (λ v. text_eq v "admin" || text_eq v required) scopes ≡ true
        → In "admin" scopes ⊎ In required scopes)
      × (In "admin" scopes ⊎ In required scopes
          → any (λ v. text_eq v "admin" || text_eq v required) scopes ≡ true)
any_scope-In required [] =
    (λ h. absurd (cc), λ c. elim c [ inl i ↦ elim i [ ] | inr i ↦ elim i [ ] ])
any_scope-In required (x ∷ xs) =
    let (from, into) = any_scope-In required xs in
    (
      λ h. elim (Bool-cases (text_eq x "admin")) [
        | inl a ↦ inl (inl ((eq_iff x "admin").0 a))
        | inr na ↦ elim (Bool-cases (text_eq x required)) [
          | inl b ↦ inr (inl ((eq_iff x required).0 b))
          | inr nb ↦ elim (from (ground arith)) [ inl i ↦ inl (inr i) | inr i ↦ inr (inr i) ]
        ]
      ],
      λ c. elim c [
        | inl i ↦ elim i [
          | inl e ↦ ground (arith, (eq_iff x "admin").1 e)
          | inr j ↦ ground (arith, into (inl j))
        ]
        | inr i ↦ elim i [
          | inl e ↦ ground (arith, (eq_iff x required).1 e)
          | inr j ↦ ground (arith, into (inr j))
        ]
      ],
    )

-- A scope is granted by the scopes that were given exactly where HasScope says so of the normal ones.
pub has_scope-Grants :
    (required : String) (vs norm : List String)
    → normalize_scopes vs ≡ ok norm
    → (has_scope norm required ≡ true → Grants vs required)
      × (Grants vs required → has_scope norm required ≡ true)
unfolding has_scope
has_scope-Grants required vs norm h =
    let (from, into) = any_scope-In required norm in
    let (given_admin, admin_given) = normalize_scopes-In "admin" vs norm h in
    let (given, is_given) = normalize_scopes-In required vs norm h in
    (
      λ k. elim (Bool-cases (text_eq required "")) [
        | inl blank ↦ inl ((eq_iff required "").0 blank)
        | inr named ↦ elim (from (ground arith)) [
          | inl i ↦ inr (inl (admin_given i))
          | inr i ↦ inr (inr (is_given i))
        ]
      ],
      λ g. elim g [
        | inl blank ↦ ground (arith, (eq_iff required "").1 blank)
        | inr some_given ↦ elim some_given [
          | inl a ↦ ground (arith, into (inl (given_admin a)))
          | inr r ↦ ground (arith, into (inr (given r)))
        ]
      ],
    )
