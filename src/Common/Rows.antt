-- ===== src/Common/Rows.antt =====
-- Tables as lists of rows: the clauses WHERE, SET, COUNT and DELETE, and what holds of every row.
use Prim.Native.Nat.{ℕ, suc, ◌+◌}
use mathlib.Core.Path.{◌≡◌, refl, ap, subst}
use mathlib.Core.Logic.{◌≢◌, ◌⊎◌, inl, inr}
use mathlib.Core.Bool.{Bool, true, false, ◌||◌}
use mathlib.Core.Option.{Option, none, some}
use mathlib.Core.List.{List, [], ◌∷◌, ◌++◌, map}
use native.Mathlib.Omega.{arith}
use mxlrc_go.Common.Tests.{if◌then◌else◌}

module _ {ℓ} {A : Type ℓ} where
  abbrev pub length : List A → ℕ
  length [] = 0
  length (x ∷ xs) = suc (length xs)

  -- WHERE
  abbrev pub select : (A → Bool) → List A → List A
  select p [] = []
  select p (x ∷ xs) = if p x then x ∷ select p xs else select p xs

  -- UPDATE … SET … WHERE
  abbrev pub update_where : (A → Bool) → (A → A) → List A → List A
  update_where p f [] = []
  update_where p f (x ∷ xs) = (if p x then f x else x) ∷ update_where p f xs

  -- DELETE … WHERE
  abbrev pub delete_where : (A → Bool) → List A → List A
  delete_where p [] = []
  delete_where p (x ∷ xs) = if p x then delete_where p xs else x ∷ delete_where p xs

  -- SELECT COUNT(*) … WHERE
  abbrev pub count_where : (A → Bool) → List A → ℕ
  count_where p [] = 0
  count_where p (x ∷ xs) = if p x then suc (count_where p xs) else count_where p xs

  -- The first row that a WHERE clause finds.
  abbrev pub find_where : (A → Bool) → List A → Option A
  find_where p [] = none
  find_where p (x ∷ xs) = if p x then some x else find_where p xs

  abbrev pub any : (A → Bool) → List A → Bool
  any p [] = false
  any p (x ∷ xs) = p x || any p xs

  abbrev pub head? : List A → Option A
  head? [] = none
  head? (x ∷ xs) = some x

  abbrev pub take : ℕ → List A → List A
  take n [] = []
  take Prim.Native.Nat.zero (x ∷ xs) = []
  take (suc n) (x ∷ xs) = x ∷ take n xs

  abbrev pub All {κ} : (A → Type κ) → List A → Type κ
  All P [] = Unit
  All P (x ∷ xs) = P x × All P xs

  pub All-append {κ} : (P : A → Type κ) (xs ys : List A) → All P xs → All P ys → All P (xs ++ ys)
  All-append P [] ys hx hy = hy
  All-append P (x ∷ xs) ys hx hy = (hx.0, All-append P xs ys hx.1 hy)

  pub All-mono {κ μ} :
      (P : A → Type κ) (Q : A → Type μ)
      → ((a : A) → P a → Q a)
      → (xs : List A) → All P xs
      → All Q xs
  All-mono P Q f [] h = tt
  All-mono P Q f (x ∷ xs) h = (f x h.0, All-mono P Q f xs h.1)

  pub All-zip {κ μ ν} :
      (P : A → Type κ) (Q : A → Type μ) (R : A → Type ν)
      → ((a : A) → P a → Q a → R a)
      → (xs : List A) → All P xs
      → All Q xs
      → All R xs
  All-zip P Q R f [] h k = tt
  All-zip P Q R f (x ∷ xs) h k = (f x h.0 k.0, All-zip P Q R f xs h.1 k.1)

  -- What an update makes of the rows it hits, and what the others are already.
  pub All-update_split {κ μ} :
      (P : A → Type κ) (Q : A → Type μ) (p : A → Bool) (f : A → A)
      → ((a : A) → p a ≡ true → P a → Q (f a))
      → ((a : A) → p a ≡ false → P a → Q a)
      → (xs : List A) → All P xs
      → All Q (update_where p f xs)
  All-update_split P Q p f hit miss [] h = tt
  All-update_split P Q p f hit miss (x ∷ xs) h =
      ground (arith, hit x, miss x, All-update_split P Q p f hit miss xs h.1)

  pub All-delete {κ} :
      (P : A → Type κ) (p : A → Bool) (xs : List A) → All P xs → All P (delete_where p xs)
  All-delete P p [] h = tt
  All-delete P p (x ∷ xs) h = ground (arith, All-delete P p xs h.1)

  pub append_assoc : (xs ys zs : List A) → (xs ++ ys) ++ zs ≡ xs ++ (ys ++ zs)
  append_assoc [] ys zs = refl
  append_assoc (x ∷ xs) ys zs = ap (λ t. x ∷ t) (append_assoc xs ys zs)

  pub append_nil : (xs : List A) → xs ++ [] ≡ xs
  append_nil [] = refl
  append_nil (x ∷ xs) = ap (λ t. x ∷ t) (append_nil xs)

module _ {A : Type 0} where
  abbrev pub In : A → List A → Type 0
  In a [] = ⊥
  In a (x ∷ xs) = (x ≡ a) ⊎ In a xs

  pub All-In {κ} : (P : A → Type κ) {a : A} (xs : List A) → All P xs → In a xs → P a
  All-In P [] h i = elim i [ ]
  All-In P (x ∷ xs) h (inl e) = subst P e h.0
  All-In P (x ∷ xs) h (inr i) = All-In P xs h.1 i

  pub All-of_In {κ} : (P : A → Type κ) (xs : List A) → ((a : A) → In a xs → P a) → All P xs
  All-of_In P [] h = tt
  All-of_In P (x ∷ xs) h = (h x (inl refl), All-of_In P xs (λ a i. h a (inr i)))

  pub All-update {κ} :
      (P : A → Type κ) (p : A → Bool) (f : A → A) (xs : List A)
      → ((a : A) → In a xs → p a ≡ true → P a → P (f a))
      → All P xs
      → All P (update_where p f xs)
  All-update P p f [] step h = tt
  All-update P p f (x ∷ xs) step h =
      ground (arith, step x (inl refl), All-update P p f xs (λ a i. step a (inr i)) h.1)

  pub In-select : (p : A → Bool) (a : A) (xs : List A) → In a (select p xs) → In a xs × (p a ≡ true)
  In-select p a [] i = elim i [ ]
  In-select p a (x ∷ xs) i = ground (arith, In-select p a xs)

  pub In-select_of :
      (p : A → Bool) (a : A) (xs : List A) → In a xs → p a ≡ true → In a (select p xs)
  In-select_of p a [] i h = elim i [ ]
  In-select_of p a (x ∷ xs) i h = ground (arith, In-select_of p a xs)

  pub In-update_other :
      (p : A → Bool) (f : A → A) (a : A) (xs : List A)
      → In a xs
      → p a ≡ false
      → In a (update_where p f xs)
  In-update_other p f a [] i h = elim i [ ]
  In-update_other p f a (x ∷ xs) i h = ground (arith, In-update_other p f a xs)

  pub In-update_hit :
      (p : A → Bool) (f : A → A) (a : A) (xs : List A)
      → In a xs
      → p a ≡ true
      → In (f a) (update_where p f xs)
  In-update_hit p f a [] i h = elim i [ ]
  In-update_hit p f a (x ∷ xs) i h = ground (arith, In-update_hit p f a xs)

  pub find_where-some :
      (p : A → Bool) (xs : List A) (a : A) → find_where p xs ≡ some a → In a xs × (p a ≡ true)
  find_where-some p [] a h = ground arith
  find_where-some p (x ∷ xs) a h = ground (arith, find_where-some p xs a)

  pub find_where-none :
      (p : A → Bool) (xs : List A) → find_where p xs ≡ none → All (λ a. p a ≡ false) xs
  find_where-none p [] h = tt
  find_where-none p (x ∷ xs) h = ground (arith, find_where-none p xs)

  pub find_where-found :
      (p : A → Bool) (a : A) (xs : List A) → In a xs → p a ≡ true → find_where p xs ≢ none
  find_where-found p a [] i h = elim i [ ]
  find_where-found p a (x ∷ xs) (inl e) h = ground arith
  find_where-found p a (x ∷ xs) (inr i) h = ground (arith, find_where-found p a xs i h)

  pub select-none : (p : A → Bool) (xs : List A) → select p xs ≡ [] → All (λ a. p a ≡ false) xs
  select-none p [] h = tt
  select-none p (x ∷ xs) h = ground (arith, select-none p xs)

pub All-map :
    {A B : Type 0} (P : B → Type 0) (f : A → B) (xs : List A)
    → All (λ a. P (f a)) xs
    → All P (map f xs)
All-map P f [] h = tt
All-map P f (x ∷ xs) h = (h.0, All-map P f xs h.1)

pub In-map : {A B : Type 0} (f : A → B) (a : A) (xs : List A) → In a xs → In (f a) (map f xs)
In-map f a [] i = elim i [ ]
In-map f a (x ∷ xs) (inl e) = inl (ap f e)
In-map f a (x ∷ xs) (inr i) = inr (In-map f a xs i)
