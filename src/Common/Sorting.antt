-- ===== src/Common/Sorting.antt =====
-- ORDER BY as insertion sort over a Boolean comparison that is total and transitive.
use mathlib.Core.Path.{◌≡◌}
use mathlib.Core.Logic.{◌⊎◌, inl, inr}
use mathlib.Core.Bool.{Bool, true, false}
use mathlib.Core.Option.{some}
use mathlib.Core.List.{List, [], ◌∷◌}
use native.Mathlib.Omega.{arith}
use mxlrc_go.Common.Tests.{if◌then◌else◌, Bool-cases}
use mxlrc_go.Common.Rows.{head?, In, All, All-In, All-mono}

module _ {A : Type 0} (before : A → A → Bool) where
  abbrev pub insert : A → List A → List A
  insert a [] = a ∷ []
  insert a (x ∷ xs) = if before a x then a ∷ x ∷ xs else x ∷ insert a xs

  abbrev pub order_by : List A → List A
  order_by [] = []
  order_by (x ∷ xs) = insert x (order_by xs)

  abbrev pub Sorted : List A → Type 0
  Sorted [] = Unit
  Sorted (x ∷ xs) = All (λ y. before x y ≡ true) xs × Sorted xs

  pub In-insert : (a b : A) (xs : List A) → In b (insert a xs) → (a ≡ b) ⊎ In b xs
  In-insert a b [] i = i
  In-insert a b (x ∷ xs) i = ground (arith, In-insert a b xs)

  pub In-order_by : (b : A) (xs : List A) → In b (order_by xs) → In b xs
  In-order_by b [] i = i
  In-order_by b (x ∷ xs) i = elim (In-insert x b (order_by xs) i) [
    | inl e ↦ inl e
    | inr j ↦ inr (In-order_by b xs j)
  ]

  In-insert_self : (a b : A) (xs : List A) → a ≡ b → In b (insert a xs)
  In-insert_self a b [] e = inl e
  In-insert_self a b (x ∷ xs) e = ground (arith, In-insert_self a b xs e)

  In-insert_of : (a b : A) (xs : List A) → In b xs → In b (insert a xs)
  In-insert_of a b [] i = elim i [ ]
  In-insert_of a b (x ∷ xs) i = ground (arith, In-insert_of a b xs)

  pub In-order_by_of : (b : A) (xs : List A) → In b xs → In b (order_by xs)
  In-order_by_of b [] i = i
  In-order_by_of b (x ∷ xs) (inl e) = In-insert_self x b (order_by xs) e
  In-order_by_of b (x ∷ xs) (inr i) = In-insert_of x b (order_by xs) (In-order_by_of b xs i)

  All-insert {κ} : (P : A → Type κ) (a : A) (xs : List A) → P a → All P xs → All P (insert a xs)
  All-insert P a [] h hs = (h, tt)
  All-insert P a (x ∷ xs) h hs = ground (arith, All-insert P a xs h hs.1)

  module _ (total : (a b : A) → before a b ≡ false → before b a ≡ true)
      (trans : (a b c : A) → before a b ≡ true → before b c ≡ true → before a c ≡ true) where
    Sorted-insert : (a : A) (xs : List A) → Sorted xs → Sorted (insert a xs)
    Sorted-insert a [] s = (tt, tt)
    Sorted-insert a (x ∷ xs) s = elim (Bool-cases (before a x)) [
      | inl h ↦ rw h ((h, All-mono _ _ (λ y k. trans a x y h k) xs s.0), s)
      | inr h ↦ rw h (All-insert _ a xs (total a x h) s.0, Sorted-insert a xs s.1)
    ]

    pub Sorted-order_by : (xs : List A) → Sorted (order_by xs)
    Sorted-order_by [] = tt
    Sorted-order_by (x ∷ xs) = Sorted-insert x (order_by xs) (Sorted-order_by xs)

    -- LIMIT 1 of the order: a row of the table that no row of it precedes.
    head?-Sorted :
        (l : List A) {a : A}
        → Sorted l
        → head? l ≡ some a
        → (b : A) → In b l
        → (a ≡ b) ⊎ (before a b ≡ true)
    head?-Sorted [] s h b i = elim i [ ]
    head?-Sorted (x ∷ l) s h b (inl e) = inl (cc)
    head?-Sorted (x ∷ l) s h b (inr i) = inr (ground (arith, All-In _ l s.0 i))

    pub head?-order_by :
        (xs : List A) {a : A}
        → head? (order_by xs) ≡ some a
        → (b : A) → In b xs
        → (a ≡ b) ⊎ (before a b ≡ true)
    head?-order_by xs h b i =
        head?-Sorted (order_by xs) (Sorted-order_by xs) h b (In-order_by_of b xs i)

pub In-head? : {A : Type 0} (xs : List A) {a : A} → head? xs ≡ some a → In a xs
In-head? [] h = cc
In-head? (x ∷ xs) h = inl (cc)
