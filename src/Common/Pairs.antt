-- ===== src/Common/Pairs.antt =====
-- A relation between every row of a table and every later one, and the tests that updates keep.
use mathlib.Core.Path.{◌≡◌, refl}
use mathlib.Core.Bool.{Bool}
use mathlib.Core.List.{List, [], ◌∷◌, ◌++◌}
use native.Mathlib.Omega.{arith}
use mxlrc_go.Common.Rows.{All, All-append, All-delete, All-mono, any, update_where, delete_where}

module _ {A : Type 0} (R : A → A → Type 0) where
  abbrev pub Pairwise : List A → Type 0
  Pairwise [] = Unit
  Pairwise (x ∷ xs) = All (R x) xs × Pairwise xs

  pub Pairwise-delete : (p : A → Bool) (xs : List A) → Pairwise xs → Pairwise (delete_where p xs)
  Pairwise-delete p [] h = tt
  Pairwise-delete p (x ∷ xs) h = ground (arith, All-delete (R x) p xs h.0, Pairwise-delete p xs h.1)

  pub Pairwise-snoc :
      (xs : List A) (a : A) → All (λ x. R x a) xs → Pairwise xs → Pairwise (xs ++ a ∷ [])
  Pairwise-snoc [] a h hs = (tt, tt)
  Pairwise-snoc (x ∷ xs) a h hs =
      (All-append (R x) xs (a ∷ []) hs.0 (h.0, tt), Pairwise-snoc xs a h.1 hs.1)

  -- An update that leaves alone what the relation reads.
  module _ (p : A → Bool) (f : A → A) (left : (a b : A) → R a b → R (f a) b)
      (right : (a b : A) → R a b → R a (f b)) where
    All-update_right : (x : A) (xs : List A) → All (R x) xs → All (R x) (update_where p f xs)
    All-update_right x [] h = tt
    All-update_right x (y ∷ ys) h = ground (arith, right x y h.0, All-update_right x ys h.1)

    pub Pairwise-update : (xs : List A) → Pairwise xs → Pairwise (update_where p f xs)
    Pairwise-update [] h = tt
    Pairwise-update (x ∷ xs) h = ground (
      arith,
      All-mono (R x) (R (f x)) (left x) (update_where p f xs) (All-update_right x xs h.0),
      All-update_right x xs h.0,
      Pairwise-update xs h.1,
    )

pub any-update {ℓ} :
    {A : Type ℓ} (q p : A → Bool) (f : A → A)
    → ((a : A) → q (f a) ≡ q a)
    → (xs : List A) → any q (update_where p f xs) ≡ any q xs
any-update q p f same [] = refl
any-update q p f same (x ∷ xs) = ground (arith, same x, any-update q p f same xs)
