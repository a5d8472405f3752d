-- ===== src/Verification/Scores.antt =====
-- The similarity of a transcript and the lyrics (internal/verification/verification.go).
use Prim.Native.String.{String}
use mxlrc_go.Common.{
  In, All, All-mono, ◌≢◌, Bool-cases, text_eq, ℕ, ◌≤◌, ◌<◌, Bool, List, any, count_where, length,
  [], ◌∷◌, arith, true, false, refl, inl, inr, ◌≡◌,
}
use mxlrc_go.Common.Texts.{any-In, In-any}
use mxlrc_go.Verification.{overlap, token_set, similarity}

module _ {A : Type 0} (p : A → Bool) where
  count-le : (xs : List A) → count_where p xs ≤ length xs
  count-le [] = omega arith
  count-le (x ∷ xs) = ground (arith, count-le xs)

  count-All : (xs : List A) → All (λ x. p x ≡ true) xs → count_where p xs ≡ length xs
  count-All [] h = omega arith
  count-All (x ∷ xs) h = ground (arith, count-All xs)

  count_none : (xs : List A) → All (λ x. p x ≡ false) xs → count_where p xs ≡ 0
  count_none [] h = omega arith
  count_none (x ∷ xs) h = ground (arith, count_none xs)

any-not-In : (t : String) (ls : List String) → ¬ In t ls → any (text_eq t) ls ≡ false
any-not-In t ls h = elim (Bool-cases (any (text_eq t) ls)) [
  | inl hit ↦ absurd (h (In-any t ls hit))
  | inr miss ↦ miss
]

overlap-le : (ts ls : List String) → (overlap ts ls).matches ≤ (overlap ts ls).total
overlap-le ts ls = ground (arith, count-le (λ t. any (text_eq t) ls) ts)

overlap-pos : (ts ls : List String) → 0 < (overlap ts ls).total
overlap-pos ts ls = ground arith

overlap-All :
    (ts ls : List String)
    → ts ≢ []
    → All (λ t. In t ls) ts
    → (overlap ts ls).matches ≡ (overlap ts ls).total
overlap-All [] ls h k = absurd (h refl)
overlap-All (t ∷ ts) [] h k = elim k.0 [ ]
overlap-All (t ∷ ts) (l ∷ ls) h k =
    let every =
      count-All (λ v. any (text_eq v) (l ∷ ls)) (t ∷ ts)
        (All-mono (λ v. In v (l ∷ ls)) (λ v. any (text_eq v) (l ∷ ls) ≡ true)
          (λ v i. any-In v (l ∷ ls) i) (t ∷ ts) k) in
    ground arith

overlap_none : (ts ls : List String) → All (λ t. ¬ In t ls) ts → (overlap ts ls).matches ≡ 0
overlap_none [] ls k = refl
overlap_none (t ∷ ts) [] k = ground arith
overlap_none (t ∷ ts) (l ∷ ls) k =
    let no_one =
      count_none (λ v. any (text_eq v) (l ∷ ls)) (t ∷ ts)
        (All-mono (λ v. ¬ In v (l ∷ ls)) (λ v. any (text_eq v) (l ∷ ls) ≡ false)
          (λ v n. any-not-In v (l ∷ ls) n) (t ∷ ts) k) in
    ground arith

-- The similarity is a quotient of counts, from 0 to 1 and with a positive denominator. It is 1 where
-- the transcript has tokens and all of them are tokens of the lyrics, and 0 where none of them is.
pub similarity-bounds :
    (is_word : ℕ → Bool) (normalize_key : String → String) (transcript lyrics : String)
    → let score = similarity is_word normalize_key transcript lyrics in
      let heard = token_set is_word normalize_key transcript in
      let sung = token_set is_word normalize_key lyrics in
      (0 < score.total)
      × (score.matches ≤ score.total)
      × (heard ≢ [] → All (λ t. In t sung) heard → score.matches ≡ score.total)
      × (All (λ t. ¬ In t sung) heard → score.matches ≡ 0)
unfolding similarity
similarity-bounds is_word normalize_key transcript lyrics =
    let heard = token_set is_word normalize_key transcript in
    let sung = token_set is_word normalize_key lyrics in
    (overlap-pos heard sung, overlap-le heard sung, overlap-All heard sung, overlap_none heard sung)
