-- ===== src/Common/Texts.antt =====
-- Texts in a list, by the native equality.
use mxlrc_go.Common.{
  String, List, [], ◌∷◌, In, any, text_eq, eq_iff, ◌≡◌, true, sym, inl, inr, Bool-cases, arith,
}

pub any-In : (t : String) (ls : List String) → In t ls → any (text_eq t) ls ≡ true
any-In t [] i = elim i [ ]
any-In t (l ∷ ls) (inl e) = ground (arith, (eq_iff t l).1 (sym e))
any-In t (l ∷ ls) (inr i) = ground (arith, any-In t ls i)

pub In-any : (t : String) (ls : List String) → any (text_eq t) ls ≡ true → In t ls
In-any t [] h = absurd (cc)
In-any t (l ∷ ls) h = elim (Bool-cases (text_eq t l)) [
  | inl same ↦ inl (sym ((eq_iff t l).0 same))
  | inr other ↦ inr (In-any t ls (ground arith))
]
