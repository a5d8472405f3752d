-- ===== src/Strings/Suffixes.antt =====
-- TrimSuffix of Go's strings followed by another suffix.
use Prim.Native.String.{String, len, slice, ◌++◌}
use text.Mathlib.TextPositions.{len-append, slice-append_right}
use mxlrc_go.Common.{eq_iff, Bool-cases, sym, ◌≢◌, ap, ◌+◌, ◌-◌, ◌<◌, inl, inr, arith, ◌∙◌, ◌≡◌}
use mxlrc_go.Strings.Splitting.{has_suffix, trim_suffix}

append-longer : (s u : String) → 0 < len u → s ++ u ≢ s
append-longer s u positive e =
    let n : len (s ++ u) ≡ len s = ap len e in let m = len-append s u in absurd (omega arith)

-- The end of a text that is `a` and `u`.
append-end : (s a u : String) → a ++ u ≡ s → slice s (len s - len u) (len s) ≡ u
append-end s a u e =
    let n : len s ≡ len a + len u = ap len (sym e) ∙ len-append a u in
    let k : len s - len u ≡ len a = omega arith in
    ap (λ i. slice s i (len s)) k
    ∙ (ap (λ x. slice s (len a) x) n
        ∙ (ap (λ x. slice x (len a) (len a + len u)) (sym e) ∙ slice-append_right a u))

-- A text is not itself with its suffix exchanged for another of the same length.
pub trim_suffix-changed :
    (s t u : String) → len t ≡ len u → 0 < len u → t ≢ u → trim_suffix s t ++ u ≢ s
unfolding trim_suffix has_suffix
trim_suffix-changed s t u same positive other e = elim (Bool-cases (has_suffix s t)) [
  | inl ends ↦
      let trimmed : slice s 0 (len s - len t) ++ u ≡ s = ground arith in
      let is_t : slice s (len s - len t) (len s) ≡ t =
        (eq_iff (slice s (len s - len t) (len s)) t).0 (ground arith) in
      let is_u : slice s (len s - len u) (len s) ≡ u = append-end s _ u trimmed in
      other (sym is_t ∙ (ap (λ n. slice s (len s - n) (len s)) same ∙ is_u))
  | inr not_ends ↦ let longer : s ++ u ≡ s = ground arith in append-longer s u positive longer
]
