-- ===== src/Providers/Choice.antt =====
-- What Select (internal/providers/providers.go) chooses.
use Prim.Native.String.{String}
use mxlrc_go.Common.{
  eq_iff, sym, ap, text_eq, Bool-cases, List, Option, In, false, none, some, inl, inr, [], ◌∷◌,
  arith, ◌∙◌, ◌≡◌,
}
use mxlrc_go.Providers.{
  NamedProvider, selected, first_candidate, primary_name, normalize_name, provider_disabled,
  select_provider,
}

module _ {F : Type 0} where
  first_candidate-selected :
      (primary : String) (cs : List (Option (NamedProvider F))) (c : NamedProvider F)
      → first_candidate primary cs ≡ selected c
      → In (some c) cs × (normalize_name c.name ≡ primary)
  unfolding first_candidate
  first_candidate-selected primary [] c h = absurd (cc)
  first_candidate-selected primary (none ∷ cs) c h =
      let (i, e) = first_candidate-selected primary cs c h in (inr i, e)
  first_candidate-selected primary (some d ∷ cs) c h =
      elim (Bool-cases (text_eq (normalize_name d.name) primary)) [
        | inl named ↦
            let e : d ≡ c = ground arith in
            (inl (ap some e), ap (λ x. normalize_name x.name) (sym e) ∙ (eq_iff _ primary).0 named)
        | inr other ↦
            let (i, e) = first_candidate-selected primary cs c (ground arith) in (inr i, e)
      ]

  -- A provider that Select chooses is a candidate whose normalized name is the primary one, or
  -- musixmatch where none is configured, and no disabled name normalizes to it.
  pub select-selected :
      (primary : String) (disabled : List String) (cs : List (Option (NamedProvider F)))
      (c : NamedProvider F)
      → select_provider primary disabled cs ≡ selected c
      → In (some c) cs
        × (normalize_name c.name ≡ primary_name primary)
        × (provider_disabled (primary_name primary) disabled ≡ false)
  unfolding select_provider
  select-selected primary disabled cs c h =
      elim (Bool-cases (provider_disabled (primary_name primary) disabled)) [
        | inl off ↦ absurd (ground arith)
        | inr on ↦
            let (i, e) = first_candidate-selected (primary_name primary) cs c (ground arith) in
            (i, e, on)
      ]
