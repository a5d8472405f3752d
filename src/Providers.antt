-- ===== src/Providers.antt =====
-- internal/providers/providers.go: providers by name. A fetcher is a value of any type, and a
-- candidate may be nil.
use Prim.Native.String.{String}
use mxlrc_go.Common.{
  Bool, true, false, List, [], ◌∷◌, Option, none, some, text_eq, any, if◌then◌else◌, refl, inl, inr,
  arith, ◌∙◌, ◌≡◌, zero, suc,
}
use mxlrc_go.Auth.Text.{trim_space}
use mxlrc_go.Strings.Splitting.{to_lower}
pub mod Choice

abbrev pub musixmatch : String
musixmatch = "musixmatch"

unfoldable pub normalize_name : String → String
unfolding trim_space to_lower
normalize_name name = to_lower (trim_space name)

unfoldable pub provider_disabled : String → List String → Bool
unfolding normalize_name
provider_disabled name disabled =
    any (λ v. text_eq (normalize_name v) (normalize_name name)) disabled

abbrev pub primary_name : String → String
primary_name primary =
    if text_eq (normalize_name primary) "" then musixmatch else normalize_name primary

pub record NamedProvider (F : Type 0) : Type 0 where
  pub name : String
  pub fetcher : F

pub data Selected (F : Type 0) : Type 0 where
  selected : NamedProvider F → Selected F
  disabled_provider unsupported_provider : Selected F

module _ {F : Type 0} where
  -- New
  unfoldable pub new_provider : String → F → NamedProvider F
  unfolding normalize_name
  new_provider name fetcher = record { name = normalize_name name; fetcher = fetcher }

  abbrev pub candidate : String → Option (NamedProvider F) → Selected F → Selected F
  candidate primary none rest = rest
  candidate primary (some c) rest =
      if text_eq (normalize_name c.name) primary then selected c else rest

  unfoldable pub first_candidate : String → List (Option (NamedProvider F)) → Selected F
  unfolding normalize_name
  first_candidate primary [] = unsupported_provider
  first_candidate primary (c ∷ cs) = candidate primary c (first_candidate primary cs)

  -- Select
  unfoldable pub select_provider :
      String → List String → List (Option (NamedProvider F)) → Selected F
  unfolding normalize_name provider_disabled first_candidate
  select_provider primary disabled candidates =
      if provider_disabled (primary_name primary) disabled
      then disabled_provider
      else first_candidate (primary_name primary) candidates
