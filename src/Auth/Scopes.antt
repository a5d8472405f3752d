-- ===== src/Auth/Scopes.antt =====
-- Scopes of API keys (internal/auth/service.go), and the errors of the package.
use mxlrc_go.Common.{String, Bool, ◌||◌, List, [], ◌∷◌, ◌++◌, any, text_eq, if◌then◌else◌}
use mxlrc_go.Common.Sorting.{order_by}
use mxlrc_go.Auth.Text.{trim_space}

pub data Error : Type 0 where
  canceled empty_hash duplicate_key invalid_key revoked_key forbidden_scope no_scopes
        unsupported_scope hash_too_short hash_failed random_failed invalid_format no_webhook_key
        store_failure :
      Error

pub data Result (A : Type 0) : Type 0 where
  ok : A → Result A
  err : Error → Result A

abbrev pub scope_webhook : String
scope_webhook = "webhook"

abbrev pub scope_admin : String
scope_admin = "admin"

abbrev pub is_supported : String → Bool
is_supported scope = text_eq scope scope_webhook || text_eq scope scope_admin

-- The order of slices.Sort on the two supported scopes.
abbrev pub scope_before : String → String → Bool
scope_before a b = text_eq a scope_admin || text_eq b scope_webhook

-- The loop of NormalizeScopes; what `norm` holds has been seen.
unfoldable pub collect_scopes : List String → List String → Result (List String)
unfolding trim_space
collect_scopes norm [] = ok norm
collect_scopes norm (v ∷ vs) =
    let scope = trim_space v in
    let rest = collect_scopes (if any (text_eq scope) norm then norm else norm ++ scope ∷ []) vs in
    if is_supported scope then rest else err unsupported_scope

abbrev pub sorted : Result (List String) → Result (List String)
sorted (ok norm) = ok (order_by scope_before norm)
sorted (err e) = err e

unfoldable pub normalize_scopes : List String → Result (List String)
unfolding collect_scopes
normalize_scopes [] = err no_scopes
normalize_scopes (v ∷ vs) = sorted (collect_scopes [] (v ∷ vs))

-- No scope is required where `required` is empty.
unfoldable pub has_scope : List String → String → Bool
has_scope scopes required =
    text_eq required "" || any (λ v. text_eq v scope_admin || text_eq v required) scopes
