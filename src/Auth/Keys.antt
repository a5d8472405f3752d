-- ===== src/Auth/Keys.antt =====
-- Keys and the interface Store (internal/auth/service.go).
use mxlrc_go.Common.{ℕ, String, Bool, true, false, List, Option, none, some}
use mxlrc_go.Auth.Scopes.{Result}

pub record Key : Type 0 where
  pub id : String
  pub name : String
  pub hash : String
  pub scopes : List String
  pub created_at : ℕ
  pub revoked_at : Option ℕ

-- The interface Store: what a service calls, over any state of a store.
pub record Store (S : Type 0) : Type 0 where
  pub create : Key → S → Result (Unit {0}) × S
  pub find_by_hash : String → S → Result Key × S
  pub revoke_by_hash : String → ℕ → S → Result Key × S
  pub list : S → Result (List Key) × S

abbrev pub is_revoked : Key → Bool
is_revoked k = elim k.revoked_at [ none ↦ false | some _ ↦ true ]
