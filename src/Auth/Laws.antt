-- ===== src/Auth/Laws.antt =====
-- API keys (internal/auth/service.go, internal/auth/store.go): what follows a creation.
use text.Mathlib.Text.{starts_with}
use mxlrc_go.Common.{◌/◌, ◌*◌, String, Option, some, none, ◌≡◌, true, List}
use mxlrc_go.Auth.Scopes.{ok}
use mxlrc_go.Auth.Keys.{Key}
use mxlrc_go.Auth.Sql.{KeyTable, create}
use mxlrc_go.Store.Session.{Session}
use mxlrc_go.Auth.Service.{CreatedKey, key_prefix}

-- The key as the table gives it back: its time of creation in whole seconds.
abbrev pub reloaded : Key → Key
reloaded key = record key { created_at = key.created_at / 1000000000 * 1000000000 }

module _ (hash_key : String → Option String) where
  -- What a successful CreateKey leaves behind.
  record Created (norm : List String) (c : CreatedKey) (s t : Session KeyTable) : Type 0 where
    scopes : c.key.scopes ≡ norm
    hashed : hash_key c.raw ≡ some c.key.hash
    prefixed : starts_with c.raw key_prefix ≡ true
    unrevoked : c.key.revoked_at ≡ none
    stored : (create c.key s).0 ≡ ok tt
    left : t ≡ (create c.key s).1
