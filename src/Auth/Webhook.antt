-- ===== src/Auth/Webhook.antt =====
-- NewWebhookService (internal/auth/webhook.go): a memory store filled with the configured keys.
use text.Mathlib.Text.{starts_with}
use Prim.Native.String.{len, slice, ◌++◌}
use mxlrc_go.Auth.Scopes.{
  scope_webhook, hash_failed, hash_too_short, invalid_format, no_webhook_key, Result, ok, err,
}
use mxlrc_go.Auth.Text.{trim_space}
use mxlrc_go.Common.{
  String, Bool, ℕ, ◌+◌, ltb, ◌==◌, not, List, [], ◌∷◌, Option, none, some, text_eq, if◌then◌else◌,
}
use mxlrc_go.Auth.Keys.{Key}
use mxlrc_go.Auth.Service.{key_prefix}
use mxlrc_go.Auth.Memory.{MemoryStore, create}

-- The number `created` with the store that the loop has filled.
pub record Filled : Type 0 where
  pub store : MemoryStore
  pub created : ℕ

-- `number` is strconv's decimal text of i+1.
module _ (number : ℕ → String) (hash_key : String → Option String) (now : ℕ) where
  unfoldable pub count_created : Result (Unit {0}) × MemoryStore → ℕ → Result Filled
  count_created (err e, s) n = err e
  count_created (ok _, s) n = ok (record { store = s; created = n + 1 })

  unfoldable pub add_hashed : ℕ → Option String → Filled → Result Filled
  unfolding create count_created
  add_hashed i none f = err hash_failed
  add_hashed i (some hash) f =
      let key : Key = record {
        id = slice hash 0 16;
        name = "webhook-" ++ number (i + 1);
        hash = hash;
        scopes = scope_webhook ∷ [];
        created_at = now;
        revoked_at = none;
      } in
      let added = count_created (create key f.store) f.created in
      if ltb (len hash) 16 then err hash_too_short else added

  unfoldable pub add_webhook_key : ℕ → String → Filled → Result Filled
  unfolding add_hashed
  add_webhook_key i raw f =
      let added = add_hashed i (hash_key raw) f in
      if text_eq raw ""
      then ok f
      else if not (starts_with raw key_prefix)
      then err invalid_format
      else added

  unfoldable pub add_all : ℕ → List String → Result Filled → Result Filled
  unfolding add_webhook_key trim_space
  add_all i [] r = r
  add_all i (raw ∷ raws) (err e) = err e
  add_all i (raw ∷ raws) (ok f) = add_all (i + 1) raws (add_webhook_key i (trim_space raw) f)

  unfoldable pub some_created : Result Filled → Result MemoryStore
  some_created (err e) = err e
  some_created (ok f) = if f.created == 0 then err no_webhook_key else ok f.store

  unfoldable pub new_webhook_service : (context_ended : Bool) → List String → Result MemoryStore
  unfolding add_all some_created
  new_webhook_service ended [] = err no_webhook_key
  new_webhook_service ended (raw ∷ raws) = some_created (
      add_all 0 (raw ∷ raws)
        (ok (record { store = record { keys = []; context_ended = ended }; created = 0 })))
