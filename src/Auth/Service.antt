-- ===== src/Auth/Service.antt =====
-- The Service (internal/auth/service.go). PBKDF2 and the random source are parameters: `hash_key` is
-- HashKey, and a random text is what ReadFull and EncodeToString give. Dependencies are never nil.
use text.Mathlib.Text.{starts_with}
use Prim.Native.String.{len, slice, ◌++◌}
use mxlrc_go.Auth.Scopes.{
  normalize_scopes, has_scope, hash_failed, hash_too_short, random_failed, forbidden_scope,
  revoked_key, invalid_key, Result, ok, err,
}
use mxlrc_go.Auth.Text.{trim_space}
use mxlrc_go.Common.{String, ℕ, ltb, not, ◌&&◌, List, Option, none, some, text_eq, if◌then◌else◌}
use mxlrc_go.Auth.Keys.{is_revoked, Key, Store}

abbrev pub key_prefix : String
key_prefix = "mxlrc_"

pub record CreatedKey : Type 0 where
  pub raw : String
  pub key : Key

unfoldable pub generate_key : Option String → Result String
generate_key none = err random_failed
generate_key (some hex) = ok (key_prefix ++ hex)

-- The checks on the key that was found.
unfoldable pub permit : String → String → Result Key → Result Key
unfolding has_scope
permit hash required (err e) = err e
permit hash required (ok key) =
    if not (text_eq key.hash hash)
    then err invalid_key
    else if is_revoked key
    then err revoked_key
    else if not (text_eq required "") && not (has_scope key.scopes required)
    then err forbidden_scope
    else ok key

module _ {S : Type 0} (store : Store S) (hash_key : String → Option String) where
  abbrev pub created_key : String → Key → Result (Unit {0}) × S → Result CreatedKey × S
  created_key raw key (err e, t) = (err e, t)
  created_key raw key (ok _, t) = (ok (record { raw = raw; key = key }), t)

  unfoldable pub store_key : String → Key → S → Result CreatedKey × S
  store_key raw key s = created_key raw key (store.create key s)

  unfoldable pub create_hashed :
      String → String → List String → ℕ → Option String → S → Result CreatedKey × S
  unfolding store_key trim_space
  create_hashed raw name norm now none s = (err hash_failed, s)
  create_hashed raw name norm now (some hash) s =
      let key : Key = record {
        id = slice hash 0 16;
        name = trim_space name;
        hash = hash;
        scopes = norm;
        created_at = now;
        revoked_at = none;
      } in
      let created = store_key raw key s in
      if ltb (len hash) 16 then (err hash_too_short, s) else created

  unfoldable pub create_raw : String → List String → ℕ → Result String → S → Result CreatedKey × S
  unfolding create_hashed
  create_raw name norm now (err e) s = (err e, s)
  create_raw name norm now (ok raw) s = create_hashed raw name norm now (hash_key raw) s

  unfoldable pub create_scoped :
      Option String → String → ℕ → Result (List String) → S → Result CreatedKey × S
  unfolding create_raw generate_key
  create_scoped random name now (err e) s = (err e, s)
  create_scoped random name now (ok norm) s = create_raw name norm now (generate_key random) s

  unfoldable pub create_key : Option String → String → List String → ℕ → S → Result CreatedKey × S
  unfolding create_scoped normalize_scopes
  create_key random name scopes now s = create_scoped random name now (normalize_scopes scopes) s

  unfoldable pub validate_hashed : String → Option String → S → Result Key × S
  unfolding permit
  validate_hashed required none s = (err hash_failed, s)
  validate_hashed required (some hash) s =
      let (r, t) = store.find_by_hash hash s in (permit hash required r, t)

  unfoldable pub validate_key : String → String → S → Result Key × S
  unfolding validate_hashed
  validate_key raw required s =
      let checked = validate_hashed required (hash_key raw) s in
      if starts_with raw key_prefix then checked else (err invalid_key, s)

  unfoldable pub revoke_hashed : ℕ → Option String → S → Result Key × S
  revoke_hashed now none s = (err hash_failed, s)
  revoke_hashed now (some hash) s = store.revoke_by_hash hash now s

  unfoldable pub revoke_key : String → ℕ → S → Result Key × S
  unfolding revoke_hashed
  revoke_key raw now s =
      let answered = revoke_hashed now (hash_key raw) s in
      if starts_with raw key_prefix then answered else (err invalid_key, s)

  unfoldable pub list_keys : S → Result (List Key) × S
  list_keys s = store.list s
