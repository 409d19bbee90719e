-- ===== src/ControlApi/Keys.antt =====
-- API keys: ListAPIKeys, CreateAPIKey, DeleteAPIKey and RotateAPIKey of
-- apps/control-api/internal/handler/handler.go.
pub mod Rotation
use openserve.Prelude.{
  ℕ, Bytes, codes, bytes_eq, map, select, Bool, true, false, ◌&&◌, List, [], ◌∷◌, ◌++◌, Option,
  none, some,
}
use openserve.Gateway.Auth.Hash.{Argon2}
use openserve.Keys.{generate, prefix}
use openserve.ControlApi.Tables.{
  Db, Member, ApiKey, Fields, text, flag, number, update_where, is_key, optional_time, member_of,
  member_org, key_of, key_org, has_org, has_member, has_key,
}
use openserve.ControlApi.Database.{
  Action, Response, respond, http_error, write_json, json_status, json_slice, Change, changed,
  unique_violation, violation, give, fetch_or, query_row, query_rows, scanned, or_empty, exec, must,
  some_or, signed_in, write_audit_log, ◌>>=◌, ◌>>◌,
}

abbrev pub key_fields : ApiKey → Fields
key_fields k =
    (codes "id", text k.id)
    ∷ (codes "displayName", text k.display_name)
    ∷ (codes "keyPrefix", text k.key_prefix)
    ∷ (codes "role", text k.role)
    ∷ (codes "rpm", number k.rpm)
    ∷ (codes "tpm", number k.tpm)
    ∷ (codes "expiresAt", optional_time k.expires_at)
    ∷ (codes "active", flag k.active)
    ∷ (codes "createdAt", number k.created_at)
    ∷ (codes "lastUsedAt", optional_time k.last_used_at)
    ∷ []

abbrev pub is_active_of : Bytes → ApiKey → Bool
is_active_of org_id k = bytes_eq k.org_id org_id && k.active

unfoldable pub list_api_keys : Option Bytes → Action Response
unfolding member_org
list_api_keys caller = do
  subject ← signed_in caller
  org ← query_row (member_org subject)
  let org_id = scanned [] org
  rows ← query_rows (λ d. select (is_active_of org_id) d.api_keys)
  give (respond 200 (json_slice (map key_fields (or_empty rows))))

-- The row of `INSERT INTO api_keys`, with the defaults of the table.
abbrev pub new_key : (id org_id created_by display_name key_prefix key_hash : Bytes) → ℕ → ApiKey
new_key id org_id created_by display_name key_prefix key_hash now = record {
  id = id;
  org_id = org_id;
  created_by = created_by;
  display_name = display_name;
  key_prefix = key_prefix;
  key_hash = key_hash;
  role = codes "developer";
  rpm = 60;
  tpm = 100000;
  expires_at = none;
  active = true;
  created_at = now;
  last_used_at = none;
}

unfoldable pub insert_key : ApiKey → Db → Change Bytes
unfolding has_key has_org has_member
insert_key k d = elim (has_key k.id d) [
  | true ↦ unique_violation
  | false ↦ elim (has_org k.org_id d && has_member k.created_by d) [
    | true ↦ changed k.id (record d { api_keys = d.api_keys ++ k ∷ [] })
    | false ↦ violation
  ]
]

unfoldable pub deactivate : Bytes → Db → Change (Unit {0})
unfolding update_where
deactivate id d =
    changed tt (record d {
      api_keys = update_where (is_key id) (λ k. record k { active = false }) d.api_keys;
    })

unfoldable pub set_secret : Bytes → Bytes → Bytes → Db → Change (Unit {0})
unfolding update_where
set_secret id key_prefix key_hash d = changed tt (record d {
  api_keys =
      update_where (is_key id) (λ k. record k { key_prefix = key_prefix; key_hash = key_hash })
        d.api_keys;
})

unfoldable pub delete_api_key : Option Bytes → Bytes → Action Response
unfolding deactivate key_org
delete_api_key caller id = do
  subject ← signed_in caller
  row ← query_row (key_org id)
  let org_id = scanned [] row
  exec (deactivate id)
  write_audit_log org_id subject (codes "delete_api_key") (codes "api_key") id none
  give (json_status 200 (codes "deleted"))

-- `random_key` and `random_salt` are what `rand.Read` gives to `keygen.Generate`.
module _ (argon2 : Argon2) where
  -- The body is the display name, if the request decodes.
  unfoldable pub create_api_key :
      Option Bytes
      → Option Bytes
      → (random_key random_salt : Option Bytes) → Bytes
      → ℕ
      → Action Response
  unfolding insert_key member_of generate prefix
  create_api_key caller body random_key random_salt new_id now = do
    subject ← signed_in caller
    display_name ← some_or (http_error 400 (codes "invalid request")) body
    m ← fetch_or (http_error 500 (codes "failed to get org")) (member_of subject)
    (raw_key, key_hash) ←
        some_or (http_error 500 (codes "failed to generate API key"))
          (generate argon2 random_key random_salt)
    key_id ←
        must (http_error 500 (codes "failed to create API key"))
          (insert_key (new_key new_id m.org_id m.id display_name (prefix raw_key) key_hash now))
    write_audit_log m.org_id subject (codes "create_api_key") (codes "api_key") key_id
        (some ((codes "displayName", text display_name) ∷ []))
    give (write_json 201 ((codes "key", text raw_key) ∷ (codes "id", text key_id) ∷ []))

  unfoldable pub rotate_api_key :
      Option Bytes → Bytes → (random_key random_salt : Option Bytes) → Action Response
  unfolding set_secret key_of generate prefix
  rotate_api_key caller id random_key random_salt = do
    subject ← signed_in caller
    k ← fetch_or (http_error 404 (codes "api key not found")) (key_of id)
    (raw_key, key_hash) ←
        some_or (http_error 500 (codes "failed to rotate API key"))
          (generate argon2 random_key random_salt)
    must (http_error 500 (codes "failed to rotate API key"))
        (set_secret id (prefix raw_key) key_hash)
    write_audit_log k.org_id subject (codes "rotate_api_key") (codes "api_key") id none
    give (write_json 200 ((codes "key", text raw_key) ∷ []))
