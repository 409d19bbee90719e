-- ===== src/Gateway/Auth.antt =====
-- API key validation against the key table: apps/gateway/internal/auth/validator.go.
pub mod Hash
pub mod Laws
mod Tests
use openserve.Prelude.{
  ℕ, Bytes, codes, bytes_eq, length, take, Bool, true, false, ◌&&◌, List, [], ◌∷◌, Option, none,
  some, ltb, if◌then◌else◌,
}
use openserve.Prelude.Words.{ℤ}
use openserve.Gateway.Auth.Hash.{argon2_panic, Argon2, VerifyResult, verified, verify_argon2id_phc}

-- A row of the table `api_keys`, the columns that the gateway reads.
pub record ApiKeyRow : Type 0 where
  pub key_prefix : Bytes
  pub key_hash : Bytes
  pub role : Bytes
  pub allowed_deployments : List Bytes
  pub rpm : ℤ
  pub tpm : ℤ
  pub ip_allowlist : List Bytes
  pub expires_at : Option ℕ
  pub active : Bool

pub record KeyInfo : Type 0 where
  pub key_id : Bytes
  pub role : Bytes
  pub allowed_deployments : List Bytes
  pub rpm : ℤ
  pub tpm : ℤ
  pub ip_allowlist : List Bytes

pub data AuthError : Type 0 where
  invalid_key_format key_not_found invalid_key deployment_not_allowed : AuthError

pub data AuthResult : Type 0 where
  ok : KeyInfo → AuthResult
  err : AuthError → AuthResult
  panicked : AuthResult

abbrev pub lookup_prefix_len : ℕ
lookup_prefix_len = 23

-- `expires_at IS NULL OR expires_at > NOW()`
abbrev pub unexpired : ℕ → Option ℕ → Bool
unexpired now none = true
unexpired now (some t) = ltb now t

-- The WHERE clause of `validateQuery`.
unfoldable pub selects : ℕ → Bytes → ApiKeyRow → Bool
selects now prefix row =
    bytes_eq row.key_prefix prefix && row.active && unexpired now row.expires_at

-- `QueryRow`: the first row that the query selects, in the order in which the database gives them.
unfoldable pub query_row : ℕ → Bytes → List ApiKeyRow → Option ApiKeyRow
query_row now prefix [] = none
query_row now prefix (row ∷ rows) =
    if selects now prefix row then some row else query_row now prefix rows

-- The loop over the allowed deployments.
unfoldable pub is_listed : Bytes → List Bytes → Bool
is_listed id [] = false
is_listed id (dep ∷ deps) = if bytes_eq dep id then true else is_listed id deps

-- An empty list allows all.
unfoldable pub allows : Bytes → List Bytes → Bool
unfolding is_listed
allows id [] = true
allows id (dep ∷ deps) = is_listed id (dep ∷ deps)

abbrev pub is_verified : VerifyResult → Bool
is_verified verified = true
is_verified _ = false

abbrev pub is_panic : VerifyResult → Bool
is_panic argon2_panic = true
is_panic _ = false

abbrev pub key_info : Bytes → ApiKeyRow → KeyInfo
key_info prefix row = record {
  key_id = prefix;
  role = row.role;
  allowed_deployments = row.allowed_deployments;
  rpm = row.rpm;
  tpm = row.tpm;
  ip_allowlist = row.ip_allowlist;
}

module _ (argon2 : Argon2) where
  -- What `Validate` does with the row that it found.
  unfoldable pub check_row : Bytes → Bytes → Bytes → ApiKeyRow → AuthResult
  check_row raw_key id prefix row =
      if is_verified (verify_argon2id_phc argon2 raw_key row.key_hash)
      then if allows id row.allowed_deployments
        then ok (key_info prefix row)
        else err deployment_not_allowed
      else if is_panic (verify_argon2id_phc argon2 raw_key row.key_hash)
      then panicked
      else err invalid_key

  check_found : Bytes → Bytes → Bytes → Option ApiKeyRow → AuthResult
  unfolding check_row
  check_found raw_key id prefix none = err key_not_found
  check_found raw_key id prefix (some row) = check_row raw_key id prefix row

  unfoldable pub validate : List ApiKeyRow → ℕ → Bytes → Bytes → AuthResult
  unfolding check_found
  validate rows now raw_key id =
      let prefix = take lookup_prefix_len raw_key in
      if ltb (length raw_key) lookup_prefix_len
      then err invalid_key_format
      else check_found raw_key id prefix (query_row now prefix rows)
