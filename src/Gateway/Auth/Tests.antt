-- ===== src/Gateway/Auth/Tests.antt =====
-- Tests and examples of key validation.
use mathlib.Core.List.{Memᴰ}
use openserve.Prelude.{
  ◌≤◌, Bytes, codes, bytes_eq, split, cut, parse_uint32, format_nat, length, take, ◌≡◌, refl, [],
  ◌∷◌, some, none, true, false, inr, arith,
}
use openserve.Prelude.Words.{pos}
use openserve.Prelude.Base64
use openserve.Gateway.Auth.Hash.{verified, verify_argon2id_phc, parse_costs, constant_time_compare}
use openserve.Gateway.Auth.{
  ApiKeyRow, ok, err, deployment_not_allowed, key_not_found, invalid_key_format, lookup_prefix_len,
  selects, query_row, allows, key_info, validate, check_row,
}
use openserve.Gateway.Auth.Laws.{IsUsable, validate_sound, validate_complete, generate-validate}
use openserve.Prelude.Hex.{hex_encode}
use openserve.Keys.{phc, hash, generate, prefix}
use openserve.Keys.Sample.{sum_argon2, sample_salt, sample_bytes}

abbrev sample_key : Bytes
sample_key = codes "openserve_live_001122ab"

abbrev sample_stored : Bytes
sample_stored =
    codes "$argon2id$v=19$m=65536,t=1,p=4$AQID+g$Li4uLi4uLi4uLi4uLi4uLi4uLi4uLi4uLi4uLi4uLi4"

abbrev sample_row : ApiKeyRow
sample_row = record {
  key_prefix = sample_key;
  key_hash = sample_stored;
  role = codes "developer";
  allowed_deployments = [];
  rpm = pos 60;
  tpm = pos 100000;
  ip_allowlist = [];
  expires_at = none;
  active = true;
}

abbrev limited_row : ApiKeyRow
limited_row = record sample_row { allowed_deployments = codes "qwen" ∷ [] }

validation : Unit {0}
unfolding validate selects query_row check_row allows bytes_eq verify_argon2id_phc parse_costs
    constant_time_compare split cut parse_uint32 Base64.decode
validation = tt

validate_tests :
    (validate sum_argon2 (sample_row ∷ []) 5 sample_key (codes "llama")
      ≡ ok (key_info sample_key sample_row))
    × (validate sum_argon2 (limited_row ∷ []) 5 sample_key (codes "llama")
        ≡ err deployment_not_allowed)
    × (validate sum_argon2 (record sample_row { active = false } ∷ []) 5 sample_key (codes "llama")
        ≡ err key_not_found)
    × (validate sum_argon2 (record sample_row { expires_at = some 5 } ∷ []) 5 sample_key []
        ≡ err key_not_found)
    × (validate sum_argon2 (sample_row ∷ []) 5 (codes "short") [] ≡ err invalid_key_format)
unfolding validation
validate_tests = (refl, refl, refl, refl, refl)

validate_sound_example :
    (row : ApiKeyRow) × Memᴰ row (sample_row ∷ [])
    × IsUsable sum_argon2 5 sample_key (codes "llama") row
    × (key_info sample_key sample_row ≡ key_info (take lookup_prefix_len sample_key) row)
    × (lookup_prefix_len ≤ length sample_key)
validate_sound_example =
    validate_sound sum_argon2 (sample_row ∷ []) 5 sample_key (codes "llama")
      (key_info sample_key sample_row) validate_tests.0

only_row : (row r : ApiKeyRow) → Memᴰ r (row ∷ []) → r ≡ row
only_row row r (Memᴰ.head e) = e
only_row row r (Memᴰ.tail m) = elim m [ ]

sample_verified : verify_argon2id_phc sum_argon2 sample_key sample_stored ≡ verified
unfolding validation
sample_verified = refl

validate_complete_example :
    validate sum_argon2 (limited_row ∷ []) 5 sample_key (codes "qwen")
    ≡ ok (key_info sample_key limited_row)
validate_complete_example =
    validate_complete sum_argon2 (limited_row ∷ []) 5 sample_key (codes "qwen") limited_row
      (Memᴰ.head refl)
      (record {
        prefixed = refl;
        active = refl;
        unexpired_now = refl;
        hashed = sample_verified;
        allowed = inr (Memᴰ.head refl);
      })
      (omega arith) (λ r m s. only_row limited_row r m)

generate_run :
    generate sum_argon2 (some sample_bytes) (some sample_salt) ≡ some (sample_key, sample_stored)
unfolding generate hash phc hex_encode format_nat Base64.encode
generate_run = refl

sample_prefix : sample_key ≡ prefix sample_key
unfolding prefix
sample_prefix = refl

generate-validate_example :
    validate sum_argon2 (sample_row ∷ []) 5 sample_key (codes "llama")
    ≡ ok (key_info (prefix sample_key) sample_row)
generate-validate_example =
    generate-validate sum_argon2 (sample_row ∷ []) 5 (codes "llama") sample_bytes sample_salt
      sample_key sample_stored sample_row (omega arith) (omega arith) generate_run (Memᴰ.head refl)
      sample_prefix refl refl refl refl (λ r m s. only_row sample_row r m)
