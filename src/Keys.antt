-- ===== src/Keys.antt =====
-- Generating, hashing and checking API keys and peer tokens:
-- apps/control-api/internal/keygen/keygen.go.
pub mod Laws
pub mod Sample
mod Tests
use openserve.Prelude.{
  ℕ, ◌+◌, ◌-◌, ◌/◌, ◌%◌, Bytes, codes, bytes_eq, format_nat, take, length, ltb, if◌then◌else◌, Bool,
  true, false, List, [], ◌∷◌, ◌++◌, Option, none, some,
}
use openserve.Prelude.Base64
use openserve.Prelude.Hex.{hex_encode}
use openserve.Prelude.Scan.{Directive, literal, number, text, Arg, literals, sscanf}
use openserve.Gateway.Auth.Hash.{Argon2}

-- `KeyPrefix` and `PrefixLength`.
abbrev pub key_prefix : Bytes
key_prefix = codes "openserve_live_"

abbrev pub prefix_length : ℕ
prefix_length = 23

-- `Params`.
abbrev pub time_param : ℕ
time_param = 1

abbrev pub memory_param : ℕ
memory_param = 65536

abbrev pub threads_param : ℕ
threads_param = 4

abbrev pub key_len_param : ℕ
key_len_param = 32

pub data VerifyError : Type 0 where
  invalid_hash_format bad_salt bad_hash no_match : VerifyError

-- The text that `Hash` builds from the salt and the hash.
unfoldable pub phc : Bytes → Bytes → Bytes
phc salt hash =
    codes "$argon2id$v=19$m="
    ++ (format_nat memory_param
        ++ (codes ",t="
            ++ (format_nat time_param
                ++ (codes ",p="
                    ++ (format_nat threads_param
                        ++ (b'$' ∷ (Base64.encode salt ++ b'$' ∷ Base64.encode hash)))))))

-- The format that `Verify` scans.
abbrev pub scan_format : List Directive
scan_format = literals (codes "$argon2id$v=") (
    number
    ∷ literals (codes "$m=") (
        number
        ∷ literals (codes ",t=") (
            number
            ∷ literals (codes ",p=") (number ∷ literal b'$' ∷ text ∷ literal b'$' ∷ text ∷ []))))

module _ (argon2 : Argon2) where
  derive : Bytes → Bytes → Bytes
  derive raw_key salt =
      argon2.id_key raw_key salt time_param memory_param threads_param key_len_param

  -- `Hash`, with what `rand.Read` gives for the salt.
  unfoldable pub hash : Bytes → Option Bytes → Option Bytes
  unfolding derive
  hash raw_key none = none
  hash raw_key (some salt) = some (phc salt (derive raw_key salt))

  -- `Generate`, with what `rand.Read` gives for the key and for the salt.
  generate_from : Bytes → Option Bytes → Option (Bytes × Bytes)
  unfolding hash
  generate_from raw_key salt = elim (hash raw_key salt) [ none ↦ none | some h ↦ some (raw_key, h) ]

  unfoldable pub generate : Option Bytes → Option Bytes → Option (Bytes × Bytes)
  unfolding generate_from
  generate none salt = none
  generate (some key_bytes) salt = generate_from (key_prefix ++ hex_encode key_bytes) salt

  compare_stored : Bytes → Bytes → Option Bytes → Option VerifyError
  unfolding derive
  compare_stored raw_key salt none = some bad_hash
  compare_stored raw_key salt (some stored) =
      if bytes_eq (derive raw_key salt) stored then none else some no_match

  check_salt : Bytes → Bytes → Option Bytes → Option VerifyError
  unfolding compare_stored
  check_salt raw_key hash none = some bad_salt
  check_salt raw_key hash (some salt) = compare_stored raw_key salt (Base64.decode hash)

  check_scanned : Bytes → Option (List Arg) → Option VerifyError
  unfolding check_salt
  check_scanned raw_key (some (v ∷ m ∷ t ∷ p ∷ Arg.text salt ∷ Arg.text hash ∷ [])) =
      check_salt raw_key hash (Base64.decode salt)
  check_scanned raw_key _ = some invalid_hash_format

  -- `Verify`; `none` is the nil error.
  unfoldable pub verify : Bytes → Bytes → Option VerifyError
  unfolding check_scanned
  verify raw_key stored_hash = check_scanned raw_key (sscanf scan_format stored_hash)

unfoldable pub prefix : Bytes → Bytes
prefix raw_key = if ltb (length raw_key) prefix_length then raw_key else take prefix_length raw_key
