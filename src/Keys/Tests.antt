-- ===== src/Keys/Tests.antt =====
-- Tests and examples of the key functions.
use openserve.Prelude.{Bytes, codes, format_nat, ◌≡◌, ◌↔◌, refl, some, arith}
use openserve.Prelude.Base64
use openserve.Gateway.Auth.Hash.{verified, verify_argon2id_phc}
use openserve.Prelude.Hex.{hex_encode}
use openserve.Keys.{phc, hash, generate, invalid_hash_format, verify}
use openserve.Keys.Laws.{verify_rejects_all, hash-verify_argon2id_phc}
use openserve.Keys.Sample.{sum_argon2, sample_salt, sample_bytes}

abbrev sample_key : Bytes
sample_key = codes "openserve_live_001122ab"

abbrev sample_stored : Bytes
sample_stored =
    codes "$argon2id$v=19$m=65536,t=1,p=4$AQID+g$Li4uLi4uLi4uLi4uLi4uLi4uLi4uLi4uLi4uLi4uLi4"

generate_run :
    generate sum_argon2 (some sample_bytes) (some sample_salt) ≡ some (sample_key, sample_stored)
unfolding generate hash phc hex_encode format_nat Base64.encode
generate_run = refl

hash_run : hash sum_argon2 sample_key (some sample_salt) ≡ some sample_stored
unfolding hash phc format_nat Base64.encode
hash_run = refl

verify_rejects_all_example : verify sum_argon2 sample_key sample_stored ≡ some invalid_hash_format
verify_rejects_all_example = verify_rejects_all sum_argon2 sample_key sample_stored

hash-verify_argon2id_phc_example :
    (verify_argon2id_phc sum_argon2 sample_key sample_stored ≡ verified)
    × ((verify_argon2id_phc sum_argon2 (codes "x") sample_stored ≡ verified) ↔ (
        sum_argon2.id_key (codes "x") sample_salt 1 65536 4 32
        ≡ sum_argon2.id_key sample_key sample_salt 1 65536 4 32))
hash-verify_argon2id_phc_example =
    hash-verify_argon2id_phc sum_argon2 sample_key (codes "x") sample_salt sample_stored
      (omega arith) hash_run
