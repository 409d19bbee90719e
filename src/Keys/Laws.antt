-- ===== src/Keys/Laws.antt =====
-- About `Hash` and `Verify` of apps/control-api/internal/keygen/keygen.go and the check of the same
-- keys by the gateway.
use openserve.Prelude.{
  ◌↔◌, bytes_eq_iff, ◌+◌, ◌*◌, ◌≤◌, Bytes, codes, bytes_eq, split, split-append, split_of_Lacks,
  cut, parse_uint32, format_nat, Lacks, length, length-append, take, if◌then◌else◌, [], ◌∷◌, ◌++◌,
  some, ◌≡◌, refl, ap, ◌∙◌, All, arith,
}
use openserve.Prelude.Base64
use openserve.Prelude.Base64.{IsByte, IsBase64, encode-IsBase64}
use openserve.Prelude.Scan.{
  number, literal, text, Fails, Fails-cons, Fails-literals, Fails-text_literal,
}
use openserve.Gateway.Auth.Hash.{
  Argon2, VerifyResult, verified, key_mismatch, Costs, parse_costs, parsed,
  constant_time_compare_lem, verify_argon2id_phc,
}
use openserve.Prelude.Hex.{hex_encode}
use openserve.Keys.{
  scan_format, phc, hash, generate, key_prefix, prefix, prefix_length, invalid_hash_format, verify,
}

pub scan_format-Fails : Fails scan_format
scan_format-Fails = Fails-literals (codes "$argon2id$v=") _ (
    Fails-cons number _ (
      Fails-literals (codes "$m=") _ (
        Fails-cons number _ (
          Fails-literals (codes ",t=") _ (
            Fails-cons number _ (
              Fails-literals (codes ",p=") _ (
                Fails-cons number _
                  (Fails-cons (literal b'$') _ (Fails-text_literal b'$' (text ∷ []) refl)))))))))

-- `keygen.Verify` returns the error "invalid hash format" for every key and every stored hash,
-- those of `keygen.Hash` included: the verb `%s` in front of a `$` takes the `$` too.
pub verify_rejects_all :
    (argon2 : Argon2) (raw_key stored_hash : Bytes)
    → verify argon2 raw_key stored_hash ≡ some invalid_hash_format
unfolding verify
verify_rejects_all argon2 raw_key stored_hash = rw (scan_format-Fails stored_hash)

Lacks-base64 : (s : Bytes) → All IsBase64 s → Lacks b'$' s
Lacks-base64 [] _ = tt
Lacks-base64 (c ∷ s) (h, k) = (h.0, Lacks-base64 s k)

abbrev costs_text : Bytes
costs_text = codes "m=65536,t=1,p=4"

phc-parts :
    (salt h : Bytes)
    → phc salt h
      ≡ []
        ++ b'$'
          ∷ (codes "argon2id"
              ++ b'$'
                ∷ (codes "v=19"
                    ++ b'$'
                      ∷ (costs_text ++ b'$' ∷ (Base64.encode salt ++ b'$' ∷ Base64.encode h))))
unfolding phc format_nat
phc-parts salt h = refl

split-phc :
    (salt h : Bytes)
    → All IsByte salt
    → All IsByte h
    → split b'$' (phc salt h)
      ≡ []
        ∷ codes "argon2id"
        ∷ codes "v=19"
        ∷ costs_text
        ∷ Base64.encode salt
        ∷ Base64.encode h
        ∷ []
split-phc salt h ks kh =
    let ls = Lacks-base64 (Base64.encode salt) (encode-IsBase64 salt ks) in
    let lh = Lacks-base64 (Base64.encode h) (encode-IsBase64 h kh) in
    rw (phc-parts salt h) (
      split-append b'$' [] _ tt
      ∙ ap (λ ps. [] ∷ ps)
          (split-append b'$' (codes "argon2id") _ (omega arith)
            ∙ ap (λ ps. codes "argon2id" ∷ ps)
                (split-append b'$' (codes "v=19") _ (omega arith)
                  ∙ ap (λ ps. codes "v=19" ∷ ps)
                      (split-append b'$' costs_text _ (omega arith)
                        ∙ ap (λ ps. costs_text ∷ ps)
                            (split-append b'$' (Base64.encode salt) _ ls
                              ∙ ap (λ ps. Base64.encode salt ∷ ps)
                                  (split_of_Lacks b'$' (Base64.encode h) lh))))))

abbrev stored_costs : Costs
stored_costs = record { memory = 65536; time_cost = 1; parallelism = 4 }

parse_costs_text :
    parse_costs (split b',' costs_text) (record { memory = 0; time_cost = 0; parallelism = 0 })
    ≡ parsed stored_costs
unfolding parse_costs split cut parse_uint32 bytes_eq
parse_costs_text = refl

-- What the gateway answers for any key against the text built from a salt and a hash.
pub verify_argon2id_phc-phc :
    (argon2 : Argon2) (raw_key salt h : Bytes)
    → All IsByte salt
    → All IsByte h
    → length h ≡ 32
    → verify_argon2id_phc argon2 raw_key (phc salt h)
      ≡ (if bytes_eq (argon2.id_key raw_key salt 1 65536 4 32) h then verified else key_mismatch)
unfolding verify_argon2id_phc bytes_eq
verify_argon2id_phc-phc argon2 raw_key salt h ks kh len = rw (split-phc salt h ks kh) (
    rw parse_costs_text (
      rw (Base64.decode-encode salt ks, Base64.decode-encode h kh)
        (rw (
          len,
          constant_time_compare_lem (argon2.id_key raw_key salt 1 65536 4 32) h
              (argon2.id_key-IsByte raw_key salt 1 65536 4 32) kh,
        ))))

verified_iff :
    (p q : Bytes) (r : VerifyResult)
    → r ≡ (if bytes_eq p q then verified else key_mismatch)
    → (r ≡ verified) ↔ (p ≡ q)
verified_iff p q r e =
    (λ v. ground (arith, bytes_eq_iff p q), λ s. ground (arith, bytes_eq_iff p q))

-- The gateway accepts a key for a stored text of `keygen.Hash` exactly when Argon2id, with the
-- stored salt and the fixed parameters, gives the same hash for it as for the key that was stored;
-- so it accepts that key itself.
pub hash-verify_argon2id_phc :
    (argon2 : Argon2) (raw_key other salt stored : Bytes)
    → All IsByte salt
    → hash argon2 raw_key (some salt) ≡ some stored
    → (verify_argon2id_phc argon2 raw_key stored ≡ verified)
      × ((verify_argon2id_phc argon2 other stored ≡ verified)
          ↔ (argon2.id_key other salt 1 65536 4 32 ≡ argon2.id_key raw_key salt 1 65536 4 32))
unfolding hash
hash-verify_argon2id_phc argon2 raw_key other salt stored ks e =
    let h = argon2.id_key raw_key salt 1 65536 4 32 in
    let accepts = λ (k : Bytes).
      verified_iff (argon2.id_key k salt 1 65536 4 32) h (verify_argon2id_phc argon2 k (phc salt h))
        (verify_argon2id_phc-phc argon2 k salt h ks (argon2.id_key-IsByte raw_key salt 1 65536 4 32)
          (argon2.id_key-length raw_key salt 1 65536 4 32)) in
    let same : stored ≡ phc salt h = ground arith in
    rw same ((accepts raw_key).1 refl, accepts other)

length-hex_encode : (s : Bytes) → length (hex_encode s) ≡ 2 * length s
unfolding hex_encode
length-hex_encode [] = refl
length-hex_encode (b ∷ s) = omega (arith, length-hex_encode s)

-- `Generate` succeeds whenever the random source does, with a key of the prefix and two characters
-- for each random byte, and the stored text that `Hash` builds for that key.
pub generate_lem :
    (argon2 : Argon2) (key_bytes salt : Bytes)
    → (raw_key : Bytes) × (stored : Bytes) × (generate argon2 (some key_bytes) (some salt)
        ≡ some (raw_key, stored))
      × (hash argon2 raw_key (some salt) ≡ some stored)
      × (length raw_key ≡ 15 + 2 * length key_bytes)
unfolding generate hash
generate_lem argon2 key_bytes salt =
    (key_prefix ++ hex_encode key_bytes, _, refl, refl, length_lem key_bytes)
  where
    length_lem : (s : Bytes) → length (key_prefix ++ hex_encode s) ≡ 15 + 2 * length s
    length_lem s = omega (arith, length-append key_prefix (hex_encode s), length-hex_encode s)

-- The prefix that the control API stores is the one that the gateway looks up, for every key that
-- is long enough.
pub prefix_of_long :
    (raw_key : Bytes) → prefix_length ≤ length raw_key → prefix raw_key ≡ take prefix_length raw_key
unfolding prefix
prefix_of_long raw_key h = ground arith
