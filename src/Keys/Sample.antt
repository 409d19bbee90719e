-- ===== src/Keys/Sample.antt =====
-- A stand-in for Argon2id that runs in tests: every byte of the hash is the sum of the password.
use openserve.Prelude.{
  ℕ, zero, suc, ◌+◌, ◌%◌, ◌<◌, ◌≡◌, refl, ap, Bytes, [], ◌∷◌, length, All, arith,
}
use openserve.Prelude.Base64.{IsByte}
use openserve.Gateway.Auth.Hash.{Argon2}

abbrev sum : Bytes → ℕ
sum [] = 0
sum (c ∷ s) = c + sum s

abbrev replicate : ℕ → ℕ → Bytes
replicate zero c = []
replicate (suc n) c = c ∷ replicate n c

length-replicate : (n c : ℕ) → length (replicate n c) ≡ n
length-replicate zero c = refl
length-replicate (suc n) c = ap suc (length-replicate n c)

replicate-IsByte : (n c : ℕ) → c < 256 → All IsByte (replicate n c)
replicate-IsByte zero c h = tt
replicate-IsByte (suc n) c h = (h, replicate-IsByte n c h)

abbrev sum_key : Bytes → Bytes → ℕ → ℕ → ℕ → ℕ → Bytes
sum_key password salt time memory threads key_len = replicate key_len (sum password % 256)

pub sum_key-length :
    (password salt : Bytes) (time memory threads key_len : ℕ)
    → length (sum_key password salt time memory threads key_len) ≡ key_len
sum_key-length password salt time memory threads key_len =
    length-replicate key_len (sum password % 256)

pub sum_key-IsByte :
    (password salt : Bytes) (time memory threads key_len : ℕ)
    → All IsByte (sum_key password salt time memory threads key_len)
sum_key-IsByte password salt time memory threads key_len =
    replicate-IsByte key_len (sum password % 256) (omega arith)

abbrev pub sum_argon2 : Argon2
sum_argon2 = record {
  id_key = sum_key;
  id_key-length = sum_key-length;
  id_key-IsByte = sum_key-IsByte;
}

abbrev pub sample_salt : Bytes
sample_salt = 1 ∷ 2 ∷ 3 ∷ 250 ∷ []

abbrev pub sample_bytes : Bytes
sample_bytes = 0 ∷ 17 ∷ 34 ∷ 171 ∷ []
