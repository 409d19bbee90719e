-- ===== src/Gateway/Auth/Hash.antt =====
-- Checking a key against its stored Argon2id hash in PHC form: `verifyArgon2idPHC` and
-- `constantTimeCompare` of apps/gateway/internal/auth/validator.go.
use Prim.Native.Nat.{bit_or, bit_xor}
use openserve.Prelude.{
  ℕ, ◌%◌, Bytes, codes, bytes_eq, split, cut, parse_uint32, length, Bool, false, List, [], ◌∷◌,
  Option, none, some, ◌==◌, ◌||◌, if◌then◌else◌, All, ◌≡◌, ◌≢◌, ◌<◌, ap, sym, arith, ◌&&◌,
  Bool-cases, bytes_eq_iff, inl, inr,
}
use openserve.Prelude.Base64
use openserve.Prelude.Bits.{bit_or-lt, bit_xor-lt, bit_or-eq-zero, bit_xor-eq-zero}
use openserve.Prelude.Base64.{IsByte}

-- `argon2.IDKey(password, salt, time, memory, threads, keyLen)` of golang.org/x/crypto, which
-- gives `keyLen` bytes.
pub record Argon2 : Type 0 where
  pub id_key : Bytes → Bytes → ℕ → ℕ → ℕ → ℕ → Bytes
  pub id_key-length :
      (password salt : Bytes) (time memory threads key_len : ℕ)
      → length (id_key password salt time memory threads key_len) ≡ key_len
  pub id_key-IsByte :
      (password salt : Bytes) (time memory threads key_len : ℕ)
      → All IsByte (id_key password salt time memory threads key_len)

-- `IDKey` panics without a round or a lane, and on a result of no bytes, whose hash has no size.
abbrev pub id_key_panics : ℕ → ℕ → ℕ → Bool
id_key_panics time threads key_len = time == 0 || threads == 0 || key_len == 0

-- `argon2_panic` is the panic of `IDKey`, the others are the nil error and the errors.
pub data VerifyResult : Type 0 where
  verified invalid_hash_format invalid_hash_params invalid_param : VerifyResult
  bad_salt bad_hash key_mismatch argon2_panic : VerifyResult

-- The cost parameters, zero until the loop sets them.
pub record Costs : Type 0 where
  pub memory : ℕ
  pub time_cost : ℕ
  pub parallelism : ℕ

abbrev set_cost : Bytes → ℕ → Costs → Costs
set_cost name val costs =
    if bytes_eq name (codes "m")
    then record costs { memory = val }
    else if bytes_eq name (codes "t")
    then record costs { time_cost = val }
    else if bytes_eq name (codes "p")
    then record costs { parallelism = val }
    else costs

pub data Pair : Type 0 where
  pair : Bytes → ℕ → Pair
  bad_pair : VerifyResult → Pair

abbrev pair_of : Bytes → Option ℕ → Pair
pair_of name none = bad_pair invalid_param
pair_of name (some val) = pair name val

-- One `name=value`, cut at the first `=`.
parse_pair : Bytes × Option Bytes → Pair
parse_pair (name, none) = bad_pair invalid_hash_params
parse_pair (name, some value) = pair_of name (parse_uint32 value)

pub data CostsResult : Type 0 where
  parsed : Costs → CostsResult
  refused : VerifyResult → CostsResult

-- The loop over the `name=value` pairs.
unfoldable pub parse_costs : List Bytes → Costs → CostsResult
unfolding parse_pair
parse_costs [] costs = parsed costs
parse_costs (kv ∷ kvs) costs = elim (parse_pair (cut b'=' kv)) [
  | pair name val ↦ parse_costs kvs (set_cost name val costs)
  | bad_pair r ↦ refused r
]

-- The loop `result |= a[i] ^ b[i]`.
pub diff_from : ℕ → Bytes → Bytes → ℕ
diff_from result [] bs = result
diff_from result (a ∷ as') [] = result
diff_from result (a ∷ as') (b ∷ bs) = diff_from (bit_or result (bit_xor a b)) as' bs

unfoldable pub constant_time_compare : Bytes → Bytes → Bool
unfolding diff_from
constant_time_compare a b = if length a == length b then diff_from 0 a b == 0 else false

module _ (argon2 : Argon2) where
  compare_hash : Bytes → Costs → Bytes → Bytes → VerifyResult
  compare_hash raw_key c salt stored =
      let threads = c.parallelism % 256 in
      let key_len = length stored % 4294967296 in
      let computed = argon2.id_key raw_key salt c.time_cost c.memory threads key_len in
      if id_key_panics c.time_cost threads key_len
      then argon2_panic
      else if constant_time_compare computed stored
      then verified
      else key_mismatch

  decode_both : Bytes → Costs → Option Bytes → Option Bytes → VerifyResult
  unfolding compare_hash
  decode_both raw_key c none hash = bad_salt
  decode_both raw_key c (some salt) none = bad_hash
  decode_both raw_key c (some salt) (some stored) = compare_hash raw_key c salt stored

  with_costs : Bytes → CostsResult → Bytes → Bytes → VerifyResult
  unfolding decode_both
  with_costs raw_key (refused r) salt hash = r
  with_costs raw_key (parsed c) salt hash =
      decode_both raw_key c (Base64.decode salt) (Base64.decode hash)

  with_parts : Bytes → List Bytes → VerifyResult
  unfolding with_costs
  with_parts raw_key (front ∷ name ∷ version ∷ params ∷ salt ∷ hash ∷ []) =
      if bytes_eq front [] && bytes_eq name (codes "argon2id")
      then with_costs raw_key
          (parse_costs (split b',' params) (record { memory = 0; time_cost = 0; parallelism = 0 }))
          salt hash
      else invalid_hash_format
  with_parts raw_key _ = invalid_hash_format

  unfoldable pub verify_argon2id_phc : Bytes → Bytes → VerifyResult
  unfolding with_parts
  verify_argon2id_phc raw_key stored_hash = with_parts raw_key (split b'$' stored_hash)

diff_from-eq-zero :
    (r : ℕ) (a b : Bytes)
    → r < 256
    → All IsByte a
    → All IsByte b
    → length a ≡ length b
    → (diff_from r a b == 0) ≡ (r == 0 && bytes_eq a b)
unfolding diff_from bytes_eq
diff_from-eq-zero r [] [] h _ _ _ = ground arith
diff_from-eq-zero r [] (b ∷ bs) h _ _ e = absurd (omega arith)
diff_from-eq-zero r (a ∷ as') [] h _ _ e = absurd (omega arith)
diff_from-eq-zero r (a ∷ as') (b ∷ bs) h (ha, ka) (hb, kb) e =
    let x = bit_xor-lt a b ha hb in
    ground (
      arith,
      diff_from-eq-zero (bit_or r (bit_xor a b)) as' bs (bit_or-lt r (bit_xor a b) h x) ka kb
          (omega arith),
      bit_or-eq-zero r (bit_xor a b) h x,
      bit_xor-eq-zero a b ha hb,
    )

bytes_eq_of_length-ne : (a b : Bytes) → length a ≢ length b → bytes_eq a b ≡ false
bytes_eq_of_length-ne a b h = elim (Bool-cases (bytes_eq a b)) [
  | inl e ↦ absurd (h (ap length ((bytes_eq_iff a b).0 e)))
  | inr e ↦ e
]

-- The comparison without early exit decides equality of byte slices, whatever their lengths.
pub constant_time_compare_lem :
    (a b : Bytes) → All IsByte a → All IsByte b → constant_time_compare a b ≡ bytes_eq a b
unfolding constant_time_compare
constant_time_compare_lem a b h k = elim (Bool-cases (length a == length b)) [
  | inl e ↦ rw e (diff_from-eq-zero 0 a b (omega arith) h k (ground arith))
  | inr e ↦ rw e (sym (bytes_eq_of_length-ne a b (ground arith)))
]
