-- ===== src/Gateway/Auth/Laws.antt =====
-- About `Validate` of apps/gateway/internal/auth/validator.go: which keys are accepted.
use mathlib.Core.List.{Memᴰ}
use openserve.Prelude.{
  ℕ, ◌≤◌, Bytes, bytes_eq, bytes_eq_iff, length, take, true, List, [], ◌∷◌, none, some, ◌≡◌, ◌⊎◌,
  refl, ap, sym, ◌∙◌, All, arith, Bool-cases, Option-cases, inl, inr,
}
use openserve.Prelude.Base64.{IsByte}
use openserve.Gateway.Auth.Hash.{Argon2, VerifyResult, verified, verify_argon2id_phc}
use openserve.Gateway.Auth.{
  ApiKeyRow, KeyInfo, ok, lookup_prefix_len, unexpired, selects, query_row, is_listed, allows,
  is_verified, key_info, validate,
}
use openserve.Keys.{generate, hash, prefix}
use openserve.Keys.Laws.{hash-verify_argon2id_phc, generate_lem, prefix_of_long}

is_listed-Mem : (id : Bytes) (deps : List Bytes) → is_listed id deps ≡ true → Memᴰ id deps
unfolding is_listed
is_listed-Mem id [] h = cc
is_listed-Mem id (dep ∷ deps) h = elim (Bool-cases (bytes_eq dep id)) [
  | inl e ↦ Memᴰ.head (sym ((bytes_eq_iff dep id).0 e))
  | inr e ↦ Memᴰ.tail (is_listed-Mem id deps (ground arith))
]

Mem-is_listed : (id : Bytes) {deps : List Bytes} → Memᴰ id deps → is_listed id deps ≡ true
unfolding is_listed
Mem-is_listed id (Memᴰ.head {x} {xs} e) = ground (arith, bytes_eq_iff x id)
Mem-is_listed id (Memᴰ.tail {x} {xs} m) = ground (arith, Mem-is_listed id m)

-- An empty list allows every deployment.
abbrev pub IsAllowed : Bytes → List Bytes → Type 0
IsAllowed id deps = (deps ≡ []) ⊎ Memᴰ id deps

allows-IsAllowed : (id : Bytes) (deps : List Bytes) → allows id deps ≡ true → IsAllowed id deps
unfolding allows
allows-IsAllowed id [] h = inl refl
allows-IsAllowed id (dep ∷ deps) h = inr (is_listed-Mem id (dep ∷ deps) h)

IsAllowed-allows : (id : Bytes) (deps : List Bytes) → IsAllowed id deps → allows id deps ≡ true
unfolding allows
IsAllowed-allows id [] h = refl
IsAllowed-allows id (dep ∷ deps) (inl e) = cc
IsAllowed-allows id (dep ∷ deps) (inr m) = Mem-is_listed id m

-- What must hold of a row for a key to be accepted through it at the time `now`.
pub record IsUsable (argon2 : Argon2) (now : ℕ) (raw_key id : Bytes) (row : ApiKeyRow)
    : Type 0 where
  pub prefixed : row.key_prefix ≡ take lookup_prefix_len raw_key
  pub active : row.active ≡ true
  pub unexpired_now : unexpired now row.expires_at ≡ true
  pub hashed : verify_argon2id_phc argon2 raw_key row.key_hash ≡ verified
  pub allowed : IsAllowed id row.allowed_deployments

is_verified-eq : (r : VerifyResult) → is_verified r ≡ true → r ≡ verified
is_verified-eq r h = ground arith

query_row-Mem :
    (now : ℕ) (p : Bytes) (rows : List ApiKeyRow) (row : ApiKeyRow)
    → query_row now p rows ≡ some row
    → Memᴰ row rows × (selects now p row ≡ true)
unfolding query_row
query_row-Mem now p [] row e = cc
query_row-Mem now p (r ∷ rows) row e = elim (Bool-cases (selects now p r)) [
  | inl s ↦ let same : row ≡ r = ground arith in (Memᴰ.head same, rw same s)
  | inr s ↦ let (m, t) = query_row-Mem now p rows row (ground arith) in (Memᴰ.tail m, t)
]

module _ (argon2 : Argon2) (rows : List ApiKeyRow) (now : ℕ) (raw_key id : Bytes) where
  -- A key is accepted only through a row of the table that is active, not expired at that time,
  -- stored under the key's first 23 bytes, whose hash the key passes and whose list of deployments
  -- is empty or holds the one requested; the limits reported are that row's, and the key is
  -- identified by its prefix.
  pub validate_sound :
      (info : KeyInfo)
      → validate argon2 rows now raw_key id ≡ ok info
      → (row : ApiKeyRow) × Memᴰ row rows
        × IsUsable argon2 now raw_key id row
        × (info ≡ key_info (take lookup_prefix_len raw_key) row)
        × (lookup_prefix_len ≤ length raw_key)
  unfolding validate selects
  validate_sound info e =
      elim (Option-cases (query_row now (take lookup_prefix_len raw_key) rows)) [
        | inl missing ↦ absurd (ground arith)
        | inr (row, found) ↦
            let (m, s) = query_row-Mem now (take lookup_prefix_len raw_key) rows row found in
            (
              row,
              m,
              record {
                prefixed =
                    (bytes_eq_iff row.key_prefix (take lookup_prefix_len raw_key)).0 (ground arith);
                active = ground arith;
                unexpired_now = ground arith;
                hashed =
                    is_verified-eq (verify_argon2id_phc argon2 raw_key row.key_hash) (ground arith);
                allowed = allows-IsAllowed id row.allowed_deployments (ground arith);
              },
              ground arith,
              ground arith,
            )
      ]

  query_row_unique :
      (row : ApiKeyRow) (p : Bytes) {table : List ApiKeyRow}
      → Memᴰ row table
      → selects now p row ≡ true
      → ((r : ApiKeyRow) → Memᴰ r table → selects now p r ≡ true → r ≡ row)
      → query_row now p table ≡ some row
  unfolding query_row
  query_row_unique row p (Memᴰ.head {x} {xs} e) s only = rw (rw e at s) (ap some (sym e))
  query_row_unique row p (Memᴰ.tail {x} {xs} m) s only = elim (Bool-cases (selects now p x)) [
    | inl t ↦ rw t (ap some (only x (Memᴰ.head refl) t))
    | inr t ↦ rw t (query_row_unique row p m s (λ r m' t'. only r (Memᴰ.tail m') t'))
  ]

  -- Conversely a key is accepted, with the row's limits, whenever the table has such a row, the
  -- key has at least 23 bytes and no other usable row shares its prefix.
  pub validate_complete :
      (row : ApiKeyRow)
      → Memᴰ row rows
      → IsUsable argon2 now raw_key id row
      → lookup_prefix_len ≤ length raw_key
      → ((r : ApiKeyRow)
          → Memᴰ r rows
          → selects now (take lookup_prefix_len raw_key) r ≡ true
          → r ≡ row)
      → validate argon2 rows now raw_key id ≡ ok (key_info (take lookup_prefix_len raw_key) row)
  unfolding validate selects
  validate_complete row m u long only =
      let p = take lookup_prefix_len raw_key in
      let chosen : selects now p row ≡ true =
        ground (arith, u, (bytes_eq_iff row.key_prefix p).1 u.prefixed) in
      let found = query_row_unique row p m chosen only in
      ground (arith, found, u, IsAllowed-allows id row.allowed_deployments u.allowed)

-- A key that `keygen.Generate` has just made is accepted by the gateway for every deployment, once
-- its prefix and hash stand in an active row without expiry or deployment list, if the random
-- source gave at least four bytes for the key and no other usable row shares the prefix.
pub generate-validate :
    (argon2 : Argon2) (rows : List ApiKeyRow) (now : ℕ) (id key_bytes salt raw_key stored : Bytes)
    (row : ApiKeyRow)
    → All IsByte salt
    → 4 ≤ length key_bytes
    → generate argon2 (some key_bytes) (some salt) ≡ some (raw_key, stored)
    → Memᴰ row rows
    → row.key_prefix ≡ prefix raw_key
    → row.key_hash ≡ stored
    → row.active ≡ true
    → row.expires_at ≡ none
    → row.allowed_deployments ≡ []
    → ((r : ApiKeyRow) → Memᴰ r rows → selects now (prefix raw_key) r ≡ true → r ≡ row)
    → validate argon2 rows now raw_key id ≡ ok (key_info (prefix raw_key) row)
generate-validate argon2 rows now id key_bytes salt raw_key stored row ks four made m pre hashed act
      exp deps only =
    let (k, st, e, h, len) = generate_lem argon2 key_bytes salt in
    let same : (k ≡ raw_key) × (st ≡ stored) = ground arith in
    let long : lookup_prefix_len ≤ length raw_key = omega (arith, len, ap length same.0) in
    let stored_hash : hash argon2 raw_key (some salt) ≡ some stored = ground arith in
    let lookup_prefix = prefix_of_long raw_key long in
    rw lookup_prefix (
      validate_complete argon2 rows now raw_key id row m
        (record {
          prefixed = pre ∙ lookup_prefix;
          active = act;
          unexpired_now = rw exp;
          hashed =
              rw hashed
                (hash-verify_argon2id_phc argon2 raw_key raw_key salt stored ks stored_hash).0;
          allowed = inl deps;
        })
        long (rw lookup_prefix at only))
