-- ===== src/Prelude/Bits.antt =====
-- The laws of `|` and `^` on bytes that a comparison without branches rests on, by evaluation at
-- every pair of bytes.
use Prim.Native.Nat.{ℕ, zero, suc, ◌+◌, ◌≤◌, ◌<◌, bit_or, bit_xor}
use mathlib.Core.Path.{◌≡◌, refl}
use mathlib.Core.Bool.{Bool, true, false, ◌&&◌}
use mathlib.Core.Logic.{inl, inr}
use native.Mathlib.Omega.{arith}
use openserve.Prelude.Tests.{ltb, ◌==◌, Bool-cases}

-- The test `holds` on every number from `from` on, `count` of them.
holds_on : ℕ → ℕ → (ℕ → Bool) → Bool
holds_on from zero holds = true
holds_on from (suc count) holds = holds_on (suc from) count holds && holds from

holds_on_lem :
    (from count : ℕ) (holds : ℕ → Bool)
    → holds_on from count holds ≡ true
    → (b : ℕ) → from ≤ b
    → b < from + count
    → holds b ≡ true
unfolding holds_on
holds_on_lem from zero holds all b least most = absurd (omega arith)
holds_on_lem from (suc count) holds all b least most = elim (Bool-cases (b == from)) [
  | inl same ↦ ground arith
  | inr other ↦ holds_on_lem (suc from) count holds (ground arith) b (ground arith) (omega arith)
]

abbrev agree : Bool → Bool → Bool
agree true b = b
agree false true = false
agree false false = true

pair_laws : ℕ → ℕ → Bool
pair_laws a b =
    ltb (bit_or a b) 256
    && ltb (bit_xor a b) 256
    && (agree (bit_or a b == 0) (a == 0 && b == 0) && agree (bit_xor a b == 0) (a == b))

pair_table : holds_on 0 256 (λ a. holds_on 0 256 (pair_laws a)) ≡ true
unfolding holds_on pair_laws
pair_table = refl

pair_laws_hold : (a b : ℕ) → a < 256 → b < 256 → pair_laws a b ≡ true
pair_laws_hold a b h k =
    let row = holds_on_lem 0 256 (λ x. holds_on 0 256 (pair_laws x)) pair_table a (omega arith) h in
    holds_on_lem 0 256 (pair_laws a) row b (omega arith) k

pub bit_or-lt : (a b : ℕ) → a < 256 → b < 256 → bit_or a b < 256
unfolding pair_laws
bit_or-lt a b h k = ground (arith, pair_laws_hold a b h k)

pub bit_xor-lt : (a b : ℕ) → a < 256 → b < 256 → bit_xor a b < 256
unfolding pair_laws
bit_xor-lt a b h k = ground (arith, pair_laws_hold a b h k)

pub bit_or-eq-zero : (a b : ℕ) → a < 256 → b < 256 → (bit_or a b == 0) ≡ (a == 0 && b == 0)
unfolding pair_laws
bit_or-eq-zero a b h k = ground (arith, pair_laws_hold a b h k)

pub bit_xor-eq-zero : (a b : ℕ) → a < 256 → b < 256 → (bit_xor a b == 0) ≡ (a == b)
unfolding pair_laws
bit_xor-eq-zero a b h k = ground (arith, pair_laws_hold a b h k)
