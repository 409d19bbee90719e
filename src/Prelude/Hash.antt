-- ===== src/Prelude/Hash.antt =====
-- The 32-bit FNV-1a hash of package `hash/fnv`, and the verb `%x` for a `uint32`.
use Prim.Native.Nat.{ℕ, zero, suc, ◌+◌, ◌-◌, ◌*◌, ◌/◌, ◌%◌, ◌<◌, bit_xor}
use mathlib.Core.List.{[], ◌∷◌}
use native.Mathlib.Omega.{arith}
use openserve.Prelude.Tests.{ltb, if◌then◌else◌}
use openserve.Prelude.Text.{Bytes}

fnv_step : ℕ → Bytes → ℕ
fnv_step h [] = h
fnv_step h (c ∷ s) = fnv_step (bit_xor h c * 16777619 % 4294967296) s

unfoldable pub fnv32a : Bytes → ℕ
unfolding fnv_step
fnv32a s = fnv_step 2166136261 s

fnv_step-lt : (h : ℕ) (s : Bytes) → h < 4294967296 → fnv_step h s < 4294967296
unfolding fnv_step
fnv_step-lt h [] b = b
fnv_step-lt h (c ∷ s) b = fnv_step-lt (bit_xor h c * 16777619 % 4294967296) s (omega arith)

-- The hash is a `uint32`.
pub fnv32a-lt : (s : Bytes) → fnv32a s < 4294967296
unfolding fnv32a
fnv32a-lt s = fnv_step-lt 2166136261 s (omega arith)

hex_digit : ℕ → ℕ
hex_digit d = if ltb d 10 then b'0' + d else b'a' + (d - 10)

hex_from : ℕ → ℕ → Bytes → Bytes
unfolding hex_digit
hex_from zero n out = out
hex_from (suc fuel) n out =
    let more = hex_from fuel (n / 16) (hex_digit (n % 16) ∷ out) in
    if ltb n 16 then hex_digit n ∷ out else more

-- A `uint32` has at most eight digits.
unfoldable pub format_hex : ℕ → Bytes
unfolding hex_from
format_hex n = hex_from 8 n []
