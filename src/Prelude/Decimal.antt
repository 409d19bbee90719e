-- ===== src/Prelude/Decimal.antt =====
-- Decimal text: the verb `%d` of package `fmt` for numbers that are not negative, and the digits
-- that `strconv.ParseUint(s, 10, 32)` reads.
use Prim.Native.Nat.{ℕ, zero, suc, ◌+◌, ◌-◌, ◌*◌, ◌/◌, ◌%◌, ◌<◌}
use mathlib.Core.Path.{◌≡◌, refl}
use mathlib.Core.Logic.{◌≢◌, inl, inr}
use mathlib.Core.Bool.{Bool, true, false, ◌&&◌}
use mathlib.Core.Option.{Option, none, some}
use mathlib.Core.List.{[], ◌∷◌, ◌++◌, append-nil}
use native.Mathlib.Omega.{arith}
use openserve.Prelude.Tests.{ltb, leb, Bool-cases, if◌then◌else◌}
use openserve.Prelude.Lists.{All}
use openserve.Prelude.Text.{Bytes, Lacks}

-- The digits of `n` in front of `out`; a number below the fuel has fewer digits than the fuel.
emit : ℕ → ℕ → Bytes → Bytes
emit zero n out = out
emit (suc fuel) n out =
    let more = emit fuel (n / 10) ((b'0' + n % 10) ∷ out) in
    if ltb n 10 then (b'0' + n) ∷ out else more

unfoldable pub format_nat : ℕ → Bytes
unfolding emit
format_nat n = emit (suc n) n []

abbrev pub is_digit : ℕ → Bool
is_digit c = leb b'0' c && leb c b'9'

-- The number that the leading digits spell, behind the digits that spell `v`, and the rest.
unfoldable pub scan_digits : ℕ → Bytes → ℕ × Bytes
scan_digits v [] = (v, [])
scan_digits v (c ∷ s) =
    let more = scan_digits (v * 10 + (c - b'0')) s in if is_digit c then more else (v, c ∷ s)

abbrev whole : ℕ → ℕ × Bytes → Option ℕ
whole bound (v, []) = if ltb v bound then some v else none
whole bound (v, c ∷ s) = none

-- `strconv.ParseUint(s, 10, 32)`: at least one digit, digits only, and a value in range.
unfoldable pub parse_uint32 : Bytes → Option ℕ
unfolding scan_digits
parse_uint32 [] = none
parse_uint32 (c ∷ s) = whole 4294967296 (scan_digits 0 (c ∷ s))

-- The text does not start with a digit.
abbrev pub StopsDigits : Bytes → Type 0
StopsDigits [] = Unit
StopsDigits (c ∷ s) = is_digit c ≡ false

scan_digits-emit :
    (fuel n : ℕ) (out : Bytes) → n < fuel → scan_digits 0 (emit fuel n out) ≡ scan_digits n out
unfolding emit scan_digits
scan_digits-emit zero n out h = elim h [ ]
scan_digits-emit (suc fuel) n out h =
    ground (arith, scan_digits-emit fuel (n / 10) ((b'0' + n % 10) ∷ out))

scan_digits_stop : (v : ℕ) (s : Bytes) → StopsDigits s → scan_digits v s ≡ (v, s)
unfolding scan_digits
scan_digits_stop v [] h = refl
scan_digits_stop v (c ∷ s) h = ground arith

emit-append : (fuel n : ℕ) (out s : Bytes) → emit fuel n out ++ s ≡ emit fuel n (out ++ s)
unfolding emit
emit-append zero n out s = refl
emit-append (suc fuel) n out s = ground (arith, emit-append fuel (n / 10) ((b'0' + n % 10) ∷ out) s)

-- Reading back a number that was printed, in front of any text that does not go on with a digit.
pub scan_digits-format_nat :
    (n : ℕ) (s : Bytes) → StopsDigits s → scan_digits 0 (format_nat n ++ s) ≡ (n, s)
unfolding format_nat
scan_digits-format_nat n s h =
    rw (emit-append (suc n) n [] s, scan_digits-emit (suc n) n s (omega arith))
      (scan_digits_stop n s h)

emit-All :
    (fuel n : ℕ) (out : Bytes) (P : ℕ → Type 0)
    → ((d : ℕ) → d < 10 → P (b'0' + d))
    → All P out
    → All P (emit fuel n out)
unfolding emit
emit-All zero n out P p h = h
emit-All (suc fuel) n out P p h = elim (Bool-cases (ltb n 10)) [
  | inl small ↦ rw small (p n (ground arith), h)
  | inr large ↦
      rw large (emit-All fuel (n / 10) ((b'0' + n % 10) ∷ out) P p (p (n % 10) (omega arith), h))
]

-- A printed number holds digits only.
pub format_nat-Lacks : (b n : ℕ) → is_digit b ≡ false → Lacks b (format_nat n)
unfolding format_nat
format_nat-Lacks b n h =
    emit-All (suc n) n [] (λ c. c ≢ b) (λ d lt e. cc (digit_lem b d lt e, h)) tt
  where
    digit_lem : (b d : ℕ) → d < 10 → b'0' + d ≡ b → is_digit b ≡ true
    digit_lem b d lt e = ground arith

emit-ne-nil : (fuel n : ℕ) (out : Bytes) → n < fuel → emit fuel n out ≢ []
unfolding emit
emit-ne-nil zero n out h = elim h [ ]
emit-ne-nil (suc fuel) n out h = ground (arith, emit_cons fuel (n / 10) (b'0' + n % 10) out)
  where
    emit_cons : (fuel n c : ℕ) (out : Bytes) → emit fuel n (c ∷ out) ≢ []
    emit_cons zero n c out = cc
    emit_cons (suc fuel) n c out = ground (arith, emit_cons fuel (n / 10) (b'0' + n % 10) (c ∷ out))

parse_uint32_lem :
    (s : Bytes) (n : ℕ)
    → s ≢ []
    → scan_digits 0 s ≡ (n, [])
    → n < 4294967296
    → parse_uint32 s ≡ some n
unfolding parse_uint32
parse_uint32_lem [] n h e b = absurd (h refl)
parse_uint32_lem (c ∷ s) n h e b = rw e (ground arith)

-- `strconv.ParseUint` reads back what `%d` prints of a `uint32`.
pub parse_uint32-format_nat : (n : ℕ) → n < 4294967296 → parse_uint32 (format_nat n) ≡ some n
parse_uint32-format_nat n h =
    parse_uint32_lem (format_nat n) n (unfold format_nat in emit-ne-nil (suc n) n [] (omega arith))
      (rw (append-nil (format_nat n)) at (scan_digits-format_nat n [] tt)) h
