-- ===== src/Prelude/Base64.antt =====
-- `base64.RawStdEncoding` of package `encoding/base64`: no padding, line breaks skipped, and the
-- unused bits of the last character ignored.
use Prim.Native.Nat.{ℕ, ◌+◌, ◌-◌, ◌*◌, ◌/◌, ◌%◌, ◌<◌}
use mathlib.Core.Path.{◌≡◌, refl, ap, ap₂}
use mathlib.Core.Bool.{Bool, true, false, ◌&&◌, ◌||◌}
use mathlib.Core.Logic.{◌≢◌}
use mathlib.Core.Option.{Option, none, some}
use mathlib.Core.List.{[], ◌∷◌}
use native.Mathlib.Omega.{arith}
use openserve.Prelude.Tests.{ltb, leb, ◌==◌, if◌then◌else◌}
use openserve.Prelude.Lists.{All, select}
use openserve.Prelude.Text.{Bytes}

encode6 : ℕ → ℕ
encode6 v =
    if ltb v 26
    then b'A' + v
    else if ltb v 52
    then b'a' + (v - 26)
    else if ltb v 62
    then b'0' + (v - 52)
    else if v == 62
    then b'+'
    else b'/'

decode6 : ℕ → Option ℕ
decode6 c =
    if leb b'A' c && leb c b'Z'
    then some (c - b'A')
    else if leb b'a' c && leb c b'z'
    then some (c - b'a' + 26)
    else if leb b'0' c && leb c b'9'
    then some (c - b'0' + 52)
    else if c == b'+'
    then some 62
    else if c == b'/'
    then some 63
    else none

unfoldable pub encode : Bytes → Bytes
unfolding encode6
encode [] = []
encode (a ∷ []) = encode6 (a / 4) ∷ encode6 (a % 4 * 16) ∷ []
encode (a ∷ b ∷ []) = encode6 (a / 4) ∷ encode6 (a % 4 * 16 + b / 16) ∷ encode6 (b % 16 * 4) ∷ []
encode (a ∷ b ∷ c ∷ s) =
    encode6 (a / 4)
    ∷ encode6 (a % 4 * 16 + b / 16)
    ∷ encode6 (b % 16 * 4 + c / 64)
    ∷ encode6 (c % 64)
    ∷ encode s

infixl 5 ◌>>=◌
abbrev ◌>>=◌ {ℓ κ} : {A : Type ℓ} {B : Type κ} → Option A → (A → Option B) → Option B
none >>= f = none
some a >>= f = f a

decode_groups : Bytes → Option Bytes
unfolding decode6
decode_groups [] = some []
decode_groups (p ∷ []) = none
decode_groups (p ∷ q ∷ []) = do u ← decode6 p; v ← decode6 q; some ((u * 4 + v / 16) ∷ [])
decode_groups (p ∷ q ∷ r ∷ []) = do
  u ← decode6 p
  v ← decode6 q
  w ← decode6 r
  some ((u * 4 + v / 16) ∷ (v % 16 * 16 + w / 4) ∷ [])
decode_groups (p ∷ q ∷ r ∷ t ∷ s) = do
  u ← decode6 p
  v ← decode6 q
  w ← decode6 r
  x ← decode6 t
  rest ← decode_groups s
  some ((u * 4 + v / 16) ∷ (v % 16 * 16 + w / 4) ∷ (w % 4 * 64 + x) ∷ rest)

abbrev is_kept : ℕ → Bool
is_kept c = if c == 10 || c == 13 then false else true

unfoldable pub decode : Bytes → Option Bytes
unfolding decode_groups
decode s = decode_groups (select is_kept s)

-- A character of the standard alphabet.
abbrev pub IsBase64 : ℕ → Type 0
IsBase64 c = (c ≢ b'$') × (c ≢ 10) × (c ≢ 13) × (32 < c)

encode6-IsBase64 : (v : ℕ) → v < 64 → IsBase64 (encode6 v)
unfolding encode6
encode6-IsBase64 v h = ground arith

decode6-encode6 : (v : ℕ) → v < 64 → decode6 (encode6 v) ≡ some v
unfolding encode6 decode6
decode6-encode6 v h = ground arith

abbrev pub IsByte : ℕ → Type 0
IsByte c = c < 256

-- The text of an encoding has no `$` and no white space.
pub encode-IsBase64 : (s : Bytes) → All IsByte s → All IsBase64 (encode s)
unfolding encode
encode-IsBase64 [] _ = tt
encode-IsBase64 (a ∷ []) (h, _) =
    (encode6-IsBase64 (a / 4) (omega arith), (encode6-IsBase64 (a % 4 * 16) (omega arith), tt))
encode-IsBase64 (a ∷ b ∷ []) (h, (k, _)) = (
  encode6-IsBase64 (a / 4) (omega arith),
  (
    encode6-IsBase64 (a % 4 * 16 + b / 16) (omega arith),
    (encode6-IsBase64 (b % 16 * 4) (omega arith), tt),
  ),
)
encode-IsBase64 (a ∷ b ∷ c ∷ s) (h, (k, (l, m))) = (
  encode6-IsBase64 (a / 4) (omega arith),
  (
    encode6-IsBase64 (a % 4 * 16 + b / 16) (omega arith),
    (
      encode6-IsBase64 (b % 16 * 4 + c / 64) (omega arith),
      (encode6-IsBase64 (c % 64) (omega arith), encode-IsBase64 s m),
    ),
  ),
)

select_kept : (s : Bytes) → All IsBase64 s → select is_kept s ≡ s
select_kept [] _ = refl
select_kept (c ∷ s) (h, k) = ground (arith, select_kept s k)

three_bytes :
    {a b c a' b' c' : ℕ} (s : Bytes)
    → a ≡ a'
    → b ≡ b'
    → c ≡ c'
    → ◌≡◌ {A = Option Bytes} (some (a ∷ b ∷ c ∷ s)) (some (a' ∷ b' ∷ c' ∷ s))
three_bytes s p q r = cc

decode_groups-encode : (s : Bytes) → All IsByte s → decode_groups (encode s) ≡ some s
unfolding encode decode_groups
decode_groups-encode [] _ = refl
decode_groups-encode (a ∷ []) (h, _) =
    rw (decode6-encode6 (a / 4) (omega arith), decode6-encode6 (a % 4 * 16) (omega arith))
      (ap some (ap (λ (t : ℕ). t ∷ []) (omega arith)))
decode_groups-encode (a ∷ b ∷ []) (h, (k, _)) =
    rw
      (
        decode6-encode6 (a / 4) (omega arith),
        decode6-encode6 (a % 4 * 16 + b / 16) (omega arith),
        decode6-encode6 (b % 16 * 4) (omega arith),
      )
      (ap₂ (λ (t u : ℕ). some (t ∷ u ∷ [])) (omega arith) (omega arith))
decode_groups-encode (a ∷ b ∷ c ∷ s) (h, (k, (l, m))) =
    rw
      (
        decode6-encode6 (a / 4) (omega arith),
        decode6-encode6 (a % 4 * 16 + b / 16) (omega arith),
        decode6-encode6 (b % 16 * 4 + c / 64) (omega arith),
        decode6-encode6 (c % 64) (omega arith),
        decode_groups-encode s m,
      )
      (three_bytes s (omega arith) (omega arith) (omega arith))

-- Decoding gives back the bytes that were encoded.
pub decode-encode : (s : Bytes) → All IsByte s → decode (encode s) ≡ some s
unfolding decode
decode-encode s h = rw (select_kept (encode s) (encode-IsBase64 s h)) (decode_groups-encode s h)
