-- ===== src/Prelude/Text.antt =====
-- Go strings and byte slices as lists of bytes, with the functions of package `strings` that the
-- program uses.
use Prim.Native.Nat.{ℕ}
use Prim.Native.Char.{code}
use Prim.Native.String.{String}
use mathlib.Core.Path.{◌≡◌, refl}
use mathlib.Core.Logic.{◌↔◌, ◌≢◌, inl, inr}
use mathlib.Core.Bool.{Bool, true, false, ◌&&◌, ◌||◌}
use mathlib.Core.Option.{Option, none, some}
use mathlib.Core.List.{List, [], ◌∷◌, ◌++◌, reverse}
use native.Mathlib.Omega.{arith}
use openserve.Prelude.Tests.{◌==◌, leb, Bool-cases, if◌then◌else◌}
use openserve.Prelude.Lists.{length, drop, All}

abbrev pub Bytes : Type 0
Bytes = List ℕ

-- The bytes of an ASCII literal.
abbrev pub codes : String → Bytes
codes String.[] = []
codes (String.◌∷◌ c s) = code c ∷ codes s

-- `a == b` on strings.
unfoldable pub bytes_eq : Bytes → Bytes → Bool
bytes_eq [] [] = true
bytes_eq [] (b ∷ bs) = false
bytes_eq (a ∷ as') [] = false
bytes_eq (a ∷ as') (b ∷ bs) = a == b && bytes_eq as' bs

pub bytes_eq_iff : (a b : Bytes) → (bytes_eq a b ≡ true) ↔ (a ≡ b)
unfolding bytes_eq
bytes_eq_iff [] [] = ground arith
bytes_eq_iff [] (b ∷ bs) = ground arith
bytes_eq_iff (a ∷ as') [] = ground arith
bytes_eq_iff (a ∷ as') (b ∷ bs) = ground (arith, bytes_eq_iff as' bs)

pub bytes_eq_refl : (a : Bytes) → bytes_eq a a ≡ true
bytes_eq_refl a = (bytes_eq_iff a a).1 refl

-- `strings.HasPrefix(s, p)`, the prefix first.
unfoldable pub has_prefix : Bytes → Bytes → Bool
has_prefix [] s = true
has_prefix (c ∷ p) [] = false
has_prefix (c ∷ p) (d ∷ s) = c == d && has_prefix p s

-- `strings.TrimPrefix(s, p)`, the prefix first.
unfoldable pub trim_prefix : Bytes → Bytes → Bytes
unfolding has_prefix
trim_prefix p s = if has_prefix p s then drop (length p) s else s

pub has_prefix-append : (p s : Bytes) → has_prefix p (p ++ s) ≡ true
unfolding has_prefix
has_prefix-append [] s = refl
has_prefix-append (c ∷ p) s = ground (arith, has_prefix-append p s)

pub has_prefix_iff : (p s : Bytes) → (has_prefix p s ≡ true) → p ++ drop (length p) s ≡ s
unfolding has_prefix
has_prefix_iff [] s h = refl
has_prefix_iff (c ∷ p) [] h = cc
has_prefix_iff (c ∷ p) (d ∷ s) h = ground (arith, has_prefix_iff p s)

-- `strings.Split(s, sep)` for a separator of one byte: always at least one part.
pub cons_head : ℕ → List Bytes → List Bytes
cons_head c [] = (c ∷ []) ∷ []
cons_head c (p ∷ ps) = (c ∷ p) ∷ ps

unfoldable pub split : ℕ → Bytes → List Bytes
unfolding cons_head
split sep [] = [] ∷ []
split sep (c ∷ s) = let rest = split sep s in if c == sep then [] ∷ rest else cons_head c rest

pub split_sep : (sep c : ℕ) (s : Bytes) → c ≡ sep → split sep (c ∷ s) ≡ [] ∷ split sep s
unfolding split
split_sep sep c s e = ground arith

pub split_other :
    (sep c : ℕ) (s p : Bytes) (ps : List Bytes)
    → c ≢ sep
    → split sep s ≡ p ∷ ps
    → split sep (c ∷ s) ≡ (c ∷ p) ∷ ps
unfolding split
split_other sep c s p ps h e = ground arith

pub split-eq-cons : (sep : ℕ) (s : Bytes) → (p : Bytes) × (ps : List Bytes) × (split sep s ≡ p ∷ ps)
split-eq-cons sep [] = ([], [], unfold split in refl)
split-eq-cons sep (c ∷ s) =
    let (p, ps, e) = split-eq-cons sep s in
    elim (Bool-cases (c == sep)) [
      | inl h ↦ ([], split sep s, split_sep sep c s (ground arith))
      | inr h ↦ (c ∷ p, ps, split_other sep c s p ps (ground arith) e)
    ]

-- No byte of the text is `b`.
abbrev pub Lacks : ℕ → Bytes → Type 0
Lacks b = All (λ c. c ≢ b)

pub split_of_Lacks : (sep : ℕ) (p : Bytes) → Lacks sep p → split sep p ≡ p ∷ []
unfolding split
split_of_Lacks sep [] _ = refl
split_of_Lacks sep (c ∷ p) (h, k) = ground (arith, split_of_Lacks sep p k)

-- The text in front of the first separator is the first part.
pub split-append :
    (sep : ℕ) (p s : Bytes) → Lacks sep p → split sep (p ++ sep ∷ s) ≡ p ∷ split sep s
unfolding split
split-append sep [] s _ = ground arith
split-append sep (c ∷ p) s (h, k) = ground (arith, split-append sep p s k)

-- `strings.SplitN(s, sep, 2)` for a separator of one byte: the text before the first separator
-- and, if there is one, the text behind it.
cons_part : ℕ → Bytes × Option Bytes → Bytes × Option Bytes
cons_part c (p, r) = (c ∷ p, r)

unfoldable pub cut : ℕ → Bytes → Bytes × Option Bytes
unfolding cons_part
cut sep [] = ([], none)
cut sep (c ∷ s) = if c == sep then ([], some s) else cons_part c (cut sep s)

pub cut-append : (sep : ℕ) (p s : Bytes) → Lacks sep p → cut sep (p ++ sep ∷ s) ≡ (p, some s)
unfolding cut
cut-append sep [] s _ = ground arith
cut-append sep (c ∷ p) s (h, k) = ground (arith, cut-append sep p s k)

pub cut-Lacks : (sep : ℕ) (s : Bytes) → Lacks sep (cut sep s).0
unfolding cut
cut-Lacks sep [] = tt
cut-Lacks sep (c ∷ s) = ground (arith, cut-Lacks sep s)

-- `strings.TrimSpace` on ASCII text.
abbrev pub is_space : ℕ → Bool
is_space c = c == 32 || (leb 9 c && leb c 13)

trim_left : Bytes → Bytes
trim_left [] = []
trim_left (c ∷ s) = let rest = trim_left s in if is_space c then rest else c ∷ s

unfoldable pub trim_space : Bytes → Bytes
unfolding trim_left
trim_space s = reverse (trim_left (reverse (trim_left s)))
