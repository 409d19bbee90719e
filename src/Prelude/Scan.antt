-- ===== src/Prelude/Scan.antt =====
-- `fmt.Sscanf` for the verbs that the program uses: a literal character must be the next one of the
-- input, `%d` reads a `uint32`, `%s` reads up to white space, and any other verb is an error.
use openserve.Prelude.{
  ℕ, Bytes, is_space, is_digit, scan_digits, ltb, ◌==◌, if◌then◌else◌, false, List, [], ◌∷◌, Option,
  none, some, ◌≡◌, refl, arith,
}

pub data Directive : Type 0 where
  literal : ℕ → Directive
  number text other_verb : Directive

pub data Arg : Type 0 where
  number : ℕ → Arg
  text : Bytes → Arg

-- The literal characters of a format.
abbrev pub literals : Bytes → List Directive → List Directive
literals [] ds = ds
literals (c ∷ s) ds = literal c ∷ literals s ds

-- White space is skipped in front of a verb; a line break in it is an error.
skip_space : Bytes → Option Bytes
skip_space [] = some []
skip_space (c ∷ s) =
    let rest = skip_space s in if c == 10 then none else if is_space c then rest else some (c ∷ s)

scan_text : Bytes → Bytes × Bytes
scan_text [] = ([], [])
scan_text (c ∷ s) =
    let rest = scan_text s in if is_space c then ([], c ∷ s) else (c ∷ rest.0, rest.1)

-- One verb: the argument and the rest of the input.
scan_number : Bytes → Option (Arg × Bytes)
scan_number [] = none
scan_number (c ∷ s) =
    let found = scan_digits 0 (c ∷ s) in
    if is_digit c
    then if ltb found.0 4294967296 then some (number found.0, found.1) else none
    else none

scan_word : Bytes → Option (Arg × Bytes)
unfolding scan_text
scan_word [] = none
scan_word (c ∷ s) = let found = scan_text (c ∷ s) in some (text found.0, found.1)

infixl 5 ◌>>=◌
abbrev ◌>>=◌ {ℓ κ} : {A : Type ℓ} {B : Type κ} → Option A → (A → Option B) → Option B
none >>= f = none
some a >>= f = f a

advance : ℕ → Bytes → Option Bytes
advance c [] = none
advance c (d ∷ s) = if d == c then some s else none

unfoldable pub sscanf : List Directive → Bytes → Option (List Arg)
unfolding skip_space scan_number scan_word advance
sscanf [] s = some []
sscanf (literal c ∷ ds) s = do rest ← advance c s; sscanf ds rest
sscanf (number ∷ ds) s = do
  from ← skip_space s
  (arg, rest) ← scan_number from
  args ← sscanf ds rest
  some (arg ∷ args)
sscanf (text ∷ ds) s = do
  from ← skip_space s
  (arg, rest) ← scan_word from
  args ← sscanf ds rest
  some (arg ∷ args)
sscanf (other_verb ∷ ds) s = none

-- The scan fails whatever the input.
abbrev pub Fails : List Directive → Type 0
Fails ds = (s : Bytes) → sscanf ds s ≡ none

bind_none {ℓ κ} :
    {A : Type ℓ} {B : Type κ} (m : Option A) (f : A → Option B)
    → ((a : A) → f a ≡ none)
    → (m >>= f) ≡ none
bind_none none f h = refl
bind_none (some a) f h = h a

-- A format of which a tail always fails always fails.
pub Fails-cons : (d : Directive) (ds : List Directive) → Fails ds → Fails (d ∷ ds)
unfolding sscanf
Fails-cons (literal c) ds h s = bind_none (advance c s) _ h
Fails-cons number ds h s =
    bind_none (skip_space s) _ (λ from. bind_none (scan_number from) _ (λ p. rw (h p.1)))
Fails-cons text ds h s =
    bind_none (skip_space s) _ (λ from. bind_none (scan_word from) _ (λ p. rw (h p.1)))
Fails-cons other_verb ds h s = refl

pub Fails-literals : (p : Bytes) (ds : List Directive) → Fails ds → Fails (literals p ds)
Fails-literals [] ds h = h
Fails-literals (c ∷ p) ds h = Fails-cons (literal c) (literals p ds) (Fails-literals p ds h)

advance-scan_text : (c : ℕ) (s : Bytes) → is_space c ≡ false → advance c (scan_text s).1 ≡ none
unfolding advance scan_text
advance-scan_text c [] h = refl
advance-scan_text c (d ∷ s) h = ground (arith, advance-scan_text c s h)

word_literal :
    (c : ℕ) (ds : List Directive) (s : Bytes)
    → is_space c ≡ false
    → (scan_word s >>= λ p. sscanf (literal c ∷ ds) p.1 >>= λ args. some (p.0 ∷ args)) ≡ none
unfolding sscanf
word_literal c ds [] h = refl
word_literal c ds (d ∷ s) h = rw (advance-scan_text c (d ∷ s) h)

-- `%s` followed by a character that is not white space: the word takes that character too, so no
-- input matches.
pub Fails-text_literal :
    (c : ℕ) (ds : List Directive) → is_space c ≡ false → Fails (text ∷ literal c ∷ ds)
unfolding sscanf
Fails-text_literal c ds h s = bind_none (skip_space s) _ (λ from. word_literal c ds from h)
