-- ===== src/Gateway/RateLimit/Window.antt =====
-- What the rate limiter counts: weights of the entries of a sorted set, and those that lie in the
-- window.
use mathlib.Core.Logic.{∥∥₁_elim}
use mathlib.Core.List.{Perm, Permᴰ}
use native.Mathlib.Nat.{ℕ_set}
use openserve.Prelude.{
  ℕ, ◌+◌, ◌≤◌, Bytes, bytes_eq, ltb, length, select, Bool, true, List, [], ◌∷◌, ◌≡◌, refl, ap, ◌∙◌,
  arith, if◌then◌else◌, Bool-cases, inl, inr,
}
use openserve.Prelude.Words.{sub_ℕ}
use openserve.Gateway.RateLimit.Redis.{Entry, without, above}
use openserve.Gateway.RateLimit.{window, member_tokens, total_tokens}

abbrev pub weigh {ℓ} : {A : Type ℓ} → (A → ℕ) → List A → ℕ
weigh f [] = 0
weigh f (x ∷ xs) = f x + weigh f xs

weigh-Permᴰ {ℓ} : {A : Type ℓ} (f : A → ℕ) {xs ys : List A} → Permᴰ xs ys → weigh f xs ≡ weigh f ys
weigh-Permᴰ f Permᴰ.nil = refl
weigh-Permᴰ f (Permᴰ.cons e p) = omega (arith, ap f e, weigh-Permᴰ f p)
weigh-Permᴰ f (Permᴰ.swap e g) = omega (arith, ap f e, ap f g)
weigh-Permᴰ f (Permᴰ.trans p q) = weigh-Permᴰ f p ∙ weigh-Permᴰ f q

pub weigh-Perm {ℓ} :
    {A : Type ℓ} (f : A → ℕ) {xs ys : List A} → Perm xs ys → weigh f xs ≡ weigh f ys
weigh-Perm f p = ∥∥₁_elim p (ℕ_set _ _) (weigh-Permᴰ f)

pub weigh-select {ℓ} :
    {A : Type ℓ} (f : A → ℕ) (p : A → Bool) (xs : List A)
    → weigh f (select p xs) ≡ weigh (λ x. if p x then f x else 0) xs
weigh-select f p [] = refl
weigh-select f p (x ∷ xs) = ground (arith, weigh-select f p xs)

pub weigh_ext {ℓ} :
    {A : Type ℓ} (f g : A → ℕ) (xs : List A) → ((x : A) → f x ≡ g x) → weigh f xs ≡ weigh g xs
weigh_ext f g [] h = refl
weigh_ext f g (x ∷ xs) h = omega (arith, h x, weigh_ext f g xs h)

pub weigh_mono {ℓ} :
    {A : Type ℓ} (f g : A → ℕ) (xs : List A) → ((x : A) → f x ≤ g x) → weigh f xs ≤ weigh g xs
weigh_mono f g [] h = omega arith
weigh_mono f g (x ∷ xs) h = omega (arith, h x, weigh_mono f g xs h)

pub weigh_add {ℓ} :
    {A : Type ℓ} (f g : A → ℕ) (xs : List A) → weigh (λ x. f x + g x) xs ≡ weigh f xs + weigh g xs
weigh_add f g [] = refl
weigh_add f g (x ∷ xs) = omega (arith, weigh_add f g xs)

pub weigh_one {ℓ} : {A : Type ℓ} (xs : List A) → weigh (λ x. 1) xs ≡ length xs
weigh_one [] = refl
weigh_one (x ∷ xs) = omega (arith, weigh_one xs)

pub weigh_tokens : (es : List Entry) → weigh (λ e. member_tokens e.member) es ≡ total_tokens es
unfolding total_tokens
weigh_tokens [] = refl
weigh_tokens (e ∷ es) = omega (arith, weigh_tokens es)

-- An entry lies in the window at the time `now`.
abbrev pub is_recent : ℕ → Entry → Bool
is_recent now e = ltb now (e.score + window)

abbrev pub recent : ℕ → List Entry → List Entry
recent now = select (is_recent now)

-- The cleanup keeps exactly the entries in the window.
pub above-eq-recent : (now : ℕ) (es : List Entry) → above (sub_ℕ now window) es ≡ recent now es
above-eq-recent now [] = refl
above-eq-recent now (e ∷ es) = ground (arith, above-eq-recent now es)

pub recent-recent : (now : ℕ) (es : List Entry) → recent now (recent now es) ≡ recent now es
recent-recent now [] = refl
recent-recent now (e ∷ es) = elim (Bool-cases (is_recent now e)) [
  | inl h ↦ rw (h, select) (rw (h, select) (ap (λ t. e ∷ t) (recent-recent now es)))
  | inr h ↦ rw (h, select) (recent-recent now es)
]

-- A weight that does not see the member `m` is not changed by writing that member.
pub weigh-without :
    (f : Entry → ℕ) (m : Bytes) (es : List Entry)
    → ((e : Entry) → bytes_eq e.member m ≡ true → f e ≡ 0)
    → weigh f (without m es) ≡ weigh f es
weigh-without f m [] h = refl
weigh-without f m (e ∷ es) h = ground (arith, h e, weigh-without f m es h)
