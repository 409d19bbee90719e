-- ===== src/ControlApi/Deployments/Names.antt =====
-- The names that slugify and CreateDeployment of apps/control-api/internal/handler/handler.go make.
use mathlib.Core.List.{reverse, reverse_aux}
use openserve.Prelude.{
  zero, suc, ℕ, ◌==◌, ◌≤◌, ◌<◌, Bytes, take, length, arith, Bool, true, false, [], ◌∷◌, ◌++◌, ◌≡◌,
  refl, All, All-append, Option, none, some, ◌||◌, length-append, length-take,
}
use openserve.Prelude.Hex.{hex_encode}
use openserve.ControlApi.Deployments.{
  is_alphanumeric, lower_from, replace_others, collapse, trim_left, trim_hyphens, truncated,
  slugify, random4hex, deployment_name,
}

-- `[a-z0-9-]`, all that the name of an object of the cluster may have in one label.
abbrev pub is_name_byte : ℕ → Bool
is_name_byte c = is_alphanumeric c || c == b'-'

abbrev pub IsName : Bytes → Type 0
IsName s = All (λ c. is_name_byte c ≡ true) s

replace_others-IsName : (replaced : Bool) (s : Bytes) → IsName (replace_others replaced s)
unfolding replace_others
replace_others-IsName replaced [] = tt
replace_others-IsName replaced (c ∷ s) =
    ground (arith, replace_others-IsName false s, replace_others-IsName true s)

collapse-IsName : (hyphen : Bool) (s : Bytes) → IsName s → IsName (collapse hyphen s)
unfolding collapse
collapse-IsName hyphen [] h = tt
collapse-IsName hyphen (c ∷ s) (h, k) =
    ground (arith, collapse-IsName false s k, collapse-IsName true s k)

trim_left-IsName : (s : Bytes) → IsName s → IsName (trim_left s)
unfolding trim_left
trim_left-IsName [] h = tt
trim_left-IsName (c ∷ s) (h, k) = ground (arith, trim_left-IsName s k)

reverse_aux-IsName : (s t : Bytes) → IsName s → IsName t → IsName (reverse_aux s t)
reverse_aux-IsName [] t h k = k
reverse_aux-IsName (c ∷ s) t (h, hs) k = reverse_aux-IsName s (c ∷ t) hs (h, k)

reverse-IsName : (s : Bytes) → IsName s → IsName (reverse s)
reverse-IsName s h = reverse_aux-IsName s [] h tt

trim_hyphens-IsName : (s : Bytes) → IsName s → IsName (trim_hyphens s)
unfolding trim_hyphens
trim_hyphens-IsName s h =
    let left = reverse-IsName (trim_left s) (trim_left-IsName s h) in
    reverse-IsName (trim_left (reverse (trim_left s)))
      (trim_left-IsName (reverse (trim_left s)) left)

take-IsName : (n : ℕ) (s : Bytes) → IsName s → IsName (take n s)
take-IsName zero s h = tt
take-IsName (suc n) [] h = tt
take-IsName (suc n) (c ∷ s) (h, k) = (h, take-IsName n s k)

truncated-IsName : (n : ℕ) (s : Bytes) → IsName s → IsName (truncated n s)
unfolding truncated
truncated-IsName n s h = ground (arith, take-IsName n s h)

truncated-length : (n : ℕ) (s : Bytes) → length (truncated n s) ≤ n
unfolding truncated
truncated-length n s = ground (arith, length-take n s)

truncated-short : (n : ℕ) (s : Bytes) → length s ≤ n → truncated n s ≡ s
unfolding truncated
truncated-short n s h = ground arith

slugify-IsName : (s : Bytes) → (length (slugify s) ≤ 40) × IsName (slugify s)
unfolding slugify
slugify-IsName s =
    let clean = replace_others-IsName false (lower_from 0 s) in
    let once = collapse-IsName false (replace_others false (lower_from 0 s)) clean in
    (
      truncated-length 40 (trim_hyphens (collapse false (replace_others false (lower_from 0 s)))),
      truncated-IsName 40 (trim_hyphens (collapse false (replace_others false (lower_from 0 s))))
          (trim_hyphens-IsName (collapse false (replace_others false (lower_from 0 s))) once),
    )

hex_encode-IsName : (s : Bytes) → All (λ c. c < 256) s → IsName (hex_encode s)
unfolding hex_encode
hex_encode-IsName [] h = tt
hex_encode-IsName (c ∷ s) (h, k) = ground (arith, hex_encode-IsName s k)

-- What `rand.Read` gives for two bytes, or an error.
abbrev pub IsTwoBytes : Option Bytes → Type 0
IsTwoBytes none = Unit {0}
IsTwoBytes (some b) = (length b ≡ 2) × All (λ c. c < 256) b

random4hex-IsName :
    (random : Option Bytes)
    → IsTwoBytes random
    → (length (random4hex random) ≡ 4) × IsName (random4hex random)
unfolding random4hex hex_encode
random4hex-IsName none h = ground arith
random4hex-IsName (some []) (h, k) = ground arith
random4hex-IsName (some (c ∷ [])) (h, k) = ground arith
random4hex-IsName (some (c ∷ c2 ∷ [])) (h, k) = (refl, hex_encode-IsName (c ∷ c2 ∷ []) k)
random4hex-IsName (some (c ∷ c2 ∷ c3 ∷ s)) (h, k) = ground arith

-- For every model reference, the name of a new deployment is its slug, of at most 40 bytes, a hyphen
-- and four more bytes, all of them lowercase ASCII letters, digits and hyphens, if the random
-- source gives two bytes or an error: the cut at 63 bytes never takes any off.
pub deployment_name-IsName :
    (model_ref : Bytes) (random : Option Bytes)
    → IsTwoBytes random
    → (deployment_name model_ref random ≡ slugify model_ref ++ b'-' ∷ random4hex random)
      × (length (slugify model_ref) ≤ 40)
      × (length (random4hex random) ≡ 4)
      × IsName (deployment_name model_ref random)
unfolding deployment_name
deployment_name-IsName model_ref random h =
    let (short, name) = slugify-IsName model_ref in
    let (four, suffix) = random4hex-IsName random h in
    let full = slugify model_ref ++ b'-' ∷ random4hex random in
    let size : length full ≤ 45 =
      omega (arith, length-append (slugify model_ref) (b'-' ∷ random4hex random)) in
    let uncut : truncated 63 full ≡ full = truncated-short 63 full (omega arith) in
    rw uncut (
      refl,
      short,
      four,
      All-append _ (slugify model_ref) (b'-' ∷ random4hex random) name (refl, suffix),
    )
