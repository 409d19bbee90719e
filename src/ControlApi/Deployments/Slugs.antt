-- ===== src/ControlApi/Deployments/Slugs.antt =====
-- The names of deployments: slugify and random4hex of apps/control-api/internal/handler/handler.go.
use openserve.Prelude.{
  zero, suc, has_prefix, ℕ, Bytes, codes, take, length, leb, ltb, if◌then◌else◌, ◌==◌, Bool, true,
  false, ◌&&◌, ◌||◌, [], ◌∷◌, ◌++◌, Option, none, some,
}
use mathlib.Core.List.{reverse}
use openserve.Prelude.Hex.{hex_encode}
use openserve.Gateway.Proxy.Forward.{lower}

-- `[a-z0-9]`
abbrev pub is_alphanumeric : ℕ → Bool
is_alphanumeric c = (leb b'a' c && leb c b'z') || (leb b'0' c && leb c b'9')

-- `ReplaceAllString` of `[^a-z0-9]+` by a hyphen; the flag says that the byte before was replaced.
unfoldable pub replace_others : Bool → Bytes → Bytes
replace_others replaced [] = []
replace_others replaced (c ∷ s) =
    let kept = replace_others false s in
    let rest = replace_others true s in
    if is_alphanumeric c then c ∷ kept else if replaced then rest else b'-' ∷ rest

-- `ReplaceAllString` of `-+` by a hyphen.
unfoldable pub collapse : Bool → Bytes → Bytes
collapse hyphen [] = []
collapse hyphen (c ∷ s) =
    let kept = collapse false s in
    let rest = collapse true s in if c == b'-' then if hyphen then rest else c ∷ rest else c ∷ kept

-- `strings.Trim(s, "-")`
unfoldable pub trim_left : Bytes → Bytes
trim_left [] = []
trim_left (c ∷ s) = let rest = trim_left s in if c == b'-' then rest else c ∷ s

unfoldable pub trim_hyphens : Bytes → Bytes
unfolding trim_left
trim_hyphens s = reverse (trim_left (reverse (trim_left s)))

unfoldable pub truncated : ℕ → Bytes → Bytes
truncated n s = if ltb n (length s) then take n s else s

-- `İ` and the Kelvin sign in UTF-8, the only characters outside ASCII of which the lowercase letter
-- is in ASCII.
abbrev dotted_i : Bytes
dotted_i = 196 ∷ 176 ∷ []

abbrev kelvin : Bytes
kelvin = 226 ∷ 132 ∷ 170 ∷ []

-- `strings.ToLower`, as far as `slugify` sees it: it replaces all other characters outside ASCII, in
-- lower case or not, and they are kept here. `skipped` bytes belong to a character before.
unfoldable pub lower_from : ℕ → Bytes → Bytes
unfolding has_prefix
lower_from skipped [] = []
lower_from (suc skipped) (c ∷ s) = lower_from skipped s
lower_from zero (c ∷ s) =
    let behind_i = lower_from 1 s in
    let behind_k = lower_from 2 s in
    let rest = lower_from 0 s in
    if has_prefix dotted_i (c ∷ s)
    then b'i' ∷ behind_i
    else if has_prefix kelvin (c ∷ s)
    then b'k' ∷ behind_k
    else lower c ∷ rest

unfoldable pub slugify : Bytes → Bytes
unfolding lower_from replace_others collapse trim_hyphens truncated
slugify s = truncated 40 (trim_hyphens (collapse false (replace_others false (lower_from 0 s))))

-- `random4hex`, with what `rand.Read` gives.
unfoldable pub random4hex : Option Bytes → Bytes
random4hex none = codes "0000"
random4hex (some b) = hex_encode b

unfoldable pub deployment_name : Bytes → Option Bytes → Bytes
unfolding slugify random4hex truncated
deployment_name model_ref random = truncated 63 (slugify model_ref ++ b'-' ∷ random4hex random)
