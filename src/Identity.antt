-- ===== src/Identity.antt =====
-- Who is calling the control API: apps/control-api/internal/auth/oidc.go.
pub mod Laws
mod Tests
use openserve.Prelude.{
  ◌≡◌, ℕ, Bytes, codes, bytes_eq, has_prefix, trim_prefix, cut, map, Bool, true, false, List, [],
  ◌∷◌, Option, none, some, if◌then◌else◌,
}
use openserve.Gateway.Proxy.Forward.{lower, equal_fold}

-- The claims that the code reads or sets.
pub record Claims : Type 0 where
  pub subject : Bytes
  pub email : Bytes
  pub name : Bytes
  pub email_verified : Bool

pub data VerifyError : Type 0 where
  verify_failed claims_failed email_not_verified domain_not_allowed : VerifyError

pub data Verified : Type 0 where
  claims : Claims → Verified
  denied : VerifyError → Verified

-- The part behind the first `@`, or nothing; `strings.ToLower` on ASCII text.
abbrev domain_part : Bytes × Option Bytes → Bytes
domain_part (local_part, none) = []
domain_part (local_part, some domain) = map lower domain

unfoldable pub email_domain : Bytes → Bytes
email_domain email = domain_part (cut b'@' email)

-- The loop over the allowed domains.
unfoldable pub is_allowed_domain : Bytes → List Bytes → Bool
is_allowed_domain domain [] = false
is_allowed_domain domain (d ∷ ds) =
    if equal_fold d domain then true else is_allowed_domain domain ds

-- An empty list allows every domain.
abbrev pub allows_domain : List Bytes → Bytes → Bool
allows_domain [] email = true
allows_domain (d ∷ ds) email = is_allowed_domain (email_domain email) (d ∷ ds)

unfoldable pub check_claims : List Bytes → Option Claims → Verified
check_claims allowed_domains none = denied claims_failed
check_claims allowed_domains (some c) =
    if c.email_verified
    then if allows_domain allowed_domains c.email then claims c else denied domain_not_allowed
    else denied email_not_verified

-- `token_of` is the verifier of the OIDC library, `claims_of` its decoder of a verified token.
module _ {Token : Type 0} (token_of : Bytes → Option Token)
    (claims_of : Token → Option Claims) where
  unfoldable pub check_token : List Bytes → Option Token → Verified
  unfolding check_claims
  check_token allowed_domains none = denied verify_failed
  check_token allowed_domains (some token) = check_claims allowed_domains (claims_of token)

  -- `Verify`
  unfoldable pub verify : List Bytes → Bytes → Verified
  unfolding check_token
  verify allowed_domains raw_id_token = check_token allowed_domains (token_of raw_id_token)

-- The token of the Authorization header.
abbrev pub header_token : Bytes → Bytes
header_token header =
    if has_prefix (codes "Bearer ") header then trim_prefix (codes "Bearer ") header else []

abbrev cookie_token : Option Bytes → Bytes
cookie_token none = []
cookie_token (some value) = value

-- The header's token, or else the session cookie's.
unfoldable pub token_string : Bytes → Option Bytes → Bytes
token_string header cookie =
    if bytes_eq (header_token header) [] then cookie_token cookie else header_token header

-- The signing method that a token names.
pub data Method : Type 0 where
  hmac : Method
  other_method : Method

-- The function that gives the key for a method.
unfoldable pub key_of : Bytes → Method → Option Bytes
key_of secret hmac = some secret
key_of secret other_method = none

-- `jwt.ParseWithClaims`: with a result, the token names a method, the function gave a key for it,
-- and the token is signed with this key and carries these claims.
pub record Jwt : Type 1 where
  pub Signed : Method → Bytes → Bytes → Claims → Type 0
  pub parse : (Method → Option Bytes) → Bytes → Option (Bool × Claims)
  pub parse-Signed :
      (keys : Method → Option Bytes) (token : Bytes) (valid : Bool) (c : Claims)
      → parse keys token ≡ some (valid, c)
      → (method : Method) × (key : Bytes) × (keys method ≡ some key) × Signed method key token c

-- The answer of the middleware: a refusal, or the next handler with these claims.
pub data Passage : Type 0 where
  no_token invalid_token : Passage
  next_with : Claims → Passage

unfoldable pub passage : Option (Bool × Claims) → Passage
passage none = invalid_token
passage (some (valid, c)) = if valid then next_with c else invalid_token

module _ (jwt : Jwt) where
  -- `JWTMiddleware`
  unfoldable pub jwt_middleware : Bytes → Bytes → Option Bytes → Passage
  unfolding passage
  jwt_middleware secret header cookie =
      let token = token_string header cookie in
      if bytes_eq token [] then no_token else passage (jwt.parse (key_of secret) token)
