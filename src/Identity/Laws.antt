-- ===== src/Identity/Laws.antt =====
-- About `Verify` and `JWTMiddleware` of apps/control-api/internal/auth/oidc.go.
use mathlib.Core.List.{Memᴰ}
use openserve.Prelude.{
  Bytes, Bool, true, false, List, [], Option, none, some, ◌≡◌, ◌⊎◌, refl, arith,
}
use openserve.Gateway.Proxy.Forward.{equal_fold}
use openserve.Identity.{
  Claims, email_domain, token_string, Method, hmac, other_method, key_of, Jwt, next_with, passage,
  jwt_middleware,
}

-- One of the domains is that of the email address, up to the case of letters.
abbrev pub HasDomain : List Bytes → Bytes → Type 0
HasDomain domains email = (d : Bytes) × Memᴰ d domains × (equal_fold d (email_domain email) ≡ true)

-- What an identity token must hold for its claims to be accepted.
abbrev pub IsAcceptable : List Bytes → Claims → Type 0
IsAcceptable domains c = (c.email_verified ≡ true) × ((domains ≡ []) ⊎ HasDomain domains c.email)

jwt_middleware-passage :
    (jwt : Jwt) (secret header : Bytes) (cookie : Option Bytes) (c : Claims)
    → jwt_middleware jwt secret header cookie ≡ next_with c
    → passage (jwt.parse (key_of secret) (token_string header cookie)) ≡ next_with c
unfolding jwt_middleware
jwt_middleware-passage jwt secret header cookie c e = ground arith

passage-some :
    (found : Option (Bool × Claims)) (c : Claims)
    → passage found ≡ next_with c
    → found ≡ some (true, c)
unfolding passage
passage-some none c e = ground arith
passage-some (some (true, x)) c e = ground arith
passage-some (some (false, x)) c e = ground arith

key_of-hmac :
    (secret key : Bytes) (m : Method) → key_of secret m ≡ some key → (m ≡ hmac) × (secret ≡ key)
unfolding key_of
key_of-hmac secret key hmac e = (refl, ground arith)
key_of-hmac secret key other_method e = ground arith

-- A request reaches the next handler only with a token that is signed by HMAC with the server's
-- secret, never by another method, and with the claims of that token.
pub jwt_middleware-Signed :
    (jwt : Jwt) (secret header : Bytes) (cookie : Option Bytes) (c : Claims)
    → jwt_middleware jwt secret header cookie ≡ next_with c
    → jwt.Signed hmac secret (token_string header cookie) c
unfolding jwt_middleware
jwt_middleware-Signed jwt secret header cookie c e =
    let token = token_string header cookie in
    let parsed =
      passage-some (jwt.parse (key_of secret) token) c
        (jwt_middleware-passage jwt secret header cookie c e) in
    let (m, key, given, signed) = jwt.parse-Signed (key_of secret) token true c parsed in
    let (is_hmac, same) = key_of-hmac secret key m given in rw (is_hmac, ← same) at signed
