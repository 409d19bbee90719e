-- ===== src/Identity/Tests.antt =====
-- Tests and examples of the identity checks.
use openserve.Prelude.{
  Option-cases, inl, bytes_eq_iff, Bytes, codes, bytes_eq, has_prefix, trim_prefix, cut, Bool, true,
  false, List, [], ◌∷◌, Option, none, some, ◌≡◌, refl, inr, arith, if◌then◌else◌,
}
use openserve.Gateway.Proxy.Forward.{equal_fold}
use openserve.Identity.{
  Claims, claims, denied, email_not_verified, domain_not_allowed, email_domain, is_allowed_domain,
  check_claims, check_token, verify, token_string, Method, hmac, key_of, Jwt, passage,
  jwt_middleware,
}
use openserve.Identity.Laws.{jwt_middleware-Signed}

identity : Unit {0}
unfolding email_domain is_allowed_domain check_claims check_token verify token_string key_of passage
    jwt_middleware equal_fold bytes_eq has_prefix trim_prefix cut
identity = tt

abbrev alice : Claims
alice = record {
  subject = codes "1";
  email = codes "alice@Acme.com";
  name = codes "Alice";
  email_verified = true;
}

abbrev unverified : Claims
unverified = record alice { email_verified = false }

abbrev acme : List Bytes
acme = codes "other.org" ∷ codes "ACME.com" ∷ []

-- Tokens are their own verified form; "t" decodes to Alice.
abbrev decode : Bytes → Option Claims
decode token =
    if bytes_eq token (codes "t")
    then some alice
    else if bytes_eq token (codes "u")
    then some unverified
    else none

identity_tests :
    (verify some decode acme (codes "t") ≡ claims alice)
    × (verify some decode acme (codes "u") ≡ denied email_not_verified)
    × (verify some decode (codes "other.org" ∷ []) (codes "t") ≡ denied domain_not_allowed)
    × (token_string (codes "Basic x") (some (codes "c")) ≡ codes "c")
    × (token_string (codes "Bearer x") (some (codes "c")) ≡ codes "x")
unfolding identity
identity_tests = (refl, refl, refl, refl, refl)

-- A token is the key that signs it, and carries Alice's claims.
abbrev sample_parse : (Method → Option Bytes) → Bytes → Option (Bool × Claims)
sample_parse keys token = elim (keys hmac) [
  | none ↦ none
  | some key ↦ if bytes_eq key token then some (true, alice) else none
]

abbrev SampleSigned : Method → Bytes → Bytes → Claims → Type 0
SampleSigned method key token c = key ≡ token

sample_parse-SampleSigned :
    (keys : Method → Option Bytes) (token : Bytes) (valid : Bool) (c : Claims)
    → sample_parse keys token ≡ some (valid, c)
    → (method : Method) × (key : Bytes) × (keys method ≡ some key) × SampleSigned method key token c
sample_parse-SampleSigned keys token valid c e = elim (Option-cases (keys hmac)) [
  | inl lost ↦ ground arith
  | inr (key, given) ↦ (hmac, key, given, ground (arith, bytes_eq_iff key token))
]

abbrev sample_jwt : Jwt
sample_jwt = record {
  Signed = SampleSigned;
  parse = sample_parse;
  parse-Signed = sample_parse-SampleSigned;
}

jwt_middleware-Signed_example : SampleSigned hmac (codes "s") (codes "s") alice
unfolding identity
jwt_middleware-Signed_example =
    jwt_middleware-Signed sample_jwt (codes "s") (codes "Bearer s") none alice refl
