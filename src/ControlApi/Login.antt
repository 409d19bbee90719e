-- ===== src/ControlApi/Login.antt =====
-- Signing in: OIDCLogin, OIDCCallback, RequireJWT and Logout of
-- apps/control-api/internal/handler/handler.go.
pub mod Frames
use openserve.Prelude.{
  ℕ, ◌+◌, ◌==◌, Bytes, codes, bytes_eq, select, length, not, if◌then◌else◌, Bool, true, false, List,
  [], ◌∷◌, ◌++◌, Option, none, some,
}
use openserve.Prelude.Hex.{hex_encode}
use openserve.Identity.{
  Jwt, Passage, no_token, invalid_token, next_with, jwt_middleware, VerifyError, Claims, claims,
  denied, Verified, verify, email_domain,
}
use openserve.ControlApi.Tables.{Db, Org, Member, find, any, has_org, update_where}
use openserve.ControlApi.Database.{
  Action, Response, respond, object, redirect, http_error, json_status, write_json, Change, changed,
  unique_violation, violation, Found, give, stop, some_or, check, scanned, begin, tx_query_row,
  tx_exec, commit, ◌>>=◌, ◌>>◌,
}
use openserve.ControlApi.Members.{new_member, upsert_member}

-- `auth_url` is the library's `AuthCodeURL`, `random` what `rand.Read` gives.
unfoldable pub oidc_login : (Bytes → Bytes) → Option Bytes → Action Response
oidc_login auth_url random = do
  b ← some_or (http_error 500 (codes "failed to generate state")) random
  let state = hex_encode b
  give (record {
    status = 307;
    cookies = (codes "oidc_state", state) ∷ [];
    body = redirect (auth_url state);
  })

unfoldable pub logout : Action Response
logout = give (record {
  status = 200;
  cookies = (codes "openserve_session", []) ∷ [];
  body = (json_status 200 (codes "logged out")).body;
})

admit : Passage → Action Bytes
admit no_token = stop (http_error 401 (codes "unauthorized: no token"))
admit invalid_token = stop (http_error 401 (codes "invalid token"))
admit (next_with c) = give c.subject

-- `RequireJWT`: in development every request is that of the given member.
unfoldable pub require_jwt :
    Jwt → (dev_email dev_member_id : Bytes) → (secret header : Bytes) → Option Bytes → Action Bytes
unfolding jwt_middleware admit
require_jwt jwt dev_email dev_member_id secret header cookie =
    if bytes_eq dev_email []
    then admit (jwt_middleware jwt secret header cookie)
    else give dev_member_id

abbrev pub has_domain : Bytes → Org → Bool
has_domain domain o = bytes_eq o.google_domain domain

-- `INSERT INTO orgs … ON CONFLICT (google_domain) DO UPDATE SET google_domain = … RETURNING id`,
-- whose update changes nothing.
unfoldable pub upsert_found : Bytes → Bytes → ℕ → Db → Option Org → Change Bytes
unfolding has_org
upsert_found new_id domain now d (some o) = changed o.id d
upsert_found new_id domain now d none = elim (has_org new_id d) [
  | true ↦ unique_violation
  | false ↦ changed new_id (record d {
    orgs =
        d.orgs
        ++ record { id = new_id; name = domain; google_domain = domain; created_at = now } ∷ [];
  })
]

unfoldable pub upsert_org : Bytes → Bytes → ℕ → Db → Change Bytes
unfolding upsert_found find
upsert_org new_id domain now d = upsert_found new_id domain now d (find (has_domain domain) d.orgs)

-- `SELECT COUNT(*) FROM members WHERE org_id = $1`
unfoldable pub count_members : Bytes → Db → ℕ
count_members org_id d = length (select (λ (m : Member). bytes_eq m.org_id org_id) d.members)

abbrev pub default_role : ℕ → Bytes
default_role n = if n == 0 then codes "admin" else codes "developer"

abbrev joined_once : ℕ → Option ℕ → Option ℕ
joined_once now none = some now
joined_once now (some t) = some t

unfoldable pub sign_up : Bytes → Bytes → Bytes → Bytes → Bytes → ℕ → Db → Change Bytes
unfolding upsert_member
sign_up new_id org_id email name role now d =
    upsert_member (new_member new_id org_id email name role now)
      (λ m. record m { name = name; joined_at = joined_once now m.joined_at }) d

-- The transaction: the org, the lock on its row, the count and the member.
unfoldable pub provision : Claims → Bytes → (new_org new_id : Bytes) → ℕ → Action Bytes
unfolding upsert_org count_members sign_up
provision c domain new_org new_id now = do
  begun ← begin
  check begun (http_error 500 (codes "failed to begin tx"))
  org ← tx_exec (upsert_org new_org domain now)
  org_id ← some_or (http_error 500 (codes "failed to upsert org")) org
  locked ← tx_exec (λ d. changed tt d)
  some_or (http_error 500 (codes "failed to lock org")) locked
  n ← tx_query_row (λ d. some (count_members org_id d))
  member ← tx_exec (sign_up new_id org_id c.email c.name (default_role (scanned 0 n)) now)
  member_id ← some_or (http_error 500 (codes "failed to upsert member")) member
  committed ← commit
  check committed (http_error 500 (codes "failed to commit tx"))
  give member_id

abbrev verified_or : (VerifyError → Response) → Verified → Action Claims
verified_or r (claims c) = give c
verified_or r (denied e) = stop (r e)

abbrev same_state : Bytes → Option Bytes → Bool
same_state state none = false
same_state state (some value) = bytes_eq value state

-- `exchange` is the OAuth2 exchange of the code, with the answer's `id_token` if it is a string;
-- `token_of` and `claims_of` are the verifier and decoder of the OIDC library; `describe` is the
-- text of a verification error; `sign` makes the session token of a member.
module _ {Token : Type 0} (exchange : Bytes → Option (Option Bytes))
    (token_of : Bytes → Option Token) (claims_of : Token → Option Claims)
    (describe : VerifyError → Bytes) (sign : Claims → Option Bytes) where
  unfoldable pub oidc_callback :
      List Bytes
      → (code state : Bytes) → Option Bytes
      → (new_org new_id : Bytes) → ℕ
      → Action Response
  unfolding provision verify email_domain
  oidc_callback allowed_domains code state cookie new_org new_id now = do
    check (same_state state cookie) (http_error 400 (codes "invalid state"))
    token ← some_or (http_error 400 (codes "failed to exchange code")) (exchange code)
    raw_id_token ← some_or (http_error 400 (codes "missing id_token")) token
    c ←
        verified_or (λ e. http_error 400 (codes "failed to verify token: " ++ describe e))
          (verify token_of claims_of allowed_domains raw_id_token)
    let domain = email_domain c.email
    check (not (bytes_eq domain [])) (http_error 400 (codes "invalid email"))
    member_id ← provision c domain new_org new_id now
    session ←
        some_or (http_error 500 (codes "failed to generate JWT"))
          (sign (record c { subject = member_id; email_verified = false }))
    give (record {
      status = 303;
      cookies = (codes "openserve_session", session) ∷ [];
      body = redirect (codes "/dashboard");
    })
