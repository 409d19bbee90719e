-- ===== src/ControlApi/Members/Roles.antt =====
-- Who can change the members: RequireRole, and the handlers that stand behind it, in
-- apps/control-api/internal/handler/handler.go.
use openserve.Prelude.{
  Bytes, bytes_eq, bytes_eq_iff, codes, ◌++◌, Option, none, some, arith, Bool, true, false, ◌≡◌,
  ◌≢◌, refl, Bool-cases, inl, inr, ap, not, ltb,
}
use openserve.ControlApi.Tables.{Db, has_member}
use openserve.ControlApi.Database.{
  lost, refused, answered, violation, Verdict, spend, row_result, next_verdict, found_or_else,
  replied, stop, Action, State, Response, json_status, serve, Outcome, next, ◌>>=◌, fetch,
  query_row, exec, exec_db, exec_result, check, signed_in, some_or, write_audit_log, give, scanned,
  continue,
}
use openserve.ControlApi.Database.Keeps.{Keeps, keeps_rules}
use openserve.ControlApi.Members.{
  http_error, role_rank, member_role, require_role, remove_member, delete_member, is_referenced,
}
use openserve.ControlApi.Keys.Rotation.{quiet}
use openserve.ControlApi.Frames.{
  serve_webhooks-Keeps, serve_org-Keeps, serve_keys-Keeps, serve_templates-Keeps, serve_peers-Keeps,
  serve_conversations-Keeps, serve_deployments-Keeps, serve_documents-Keeps, serve_lookups-Keeps,
}
use openserve.ControlApi.Routes

role_rank-below :
    (role : Bytes) → bytes_eq role (codes "admin") ≡ false → ltb (role_rank role) 4 ≡ true
unfolding role_rank
role_rank-below role h = rw h (ground arith)

contradiction : {b : Bool} → b ≡ false → b ≡ true → ⊥
contradiction {b} e h = ground arith

role_rank_admin :
    (role : Bytes)
    → not (ltb (role_rank role) (role_rank (codes "admin"))) ≡ true
    → role ≡ codes "admin"
unfolding role_rank bytes_eq
role_rank_admin role h = elim (Bool-cases (bytes_eq role (codes "admin"))) [
  | inl same ↦ (bytes_eq_iff role (codes "admin")).0 same
  | inr other ↦ absurd (contradiction (ap not (role_rank-below role other)) h)
]

-- The caller's role in the database is not that of an admin, be there a row or not.
abbrev pub IsNoAdmin : Option Bytes → Db → Type 0
IsNoAdmin caller d =
    (subject : Bytes) → caller ≡ some subject → member_role subject d ≢ some (codes "admin")

-- The rank test behind the row of the caller.
too_low :
    (missing : Response) (v : Verdict) (row : Option Bytes) (s : State)
    → row ≢ some (codes "admin")
    → (r : Response) × ((found_or_else missing missing (row_result v row) >>= λ role.
            check
              (not (ltb (role_rank role) (role_rank (codes "admin"))))
              (http_error 403 (codes "forbidden: requires " ++ (codes "admin" ++ codes " role"))))
          s).0
        ≡ replied r
unfolding found_or_else row_result give stop check ◌>>=◌
too_low missing answered none s other = (_, refl)
too_low missing answered (some role) s other =
    elim (Bool-cases (not (ltb (role_rank role) (role_rank (codes "admin"))))) [
      | inl high ↦ absurd (other (ap some (role_rank_admin role high)))
      | inr low ↦ (
        http_error 403 (codes "forbidden: requires " ++ (codes "admin" ++ codes " role")),
        rw low refl,
      )
    ]
too_low missing refused row s other = (_, refl)
too_low missing (lost n) row s other = (_, refl)

require_role-stops :
    (caller : Option Bytes) (s : State)
    → IsNoAdmin caller s.db
    → (r : Response) × ((require_role (codes "admin") caller s).0 ≡ replied r)
unfolding require_role signed_in some_or fetch give stop ◌>>=◌
require_role-stops none s other = (_, refl)
require_role-stops (some subject) s other =
    too_low _ (next_verdict s.verdicts) (member_role subject s.db) (spend s) (other subject refl)

require_role-db :
    (caller : Option Bytes) (s : State) → (require_role (codes "admin") caller s).1.db ≡ s.db
unfolding require_role
require_role-db caller s =
    let keeps : Keeps (λ d. d ≡ s.db) (require_role (codes "admin") caller) =
      search keeps_rules depth 20 in
    keeps.at s refl

stopped :
    (o : Outcome (Unit {0})) (r : Response) (m : Action Response) (s : State) (d : Db)
    → o ≡ replied r
    → s.db ≡ d
    → (continue o (λ _. m) s).1.db ≡ d
unfolding continue
stopped (next tt) r m s d e h = ground arith
stopped (replied r') r m s d e h = h

serve_members-lower :
    (env : Routes.Env) (call : Routes.Call) (r : Routes.MemberRoute) (s : State)
    → IsNoAdmin call.caller s.db
    → (Routes.serve_members env call r s).1.db ≡ s.db
unfolding Routes.serve_members ◌>>=◌
serve_members-lower env call r s lower =
    let (reply, e) = require_role-stops call.caller s lower in
    stopped _ reply (Routes.serve_member env call r) _ s.db e (require_role-db call.caller s)

-- No call of a route behind RequireJWT, whatever its statements meet, changes the table of
-- the members, unless the caller has a row there whose role is admin.
pub serve_route-members :
    (env : Routes.Env) (call : Routes.Call) (r : Routes.Route) (s : State)
    → IsNoAdmin call.caller s.db
    → (Routes.serve_route env call r s).1.db.members ≡ s.db.members
unfolding Routes.serve_route
serve_route-members env call (Routes.of_peers r) s lower =
    (serve_peers-Keeps {P = λ d. d.members ≡ s.db.members} (λ d ps is k. k) env call r).at s refl
serve_route-members env call (Routes.of_keys r) s lower =
    (serve_keys-Keeps {P = λ d. d.members ≡ s.db.members} (λ d rows k. k) env call r).at s refl
serve_route-members env call (Routes.of_members r) s lower =
    ap (λ (d : Db). d.members) (serve_members-lower env call r s lower)
serve_route-members env call (Routes.of_org r) s lower =
    (serve_org-Keeps {P = λ d. d.members ≡ s.db.members} (λ d rows k. k) env call r).at s refl
serve_route-members env call (Routes.of_webhooks r) s lower =
    (serve_webhooks-Keeps {P = λ d. d.members ≡ s.db.members} (λ d rows k. k) env call r).at s refl
serve_route-members env call (Routes.of_templates r) s lower =
    (serve_templates-Keeps {P = λ d. d.members ≡ s.db.members} (λ d rows k. k) env call r).at s refl
serve_route-members env call (Routes.of_conversations r) s lower =
    (serve_conversations-Keeps {P = λ d. d.members ≡ s.db.members} (λ d rows msgs k. k) env call
        r).at
      s refl
serve_route-members env call (Routes.of_deployments r) s lower =
    (serve_deployments-Keeps {P = λ d. d.members ≡ s.db.members} (λ d rows k. k) env call r).at s
      refl
serve_route-members env call (Routes.of_documents r) s lower =
    (serve_documents-Keeps {P = λ d. d.members ≡ s.db.members} (λ d rows chunks k. k) env call r).at
      s refl
serve_route-members env call (Routes.of_lookups r) s lower =
    (serve_lookups-Keeps {P = λ d. d.members ≡ s.db.members} env call r).at s refl

delete_member-referenced :
    (id : Bytes) (d : Db)
    → has_member id d ≡ true
    → is_referenced id d ≡ true
    → delete_member id d ≡ violation
unfolding delete_member
delete_member-referenced id d there named = ground arith

-- Where the database answers, a member whose row an API key or an entry of the audit log names is
-- not removed by RemoveMember, which says that it was: an admin, of whatever org, gets the status
-- "removed", and the database stays as it was.
pub remove_member-referenced :
    (subject id : Bytes) (s : State)
    → member_role subject s.db ≡ some (codes "admin")
    → has_member id s.db ≡ true
    → is_referenced id s.db ≡ true
    → let (r, s') = serve (remove_member (some subject) id) (quiet s) in
      (r ≡ json_status 200 (codes "removed")) × (s'.db ≡ s.db)
unfolding remove_member ◌>>=◌ signed_in some_or query_row check row_result bytes_eq exec exec_db
    exec_result write_audit_log scanned give
remove_member-referenced subject id s admin there named =
    rw (admin, delete_member-referenced id s.db there named) (refl, refl)
