-- ===== src/ControlApi/Members.antt =====
-- Members and their roles: RequireRole, ListMembers, InviteMember and RemoveMember of
-- apps/control-api/internal/handler/handler.go.
pub mod Frames
pub mod Roles
use mathlib.Core.Option
use openserve.Prelude.{
  ℕ, Bytes, codes, bytes_eq, map, select, not, ltb, Bool, true, false, ◌&&◌, ◌||◌, List, [], ◌∷◌,
  ◌++◌, Option, none, some, if◌then◌else◌,
}
use openserve.ControlApi.Tables.{
  Db, Member, ApiKey, AuditRow, Conversation, ConversationMessage, PromptTemplate,
  KnowledgeDocument, Fields, text, number, find, any, update_where, delete_where, is_member,
  optional_time, member_of, member_org, has_org, has_member,
}
use openserve.ControlApi.Database.{
  Action, Response, respond, http_error, write_json, json_status, json_error, json_slice, Change,
  changed, unique_violation, violation, give, fetch_or, query_row, query_rows, scanned, or_empty,
  exec, must, some_or, check, unauthorized, signed_in, write_audit_log, ◌>>=◌, ◌>>◌,
}

-- `roleRank`; a role that the map lacks counts 0.
unfoldable pub role_rank : Bytes → ℕ
role_rank role =
    if bytes_eq role (codes "viewer")
    then 1
    else if bytes_eq role (codes "partner")
    then 2
    else if bytes_eq role (codes "developer")
    then 3
    else if bytes_eq role (codes "admin")
    then 4
    else 0

-- `SELECT role FROM members WHERE id = $1`
unfoldable pub member_role : Bytes → Db → Option Bytes
unfolding member_of
member_role id d = Option.map (λ (m : Member). m.role) (member_of id d)

-- `RequireRole`: goes on where the next handler is served.
unfoldable pub require_role : Bytes → Option Bytes → Action (Unit {0})
unfolding role_rank member_role
require_role required_role caller = do
  subject ← signed_in caller
  role ← fetch_or (http_error 401 (codes "member not found")) (member_role subject)
  check (not (ltb (role_rank role) (role_rank required_role)))
      (http_error 403 (codes "forbidden: requires " ++ (required_role ++ codes " role")))

abbrev member_fields : Member → Fields
member_fields m =
    (codes "id", text m.id)
    ∷ (codes "email", text m.email)
    ∷ (codes "name", text m.name)
    ∷ (codes "role", text m.role)
    ∷ (codes "joinedAt", optional_time m.joined_at)
    ∷ (codes "createdAt", number m.created_at)
    ∷ []

unfoldable pub list_members : Option Bytes → Action Response
unfolding member_org
list_members caller = do
  subject ← signed_in caller
  org ← query_row (member_org subject)
  let org_id = scanned [] org
  rows ← query_rows (λ d. select (λ (m : Member). bytes_eq m.org_id org_id) d.members)
  give (respond 200 (json_slice (map member_fields (or_empty rows))))

pub record InviteRequest : Type 0 where
  pub email : Bytes
  pub name : Bytes
  pub role : Bytes

-- `validRoles`, which the table's check allows too.
unfoldable pub is_valid_role : Bytes → Bool
is_valid_role role =
    bytes_eq role (codes "admin")
    || bytes_eq role (codes "developer")
    || bytes_eq role (codes "partner")
    || bytes_eq role (codes "viewer")

abbrev pub has_email : Bytes → Bytes → Member → Bool
has_email org_id email m = bytes_eq m.org_id org_id && bytes_eq m.email email

-- `INSERT INTO members … ON CONFLICT (org_id, email) DO UPDATE … RETURNING id`, with the change
-- that a conflict makes to the row.
unfoldable pub upsert_found : Member → (Member → Member) → Db → Option Member → Change Bytes
unfolding update_where has_member has_org
upsert_found m on_conflict d (some old) =
    changed old.id
      (record d { members = update_where (has_email m.org_id m.email) on_conflict d.members })
upsert_found m on_conflict d none = elim (has_member m.id d) [
  | true ↦ unique_violation
  | false ↦ elim (has_org m.org_id d) [
    | true ↦ changed m.id (record d { members = d.members ++ m ∷ [] })
    | false ↦ violation
  ]
]

unfoldable pub upsert_member : Member → (Member → Member) → Db → Change Bytes
unfolding upsert_found find
upsert_member m on_conflict d =
    upsert_found m on_conflict d (find (has_email m.org_id m.email) d.members)

-- The row that both statements insert.
abbrev pub new_member : (id org_id email name role : Bytes) → ℕ → Member
new_member id org_id email name role now = record {
  id = id;
  org_id = org_id;
  email = email;
  name = name;
  role = role;
  joined_at = some now;
  created_at = now;
}

-- `message` is the text of the database's error.
unfoldable pub invite_member :
    Option Bytes → Option InviteRequest → (message new_id : Bytes) → ℕ → Action Response
unfolding is_valid_role upsert_member member_org
invite_member caller body message new_id now = do
  subject ← signed_in caller
  req ← some_or (http_error 400 (codes "invalid request body")) body
  check (is_valid_role req.role)
      (http_error 400 (codes "role must be one of: admin, developer, partner, viewer"))
  check (not (bytes_eq req.email [] || bytes_eq req.name []))
      (http_error 400 (codes "email and name are required"))
  org ← query_row (member_org subject)
  let org_id = scanned [] org
  new_member_id ← must (json_error message) (
      upsert_member (new_member new_id org_id req.email req.name req.role now)
        (λ m. record m { role = req.role }))
  write_audit_log org_id subject (codes "invite_member") (codes "member") new_member_id
      (some ((codes "email", text req.email) ∷ (codes "role", text req.role) ∷ []))
  give (write_json 201 ((codes "id", text new_member_id) ∷ (codes "email", text req.email) ∷ []))

-- A row of `api_keys` or `audit_log` that names the member keeps its row from being deleted.
unfoldable pub is_referenced : Bytes → Db → Bool
unfolding any
is_referenced id d =
    any (λ (k : ApiKey). bytes_eq k.created_by id) d.api_keys
    || any (λ (r : AuditRow). bytes_eq r.entry.actor_member_id id) d.audit_log

abbrev pub forget : Bytes → Option Bytes → Option Bytes
forget id none = none
forget id (some creator) = if bytes_eq creator id then none else some creator

unfoldable pub is_conversation_of : Bytes → List Conversation → ConversationMessage → Bool
unfolding any
is_conversation_of id cs msg =
    any (λ (c : Conversation). bytes_eq c.member_id id && bytes_eq c.id msg.conversation_id) cs

-- Conversations go with the member and their messages with them; templates and documents stay.
unfoldable pub delete_member : Bytes → Db → Change (Unit {0})
unfolding is_referenced delete_where is_conversation_of has_member
delete_member id d = elim (has_member id d && is_referenced id d) [
  | true ↦ violation
  | false ↦ changed tt (record d {
    members = delete_where (is_member id) d.members;
    conversations = delete_where (λ (c : Conversation). bytes_eq c.member_id id) d.conversations;
    conversation_messages =
        delete_where (is_conversation_of id d.conversations) d.conversation_messages;
    prompt_templates =
        map (λ (t : PromptTemplate). record t { created_by = forget id t.created_by })
          d.prompt_templates;
    knowledge_documents =
        map (λ (t : KnowledgeDocument). record t { created_by = forget id t.created_by })
          d.knowledge_documents;
  })
]

unfoldable pub remove_member : Option Bytes → Bytes → Action Response
unfolding delete_member member_org member_role
remove_member caller id = do
  subject ← signed_in caller
  org ← query_row (member_org id)
  let org_id = scanned [] org
  role ← query_row (member_role subject)
  let caller_role = scanned [] role
  check (bytes_eq caller_role (codes "admin"))
      (http_error 403 (codes "forbidden: admin role required"))
  exec (delete_member id)
  write_audit_log org_id subject (codes "remove_member") (codes "member") id none
  give (json_status 200 (codes "removed"))
