-- ===== src/ControlApi/Templates.antt =====
-- Prompt templates: ListPromptTemplates, CreatePromptTemplate, UpdatePromptTemplate and
-- DeletePromptTemplate of apps/control-api/internal/handler/handler.go.
pub mod Tenancy
use openserve.Prelude.{
  ℕ, ◌+◌, Bytes, codes, bytes_eq, map, select, length, not, is_some, ◌==◌, if◌then◌else◌, Bool,
  true, false, ◌&&◌, ◌||◌, List, [], ◌∷◌, ◌++◌, Option, none, some,
}
use openserve.ControlApi.Tables.{
  Db, PromptTemplate, Fields, text, number, find, any, update_where, delete_where, optional_text,
  order_desc, member_org, has_org, has_member,
}
use openserve.ControlApi.Database.{
  Action, Response, respond, array, http_error, write_json, json_status, Change, changed,
  unique_violation, violation, give, fetch_or, query_row, query_rows, exec_or, must, some_or, check,
  signed_in, write_audit_log, ◌>>=◌, ◌>>◌,
}

abbrev pub no_org : Response
no_org = http_error 500 (codes "failed to get org")

abbrev template_fields : PromptTemplate → Fields
template_fields t =
    (codes "id", text t.id)
    ∷ (codes "name", text t.name)
    ∷ (codes "description", text t.description)
    ∷ (codes "content", text t.content)
    ∷ (codes "createdBy", optional_text t.created_by)
    ∷ (codes "createdAt", number t.created_at)
    ∷ []

abbrev pub of_org : Bytes → PromptTemplate → Bool
of_org org_id t = bytes_eq t.org_id org_id

abbrev pub is_template : Bytes → PromptTemplate → Bool
is_template id t = bytes_eq t.id id

templates_of : Bytes → Db → List PromptTemplate
unfolding order_desc
templates_of org_id d =
    order_desc (λ (t : PromptTemplate). t.created_at) (select (of_org org_id) d.prompt_templates)

unfoldable pub list_prompt_templates : Option Bytes → Action Response
unfolding templates_of member_org
list_prompt_templates caller = do
  subject ← signed_in caller
  org_id ← fetch_or no_org (member_org subject)
  rows ← query_rows (templates_of org_id)
  templates ← some_or (http_error 500 (codes "failed to list templates")) rows
  give (respond 200 (array (map template_fields templates)))

pub record CreateTemplate : Type 0 where
  pub name : Bytes
  pub description : Bytes
  pub content : Bytes

-- `UNIQUE(org_id, name)` and the foreign keys.
unfoldable pub has_name : Bytes → Bytes → PromptTemplate → Bool
has_name org_id name t = bytes_eq t.org_id org_id && bytes_eq t.name name

unfoldable pub creator_exists : Option Bytes → Db → Bool
unfolding has_member
creator_exists none d = true
creator_exists (some id) d = has_member id d

unfoldable pub insert_template : PromptTemplate → Db → Change (Bytes × ℕ)
unfolding any has_name has_org creator_exists
insert_template t d =
    elim (any (is_template t.id) d.prompt_templates
      || any (has_name t.org_id t.name) d.prompt_templates) [
        | true ↦ unique_violation
        | false ↦ elim (has_org t.org_id d && creator_exists t.created_by d) [
          | true ↦
              changed (t.id, t.created_at)
                (record d { prompt_templates = d.prompt_templates ++ t ∷ [] })
          | false ↦ violation
        ]
      ]

abbrev name_taken : Response
name_taken = http_error 409 (codes "a template with this name already exists")

unfoldable pub create_prompt_template :
    Option Bytes → Option CreateTemplate → Bytes → ℕ → Action Response
unfolding insert_template member_org
create_prompt_template caller body new_id now = do
  subject ← signed_in caller
  org_id ← fetch_or no_org (member_org subject)
  req ← some_or (http_error 400 (codes "invalid request body")) body
  check (not (bytes_eq req.name [] || bytes_eq req.content []))
      (http_error 400 (codes "name and content are required"))
  (template_id, created_at) ←
      exec_or name_taken (http_error 500 (codes "failed to create template")) (
        insert_template (record {
          id = new_id;
          org_id = org_id;
          name = req.name;
          description = req.description;
          content = req.content;
          created_by = some subject;
          created_at = now;
          updated_at = now;
        }))
  write_audit_log org_id subject (codes "create") (codes "prompt_template") template_id
      (some ((codes "name", text req.name) ∷ []))
  give (
      write_json 201 (
        (codes "id", text template_id)
        ∷ (codes "name", text req.name)
        ∷ (codes "description", text req.description)
        ∷ (codes "content", text req.content)
        ∷ (codes "createdAt", number created_at)
        ∷ []))

pub record UpdateTemplate : Type 0 where
  pub name : Option Bytes
  pub description : Option Bytes
  pub content : Option Bytes

abbrev or_old : Option Bytes → Bytes → Bytes
or_old none old = old
or_old (some new) old = new

-- The SET list of the statement that is put together from the fields that are given.
abbrev pub apply_update : UpdateTemplate → ℕ → PromptTemplate → PromptTemplate
apply_update req now t = record t {
  name = or_old req.name t.name;
  description = or_old req.description t.description;
  content = or_old req.content t.content;
  updated_at = now;
}

-- Another template of the same org has the new name.
clashes : Option Bytes → PromptTemplate → Db → Bool
unfolding any has_name
clashes none t d = false
clashes (some name) t d =
    any (λ (u : PromptTemplate). has_name t.org_id name u && not (is_template t.id u))
      d.prompt_templates

unfoldable pub update_found :
    UpdateTemplate → ℕ → Bytes → Db → Option PromptTemplate → Change (Unit {0})
unfolding clashes update_where
update_found req now id d none = changed tt d
update_found req now id d (some t) = elim (clashes req.name t d) [
  | true ↦ unique_violation
  | false ↦ changed tt (record d {
    prompt_templates = update_where (is_template id) (apply_update req now) d.prompt_templates;
  })
]

unfoldable pub update_template : UpdateTemplate → ℕ → Bytes → Db → Change (Unit {0})
unfolding update_found find
update_template req now id d = update_found req now id d (find (is_template id) d.prompt_templates)

-- `SELECT EXISTS(… WHERE id = $1 AND org_id = $2)`
abbrev pub is_own : Bytes → Bytes → PromptTemplate → Bool
is_own id org_id t = is_template id t && of_org org_id t

unfoldable pub update_prompt_template :
    Option Bytes → Bytes → Option UpdateTemplate → ℕ → Action Response
unfolding update_template any member_org
update_prompt_template caller template_id body now = do
  subject ← signed_in caller
  org_id ← fetch_or no_org (member_org subject)
  req ← some_or (http_error 400 (codes "invalid request body")) body
  exists ←
      fetch_or (http_error 500 (codes "failed to update template"))
        (λ d. some (any (is_own template_id org_id) d.prompt_templates))
  check exists (http_error 404 (codes "template not found"))
  check (is_some req.name || is_some req.description || is_some req.content)
      (http_error 400 (codes "no fields to update"))
  exec_or name_taken (http_error 500 (codes "failed to update template"))
      (update_template req now template_id)
  write_audit_log org_id subject (codes "update") (codes "prompt_template") template_id none
  give (json_status 200 (codes "updated"))

-- The number of rows that the statement affects.
unfoldable pub delete_template : Bytes → Bytes → Db → Change ℕ
unfolding delete_where
delete_template id org_id d =
    changed (length (select (is_own id org_id) d.prompt_templates))
      (record d { prompt_templates = delete_where (is_own id org_id) d.prompt_templates })

unfoldable pub delete_prompt_template : Option Bytes → Bytes → Action Response
unfolding delete_template member_org
delete_prompt_template caller template_id = do
  subject ← signed_in caller
  org_id ← fetch_or no_org (member_org subject)
  n ← must (http_error 500 (codes "failed to delete template")) (delete_template template_id org_id)
  check (not (n == 0)) (http_error 404 (codes "template not found"))
  write_audit_log org_id subject (codes "delete") (codes "prompt_template") template_id none
  give (json_status 200 (codes "deleted"))
