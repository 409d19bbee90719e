-- ===== src/ControlApi/Settings.antt =====
-- The org's settings and its audit log: GetSettings, UpdateSettings and GetAuditLog of
-- apps/control-api/internal/handler/handler.go.
use openserve.Prelude.{Bytes, codes, bytes_eq, not, [], ◌∷◌, Option, some}
use openserve.ControlApi.Tables.{Db, Org, text, number, find, update_where, is_org, member_org}
use openserve.ControlApi.Database.{
  Action, Response, http_error, write_json, json_error, no_content, Change, changed, give, fetch_or,
  query_row, scanned, must, some_or, check, signed_in, write_audit_log, ◌>>=◌, ◌>>◌,
}

unfoldable pub org_of : Bytes → Db → Option Org
unfolding find
org_of id d = find (is_org id) d.orgs

unfoldable pub get_settings : Option Bytes → Action Response
unfolding org_of member_org
get_settings caller = do
  subject ← signed_in caller
  row ← query_row (member_org subject)
  let org_id = scanned [] row
  o ← fetch_or (json_error (codes "org not found")) (org_of org_id)
  give (
      write_json 200 (
        (codes "orgId", text org_id)
        ∷ (codes "name", text o.name)
        ∷ (codes "googleDomain", text o.google_domain)
        ∷ (codes "createdAt", number o.created_at)
        ∷ []))

unfoldable pub rename_org : Bytes → Bytes → Db → Change (Unit {0})
unfolding update_where
rename_org name id d =
    changed tt (record d { orgs = update_where (is_org id) (λ o. record o { name = name }) d.orgs })

-- The body is the name, if the request decodes; `message` is the text of the database's error.
unfoldable pub update_settings : Option Bytes → Option Bytes → Bytes → Action Response
unfolding rename_org member_org
update_settings caller body message = do
  subject ← signed_in caller
  name ← some_or (http_error 400 (codes "invalid request body")) body
  check (not (bytes_eq name [])) (http_error 400 (codes "invalid request body"))
  row ← query_row (member_org subject)
  let org_id = scanned [] row
  must (json_error message) (rename_org name org_id)
  write_audit_log org_id subject (codes "update_settings") (codes "org") org_id
      (some ((codes "name", text name) ∷ []))
  give no_content
