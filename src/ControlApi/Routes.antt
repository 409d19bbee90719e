-- ===== src/ControlApi/Routes.antt =====
-- The routes that stand behind RequireJWT in apps/control-api/cmd/server/main.go, by the part that
-- they belong to, and the handler that each one names.
use openserve.Prelude.{ℕ, Bytes, codes, Option}
use openserve.Gateway.Auth.Hash.{Argon2}
use openserve.ControlApi.Database.{Action, Response, ◌>>◌}
use openserve.Prelude.Words.{ℤ}
use openserve.Prelude.{List}
use openserve.ControlApi.Tables.{Fields, KnowledgeChunk}
use openserve.ControlApi.Catalog.{Decoded, list_catalog}
use openserve.ControlApi.Lookups.{SearchResult, Scored, get_audit_log, search_web, retrieve_context}
use openserve.ControlApi.Peers.{
  list_peers, create_peer, delete_peer, rotate_peer_token, list_peer_invites, create_peer_invite,
  delete_peer_invite,
}
use openserve.ControlApi.Keys.{list_api_keys, create_api_key, delete_api_key, rotate_api_key}
use openserve.ControlApi.Members.{
  InviteRequest, require_role, list_members, invite_member, remove_member,
}
use openserve.ControlApi.Settings.{get_settings, update_settings}
use openserve.ControlApi.Usage.{get_usage}
use openserve.ControlApi.Webhooks.{WebhookRequest, list_webhooks, create_webhook, delete_webhook}
use openserve.ControlApi.Templates.{
  CreateTemplate, UpdateTemplate, list_prompt_templates, create_prompt_template,
  update_prompt_template, delete_prompt_template,
}
use openserve.ControlApi.Conversations.{
  CreateConversation, AppendRequest, list_conversations, create_conversation, get_conversation,
  append_message, delete_conversation,
}
use openserve.ControlApi.Deployments.{
  K8sClient, CreateDeployment, list_deployments, create_deployment, get_deployment,
  delete_deployment, resume_deployment,
}
use openserve.ControlApi.Documents.{Embed, Upload, upload_document, list_documents, delete_document}

-- What the code calls outside the repository, and the cluster's client if there is one.
pub record Env : Type 0 where
  pub argon2 : Argon2
  pub k8s : Option K8sClient
  pub scheme_of : Bytes → Option Bytes
  pub read_pdf : Bytes → Option Bytes
  pub format_day : ℕ → Bytes
  pub month_of : ℕ → ℕ
  pub models : Decoded
  pub jsonb : Fields → Bytes
  pub read_bigint : Bytes → Option ℤ
  pub brave : Bytes → ℤ → Option (ℕ × Option (List SearchResult))
  pub brave_api_key : Bytes
  pub embed : Embed
  pub nearest : List ℕ → List KnowledgeChunk → List Scored

-- The caller's subject, and what the server, the clock and the random source give in one call.
pub record Call : Type 0 where
  pub caller : Option Bytes
  pub new_id : Bytes
  pub now : ℕ
  pub random : Option Bytes
  pub random_salt : Option Bytes
  pub secret : Bytes
  pub error_text : Bytes

pub data PeerRoute : Type 0 where
  peers : PeerRoute
  new_peer : Option Bytes → PeerRoute
  drop_peer rotate_token peer_invites : (id : Bytes) → PeerRoute
  invite : (id : Bytes) → Option Bytes → PeerRoute
  drop_invite : (id key_id : Bytes) → PeerRoute

pub data KeyRoute : Type 0 where
  api_keys : KeyRoute
  new_key : Option Bytes → KeyRoute
  drop_key rotate_key : (id : Bytes) → KeyRoute

pub data MemberRoute : Type 0 where
  members : MemberRoute
  invite_one : Option InviteRequest → MemberRoute
  remove : (id : Bytes) → MemberRoute

pub data OrgRoute : Type 0 where
  usage settings : OrgRoute
  rename : Option Bytes → OrgRoute

pub data WebhookRoute : Type 0 where
  webhooks : WebhookRoute
  new_webhook : Option WebhookRequest → WebhookRoute
  drop_webhook : (id : Bytes) → WebhookRoute

pub data TemplateRoute : Type 0 where
  templates : TemplateRoute
  new_template : Option CreateTemplate → TemplateRoute
  change_template : (id : Bytes) → Option UpdateTemplate → TemplateRoute
  drop_template : (id : Bytes) → TemplateRoute

pub data ConversationRoute : Type 0 where
  conversations : (deployment_id : Bytes) → ConversationRoute
  new_conversation : Option CreateConversation → ConversationRoute
  conversation : (id : Bytes) → ConversationRoute
  append : (id : Bytes) → Option AppendRequest → ConversationRoute
  drop_conversation : (id : Bytes) → ConversationRoute

pub data DeploymentRoute : Type 0 where
  deployments : DeploymentRoute
  new_deployment : Option CreateDeployment → DeploymentRoute
  deployment drop_deployment resume : (id : Bytes) → DeploymentRoute

pub data DocumentRoute : Type 0 where
  documents : DocumentRoute
  upload : Option (Option Upload) → DocumentRoute
  drop_document : (id : Bytes) → DocumentRoute

-- The routes that only read: the catalog, the audit log from a limit and before a number, a search
-- on the web and one in the chunks, both for a query and a count.
pub data LookupRoute : Type 0 where
  catalog : LookupRoute
  audit : (limit before : Bytes) → LookupRoute
  search_for retrieve_for : Option (Bytes × ℤ) → LookupRoute

pub data Route : Type 0 where
  of_peers : PeerRoute → Route
  of_keys : KeyRoute → Route
  of_members : MemberRoute → Route
  of_org : OrgRoute → Route
  of_webhooks : WebhookRoute → Route
  of_templates : TemplateRoute → Route
  of_conversations : ConversationRoute → Route
  of_deployments : DeploymentRoute → Route
  of_documents : DocumentRoute → Route
  of_lookups : LookupRoute → Route

module _ (env : Env) (call : Call) where
  unfoldable pub serve_peers : PeerRoute → Action Response
  serve_peers peers = list_peers call.caller
  serve_peers (new_peer body) =
      create_peer env.argon2 call.caller body call.random call.random_salt call.new_id call.now
  serve_peers (drop_peer id) = delete_peer call.caller id
  serve_peers (rotate_token id) =
      rotate_peer_token env.argon2 call.caller id call.random call.random_salt
  serve_peers (peer_invites id) = list_peer_invites call.caller id
  serve_peers (invite id body) = create_peer_invite call.caller id body call.new_id call.now
  serve_peers (drop_invite id key_id) = delete_peer_invite call.caller id key_id

  unfoldable pub serve_keys : KeyRoute → Action Response
  serve_keys api_keys = list_api_keys call.caller
  serve_keys (new_key body) =
      create_api_key env.argon2 call.caller body call.random call.random_salt call.new_id call.now
  serve_keys (drop_key id) = delete_api_key call.caller id
  serve_keys (rotate_key id) = rotate_api_key env.argon2 call.caller id call.random call.random_salt

  unfoldable pub serve_member : MemberRoute → Action Response
  serve_member members = list_members call.caller
  serve_member (invite_one body) =
      invite_member call.caller body call.error_text call.new_id call.now
  serve_member (remove id) = remove_member call.caller id

  -- The group behind `RequireRole("admin")`.
  unfoldable pub serve_members : MemberRoute → Action Response
  unfolding serve_member require_role
  serve_members r = do require_role (codes "admin") call.caller; serve_member r

  unfoldable pub serve_org : OrgRoute → Action Response
  serve_org usage = get_usage env.format_day env.month_of call.caller call.error_text call.now
  serve_org settings = get_settings call.caller
  serve_org (rename body) = update_settings call.caller body call.error_text

  unfoldable pub serve_webhooks : WebhookRoute → Action Response
  serve_webhooks webhooks = list_webhooks call.caller
  serve_webhooks (new_webhook body) =
      create_webhook env.scheme_of call.caller body call.secret call.new_id call.now
  serve_webhooks (drop_webhook id) = delete_webhook call.caller id

  unfoldable pub serve_templates : TemplateRoute → Action Response
  serve_templates templates = list_prompt_templates call.caller
  serve_templates (new_template body) = create_prompt_template call.caller body call.new_id call.now
  serve_templates (change_template id body) = update_prompt_template call.caller id body call.now
  serve_templates (drop_template id) = delete_prompt_template call.caller id

  unfoldable pub serve_conversations : ConversationRoute → Action Response
  serve_conversations (conversations deployment_id) = list_conversations call.caller deployment_id
  serve_conversations (new_conversation body) =
      create_conversation call.caller body call.new_id call.now
  serve_conversations (conversation id) = get_conversation call.caller id
  serve_conversations (append id body) = append_message call.caller id body call.new_id call.now
  serve_conversations (drop_conversation id) = delete_conversation call.caller id

  unfoldable pub serve_deployments : DeploymentRoute → Action Response
  serve_deployments deployments = list_deployments call.caller
  serve_deployments (new_deployment body) =
      create_deployment env.k8s call.caller body call.random call.now
  serve_deployments (deployment id) = get_deployment call.caller id
  serve_deployments (drop_deployment id) = delete_deployment env.k8s call.caller id
  serve_deployments (resume id) = resume_deployment env.k8s call.caller id

  unfoldable pub serve_documents : DocumentRoute → Action Response
  serve_documents documents = list_documents call.caller
  serve_documents (upload form) =
      upload_document env.read_pdf call.caller form call.error_text call.new_id call.now
  serve_documents (drop_document id) = delete_document call.caller id

  unfoldable pub serve_lookups : LookupRoute → Action Response
  serve_lookups catalog = list_catalog env.models
  serve_lookups (audit limit before) =
      get_audit_log env.jsonb env.read_bigint call.caller limit before
  serve_lookups (search_for body) = search_web env.brave env.brave_api_key call.error_text body
  serve_lookups (retrieve_for body) =
      retrieve_context env.nearest env.embed call.caller body call.error_text

  unfoldable pub serve_route : Route → Action Response
  serve_route (of_peers r) = serve_peers r
  serve_route (of_keys r) = serve_keys r
  serve_route (of_members r) = serve_members r
  serve_route (of_org r) = serve_org r
  serve_route (of_webhooks r) = serve_webhooks r
  serve_route (of_templates r) = serve_templates r
  serve_route (of_conversations r) = serve_conversations r
  serve_route (of_deployments r) = serve_deployments r
  serve_route (of_documents r) = serve_documents r
  serve_route (of_lookups r) = serve_lookups r
