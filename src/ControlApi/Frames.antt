-- ===== src/ControlApi/Frames.antt =====
-- Which tables each handler of the control API may write: a property of the database that does not
-- depend on these tables is kept.
use openserve.Prelude.{Bytes, List, [], ◌∷◌, ◌++◌, ℕ, Option, none, some, arith}
use openserve.ControlApi.Tables.{
  Db, Org, ApiKey, Webhook, CachedDeployment, Conversation, ConversationMessage, PromptTemplate,
  KnowledgeDocument, KnowledgeChunk, Peer, PeerInvite, update_where,
}
use openserve.ControlApi.Database.{Action, Response, Found, found, no_rows, query_failed, ◌>>=◌}
use openserve.ControlApi.Database.Keeps.{
  Keeps, Allows, Keeps-exec, Keeps-exec_or, Keeps-give, Keeps-stop, keeps_rules,
}
use openserve.ControlApi.Webhooks.{
  insert_webhook, delete_webhook_row, list_webhooks, create_webhook, delete_webhook,
}
use openserve.ControlApi.Settings.{rename_org, get_settings, update_settings}
use openserve.ControlApi.Usage.{unless_member, get_usage}
use openserve.ControlApi.Keys.{
  insert_key, deactivate, set_secret, list_api_keys, create_api_key, delete_api_key, rotate_api_key,
}
use openserve.ControlApi.Templates.{
  insert_template, update_template, update_found, delete_template, list_prompt_templates,
  create_prompt_template, update_prompt_template, delete_prompt_template,
}
use openserve.ControlApi.Conversations.{
  insert_conversation, insert_message, touch, delete_own, list_conversations, create_conversation,
  get_conversation, append_message, delete_conversation,
}
use openserve.ControlApi.Deployments.{
  insert_deployment, delete_deployment_rows, set_pending, unless_missing, list_deployments,
  create_deployment, get_deployment, delete_deployment, resume_deployment,
}
use openserve.ControlApi.Documents.{
  insert_document, delete_document_row, start_job, upload_document, list_documents, delete_document,
}
use openserve.ControlApi.Peers.{
  insert_peer, delete_peer_row, set_token, insert_invite, delete_invite, list_peers, create_peer,
  delete_peer, rotate_peer_token, list_peer_invites, create_peer_invite, delete_peer_invite,
}
use openserve.ControlApi.Catalog.{list_catalog}
use openserve.ControlApi.Lookups.{query_all, retrieve, get_audit_log, search_web, retrieve_context}
use openserve.ControlApi.Routes

module _ {P : Db → Type 0}
    (keep : (d : Db) (rows : List Webhook) → P d → P (record d { webhooks = rows })) where
  insert_webhook-Allows : (w : Webhook) (d : Db) → P d → Allows P (insert_webhook w d)
  unfolding insert_webhook
  insert_webhook-Allows w d h = let k = keep d (d.webhooks ++ w ∷ []) h in ground arith

  pub serve_webhooks-Keeps :
      (env : Routes.Env) (call : Routes.Call) (r : Routes.WebhookRoute)
      → Keeps P (Routes.serve_webhooks env call r)
  unfolding Routes.serve_webhooks list_webhooks create_webhook delete_webhook delete_webhook_row
  serve_webhooks-Keeps env call Routes.webhooks = search keeps_rules
  serve_webhooks-Keeps env call (Routes.new_webhook body) =
      search (keeps_rules, Keeps-exec_or, insert_webhook-Allows) depth 30
  serve_webhooks-Keeps env call (Routes.drop_webhook id) =
      search (keeps_rules, Keeps-exec_or) depth 30

module _ {P : Db → Type 0}
    (keep : (d : Db) (ps : List Peer) (is : List PeerInvite)
      → P d
      → P (record d { peers = ps; peer_invites = is })) where
  insert_peer-Allows : (p : Peer) (d : Db) → P d → Allows P (insert_peer p d)
  unfolding insert_peer
  insert_peer-Allows p d h = let k = keep d (d.peers ++ p ∷ []) d.peer_invites h in ground arith

  insert_invite-Allows : (i : PeerInvite) (d : Db) → P d → Allows P (insert_invite i d)
  unfolding insert_invite
  insert_invite-Allows i d h = let k = keep d d.peers (d.peer_invites ++ i ∷ []) h in ground arith

  pub serve_peers-Keeps :
      (env : Routes.Env) (call : Routes.Call) (r : Routes.PeerRoute)
      → Keeps P (Routes.serve_peers env call r)
  unfolding Routes.serve_peers list_peers create_peer list_peer_invites create_peer_invite
      delete_peer_invite delete_peer rotate_peer_token delete_peer_row set_token delete_invite
  serve_peers-Keeps env call Routes.peers = search keeps_rules depth 30
  serve_peers-Keeps env call (Routes.new_peer body) =
      search (keeps_rules, Keeps-exec_or, insert_peer-Allows) depth 40
  serve_peers-Keeps env call (Routes.drop_peer id) = search (keeps_rules, Keeps-exec) depth 30
  serve_peers-Keeps env call (Routes.rotate_token id) = search (keeps_rules, Keeps-exec_or) depth 30
  serve_peers-Keeps env call (Routes.peer_invites id) = search keeps_rules depth 30
  serve_peers-Keeps env call (Routes.invite id body) =
      search (keeps_rules, Keeps-exec_or, insert_invite-Allows) depth 40
  serve_peers-Keeps env call (Routes.drop_invite id key_id) =
      search (keeps_rules, Keeps-exec) depth 30

module _ {P : Db → Type 0}
    (keep : (d : Db) (rows : List Org) → P d → P (record d { orgs = rows })) where
  unless_member-Keeps :
      (format : ℕ → Bytes) (row : Found Bytes) → Keeps P (unless_member format row)
  unfolding unless_member
  unless_member-Keeps format (found org_id) = Keeps-give org_id
  unless_member-Keeps format no_rows = Keeps-stop _
  unless_member-Keeps format query_failed = Keeps-stop _

  pub serve_org-Keeps :
      (env : Routes.Env) (call : Routes.Call) (r : Routes.OrgRoute)
      → Keeps P (Routes.serve_org env call r)
  unfolding Routes.serve_org get_usage get_settings update_settings rename_org
  serve_org-Keeps env call Routes.usage = search (keeps_rules, unless_member-Keeps) depth 30
  serve_org-Keeps env call Routes.settings = search keeps_rules depth 30
  serve_org-Keeps env call (Routes.rename body) = search (keeps_rules, Keeps-exec_or) depth 30

module _ {P : Db → Type 0}
    (keep : (d : Db) (rows : List ApiKey) → P d → P (record d { api_keys = rows })) where
  insert_key-Allows : (k : ApiKey) (d : Db) → P d → Allows P (insert_key k d)
  unfolding insert_key
  insert_key-Allows k d h = let kept = keep d (d.api_keys ++ k ∷ []) h in ground arith

  pub serve_keys-Keeps :
      (env : Routes.Env) (call : Routes.Call) (r : Routes.KeyRoute)
      → Keeps P (Routes.serve_keys env call r)
  unfolding Routes.serve_keys list_api_keys create_api_key delete_api_key rotate_api_key deactivate
      set_secret
  serve_keys-Keeps env call Routes.api_keys = search keeps_rules depth 30
  serve_keys-Keeps env call (Routes.new_key body) =
      search (keeps_rules, Keeps-exec_or, insert_key-Allows) depth 30
  serve_keys-Keeps env call (Routes.drop_key id) = search (keeps_rules, Keeps-exec) depth 30
  serve_keys-Keeps env call (Routes.rotate_key id) = search (keeps_rules, Keeps-exec_or) depth 30

module _ {P : Db → Type 0}
    (keep : (d : Db) (rows : List PromptTemplate)
      → P d
      → P (record d { prompt_templates = rows })) where
  insert_template-Allows : (t : PromptTemplate) (d : Db) → P d → Allows P (insert_template t d)
  unfolding insert_template
  insert_template-Allows t d h = let k = keep d (d.prompt_templates ++ t ∷ []) h in ground arith

  update_found-Allows :
      (req : openserve.ControlApi.Templates.UpdateTemplate) (now : ℕ) (id : Bytes) (d : Db)
      (t : Option PromptTemplate)
      → P d
      → Allows P (update_found req now id d t)
  unfolding update_found
  update_found-Allows req now id d none h = h
  update_found-Allows req now id d (some t) h =
      let k =
        keep d
          (update_where (openserve.ControlApi.Templates.is_template id)
            (openserve.ControlApi.Templates.apply_update req now) d.prompt_templates)
          h in
      ground arith

  update_template-Allows :
      (req : openserve.ControlApi.Templates.UpdateTemplate) (now : ℕ) (id : Bytes) (d : Db)
      → P d
      → Allows P (update_template req now id d)
  unfolding update_template
  update_template-Allows req now id d h = update_found-Allows req now id d _ h

  pub serve_templates-Keeps :
      (env : Routes.Env) (call : Routes.Call) (r : Routes.TemplateRoute)
      → Keeps P (Routes.serve_templates env call r)
  unfolding Routes.serve_templates list_prompt_templates create_prompt_template
      update_prompt_template delete_prompt_template delete_template
  serve_templates-Keeps env call Routes.templates = search keeps_rules depth 30
  serve_templates-Keeps env call (Routes.new_template body) =
      search (keeps_rules, Keeps-exec_or, insert_template-Allows) depth 30
  serve_templates-Keeps env call (Routes.change_template id body) =
      search (keeps_rules, Keeps-exec_or, update_template-Allows) depth 30
  serve_templates-Keeps env call (Routes.drop_template id) =
      search (keeps_rules, Keeps-exec_or) depth 30

module _ {P : Db → Type 0}
    (keep : (d : Db) (rows : List Conversation) (msgs : List ConversationMessage)
      → P d
      → P (record d { conversations = rows; conversation_messages = msgs })) where
  insert_conversation-Allows :
      (c : Conversation) (d : Db) → P d → Allows P (insert_conversation c d)
  unfolding insert_conversation
  insert_conversation-Allows c d h =
      let k = keep d (d.conversations ++ c ∷ []) d.conversation_messages h in ground arith

  insert_message-Allows : (m : ConversationMessage) (d : Db) → P d → Allows P (insert_message m d)
  unfolding insert_message
  insert_message-Allows m d h =
      let k = keep d d.conversations (d.conversation_messages ++ m ∷ []) h in ground arith

  pub serve_conversations-Keeps :
      (env : Routes.Env) (call : Routes.Call) (r : Routes.ConversationRoute)
      → Keeps P (Routes.serve_conversations env call r)
  unfolding Routes.serve_conversations list_conversations create_conversation get_conversation
      append_message delete_conversation delete_own touch
  serve_conversations-Keeps env call (Routes.conversations id) = search keeps_rules depth 30
  serve_conversations-Keeps env call (Routes.new_conversation body) =
      search (keeps_rules, Keeps-exec_or, insert_conversation-Allows) depth 30
  serve_conversations-Keeps env call (Routes.conversation id) = search keeps_rules depth 30
  serve_conversations-Keeps env call (Routes.append id body) =
      search (keeps_rules, Keeps-exec, Keeps-exec_or, insert_message-Allows) depth 30
  serve_conversations-Keeps env call (Routes.drop_conversation id) =
      search (keeps_rules, Keeps-exec_or) depth 30

module _ {P : Db → Type 0}
    (keep : (d : Db) (rows : List CachedDeployment)
      → P d
      → P (record d { deployment_cache = rows })) where
  insert_deployment-Allows :
      (c : CachedDeployment) (d : Db) → P d → Allows P (insert_deployment c d)
  unfolding insert_deployment
  insert_deployment-Allows c d h = let k = keep d (d.deployment_cache ++ c ∷ []) h in ground arith

  unless_missing-Keeps :
      (id : Bytes) (row : Found CachedDeployment) → Keeps P (unless_missing id row)
  unfolding unless_missing
  unless_missing-Keeps id (found c) = Keeps-give _
  unless_missing-Keeps id no_rows = Keeps-stop _
  unless_missing-Keeps id query_failed = Keeps-give _

  pub serve_deployments-Keeps :
      (env : Routes.Env) (call : Routes.Call) (r : Routes.DeploymentRoute)
      → Keeps P (Routes.serve_deployments env call r)
  unfolding Routes.serve_deployments list_deployments create_deployment get_deployment
      delete_deployment resume_deployment delete_deployment_rows set_pending
  serve_deployments-Keeps env call Routes.deployments = search keeps_rules depth 30
  serve_deployments-Keeps env call (Routes.new_deployment body) =
      search (keeps_rules, Keeps-exec, insert_deployment-Allows) depth 30
  serve_deployments-Keeps env call (Routes.deployment id) =
      search (keeps_rules, unless_missing-Keeps) depth 30
  serve_deployments-Keeps env call (Routes.drop_deployment id) =
      search (keeps_rules, Keeps-exec) depth 30
  serve_deployments-Keeps env call (Routes.resume id) = search (keeps_rules, Keeps-exec) depth 30

module _ {P : Db → Type 0}
    (keep : (d : Db) (rows : List KnowledgeDocument) (chunks : List KnowledgeChunk)
      → P d
      → P (record d { knowledge_documents = rows; knowledge_chunks = chunks })) where
  insert_document-Allows : (x : KnowledgeDocument) (d : Db) → P d → Allows P (insert_document x d)
  unfolding insert_document
  insert_document-Allows x d h =
      let k = keep d (d.knowledge_documents ++ x ∷ []) d.knowledge_chunks h in ground arith

  start_job-Keeps : (job : openserve.ControlApi.Database.Job) → Keeps P (start_job job)
  unfolding start_job
  start_job-Keeps job = record { at = λ s h. h }

  pub serve_documents-Keeps :
      (env : Routes.Env) (call : Routes.Call) (r : Routes.DocumentRoute)
      → Keeps P (Routes.serve_documents env call r)
  unfolding Routes.serve_documents list_documents upload_document delete_document
      delete_document_row
  serve_documents-Keeps env call Routes.documents = search keeps_rules depth 30
  serve_documents-Keeps env call (Routes.upload form) =
      search (keeps_rules, Keeps-exec_or, insert_document-Allows, start_job-Keeps) depth 40
  serve_documents-Keeps env call (Routes.drop_document id) =
      search (keeps_rules, Keeps-exec_or) depth 30

module _ {A : Type 0} {P : Db → Type 0} where
  Keeps-query_all : (f : Db → List A) → Keeps P (query_all f)
  unfolding query_all
  Keeps-query_all f = record { at = λ s h. h }

module _ {P : Db → Type 0} where
  pub serve_lookups-Keeps :
      (env : Routes.Env) (call : Routes.Call) (r : Routes.LookupRoute)
      → Keeps P (Routes.serve_lookups env call r)
  unfolding Routes.serve_lookups list_catalog get_audit_log search_web retrieve_context retrieve
  serve_lookups-Keeps env call Routes.catalog = search keeps_rules depth 30
  serve_lookups-Keeps env call (Routes.audit limit before) = search keeps_rules depth 30
  serve_lookups-Keeps env call (Routes.search_for body) = search keeps_rules depth 30
  serve_lookups-Keeps env call (Routes.retrieve_for body) =
      search (keeps_rules, Keeps-query_all) depth 40
