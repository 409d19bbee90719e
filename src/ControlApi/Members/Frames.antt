-- ===== src/ControlApi/Members/Frames.antt =====
-- Which tables the member handlers of apps/control-api/internal/handler/handler.go may write.
use openserve.Prelude.{bytes_eq, Bytes, List, [], ◌∷◌, ◌++◌, Option, none, some, arith, map}
use openserve.ControlApi.Tables.{
  Db, Member, Conversation, ConversationMessage, PromptTemplate, KnowledgeDocument, delete_where,
  is_member,
}
use openserve.ControlApi.Database.Keeps.{Keeps, Allows, Keeps-exec, Keeps-exec_or, keeps_rules}
use openserve.ControlApi.Members.{
  upsert_member, upsert_found, delete_member, require_role, list_members, invite_member,
  remove_member, is_conversation_of, forget,
}
use openserve.ControlApi.Routes

module _ {P : Db → Type 0}
    (keep : (d : Db) (ms : List Member) (cs : List Conversation) (msgs : List ConversationMessage)
        (ts : List PromptTemplate) (xs : List KnowledgeDocument)
      → P d
      → P (record d {
        members = ms;
        conversations = cs;
        conversation_messages = msgs;
        prompt_templates = ts;
        knowledge_documents = xs;
      })) where
  keep_members : (d : Db) (ms : List Member) → P d → P (record d { members = ms })
  keep_members d ms h =
      keep d ms d.conversations d.conversation_messages d.prompt_templates d.knowledge_documents h

  upsert_found-Allows :
      (m : Member) (f : Member → Member) (d : Db) (old : Option Member)
      → P d
      → Allows P (upsert_found m f d old)
  unfolding upsert_found
  upsert_found-Allows m f d (some old) h = keep_members d _ h
  upsert_found-Allows m f d none h = let k = keep_members d (d.members ++ m ∷ []) h in ground arith

  upsert_member-Allows :
      (m : Member) (f : Member → Member) (d : Db) → P d → Allows P (upsert_member m f d)
  unfolding upsert_member
  upsert_member-Allows m f d h = upsert_found-Allows m f d _ h

  delete_member-Allows : (id : Bytes) (d : Db) → P d → Allows P (delete_member id d)
  unfolding delete_member
  delete_member-Allows id d h =
      let k =
        keep d (delete_where (is_member id) d.members)
          (delete_where (λ (c : Conversation). bytes_eq c.member_id id) d.conversations)
          (delete_where (is_conversation_of id d.conversations) d.conversation_messages)
          (map (λ (t : PromptTemplate). record t { created_by = forget id t.created_by })
            d.prompt_templates)
          (map (λ (t : KnowledgeDocument). record t { created_by = forget id t.created_by })
            d.knowledge_documents)
          h in
      ground arith

  require_role-Keeps :
      (required_role : Bytes) (caller : Option Bytes) → Keeps P (require_role required_role caller)
  unfolding require_role
  require_role-Keeps required_role caller = search keeps_rules depth 30

  serve_member-Keeps :
      (env : Routes.Env) (call : Routes.Call) (r : Routes.MemberRoute)
      → Keeps P (Routes.serve_member env call r)
  unfolding Routes.serve_member list_members invite_member remove_member
  serve_member-Keeps env call Routes.members = search keeps_rules depth 30
  serve_member-Keeps env call (Routes.invite_one body) =
      search (keeps_rules, Keeps-exec_or, upsert_member-Allows) depth 40
  serve_member-Keeps env call (Routes.remove id) =
      search (keeps_rules, Keeps-exec, delete_member-Allows) depth 30

  pub serve_members-Keeps :
      (env : Routes.Env) (call : Routes.Call) (r : Routes.MemberRoute)
      → Keeps P (Routes.serve_members env call r)
  unfolding Routes.serve_members
  serve_members-Keeps env call r = search (keeps_rules, require_role-Keeps, serve_member-Keeps)
