-- ===== src/ControlApi/Conversations.antt =====
-- Conversations and their messages: the handlers of apps/control-api/internal/handler/handler.go.
pub mod Privacy
use openserve.Prelude.{
  ℕ, Bytes, codes, bytes_eq, map, select, take, length, not, ◌==◌, if◌then◌else◌, Bool, true, false,
  ◌&&◌, ◌||◌, List, [], ◌∷◌, ◌++◌, Option, none, some,
}
use openserve.ControlApi.Tables.{
  Db, Conversation, ConversationMessage, Fields, text, number, find, any, update_where,
  delete_where, order_desc, order_asc, member_org, has_org, has_member,
}
use openserve.ControlApi.Database.{
  Action, Response, respond, array, object_with, http_error, write_json, json_status, Change,
  changed, unique_violation, violation, give, fetch, fetch_or, query_rows, exec, must, some_or,
  check, signed_in, ◌>>=◌, ◌>>◌,
}

abbrev conversation_fields : Conversation → Fields
conversation_fields c =
    (codes "id", text c.id)
    ∷ (codes "deploymentId", text c.deployment_id)
    ∷ (codes "title", text c.title)
    ∷ (codes "createdAt", number c.created_at)
    ∷ (codes "updatedAt", number c.updated_at)
    ∷ []

abbrev pub is_conversation : Bytes → Conversation → Bool
is_conversation id c = bytes_eq c.id id

-- `WHERE id = $1 AND member_id = $2`
abbrev pub is_own : Bytes → Bytes → Conversation → Bool
is_own id member_id c = is_conversation id c && bytes_eq c.member_id member_id

unfoldable pub own_conversation : Bytes → Bytes → Db → Option Conversation
unfolding find
own_conversation id member_id d = find (is_own id member_id) d.conversations

-- At most the 50 that were changed last.
conversations_of : Bytes → Bytes → Db → List Conversation
unfolding order_desc
conversations_of member_id deployment_id d = take 50 (
    order_desc (λ (c : Conversation). c.updated_at)
      (select
        (λ (c : Conversation).
          bytes_eq c.member_id member_id && bytes_eq c.deployment_id deployment_id)
        d.conversations))

unfoldable pub list_conversations : Option Bytes → Bytes → Action Response
unfolding conversations_of
list_conversations caller deployment_id = do
  subject ← signed_in caller
  check (not (bytes_eq deployment_id []))
      (http_error 400 (codes "deploymentId query parameter required"))
  rows ← query_rows (conversations_of subject deployment_id)
  found ← some_or (http_error 500 (codes "failed to list conversations")) rows
  give (respond 200 (array (map conversation_fields found)))

pub record CreateConversation : Type 0 where
  pub deployment_id : Bytes
  pub title : Bytes

abbrev title_or_default : Bytes → Bytes
title_or_default [] = codes "New conversation"
title_or_default (c ∷ title) = c ∷ title

unfoldable pub insert_conversation : Conversation → Db → Change Conversation
unfolding any has_org has_member
insert_conversation c d = elim (any (is_conversation c.id) d.conversations) [
  | true ↦ unique_violation
  | false ↦ elim (has_org c.org_id d && has_member c.member_id d) [
    | true ↦ changed c (record d { conversations = d.conversations ++ c ∷ [] })
    | false ↦ violation
  ]
]

unfoldable pub create_conversation :
    Option Bytes → Option CreateConversation → Bytes → ℕ → Action Response
unfolding insert_conversation member_org
create_conversation caller body new_id now = do
  subject ← signed_in caller
  req ← some_or (http_error 400 (codes "invalid request body")) body
  check (not (bytes_eq req.deployment_id [])) (http_error 400 (codes "deploymentId required"))
  let title = title_or_default req.title
  org_id ← fetch_or (http_error 500 (codes "failed to get org")) (member_org subject)
  c ← must (http_error 500 (codes "failed to create conversation")) (
      insert_conversation (record {
        id = new_id;
        org_id = org_id;
        member_id = subject;
        deployment_id = req.deployment_id;
        title = title;
        created_at = now;
        updated_at = now;
      }))
  give (write_json 200 (conversation_fields c))

abbrev message_fields : ConversationMessage → Fields
message_fields m =
    (codes "id", text m.id)
    ∷ (codes "conversationId", text m.conversation_id)
    ∷ (codes "role", text m.role)
    ∷ (codes "content", text m.content)
    ∷ (codes "createdAt", number m.created_at)
    ∷ []

messages_of : Bytes → Db → List ConversationMessage
unfolding order_asc
messages_of conversation_id d =
    order_asc (λ (m : ConversationMessage). m.created_at)
      (select (λ (m : ConversationMessage). bytes_eq m.conversation_id conversation_id)
        d.conversation_messages)

abbrev pub conversation_missing : Response
conversation_missing = http_error 404 (codes "conversation not found")

unfoldable pub get_conversation : Option Bytes → Bytes → Action Response
unfolding own_conversation messages_of
get_conversation caller conversation_id = do
  subject ← signed_in caller
  c ←
      fetch conversation_missing (http_error 500 (codes "failed to get conversation"))
        (own_conversation conversation_id subject)
  rows ← query_rows (messages_of conversation_id)
  messages ← some_or (http_error 500 (codes "failed to get messages")) rows
  give (
      respond 200
        (object_with (conversation_fields c) (codes "messages") (map message_fields messages)))

pub record AppendRequest : Type 0 where
  pub role : Bytes
  pub content : Bytes

-- `CHECK (role IN ('user', 'assistant', 'system'))`
unfoldable pub is_message_role : Bytes → Bool
is_message_role role =
    bytes_eq role (codes "user")
    || bytes_eq role (codes "assistant")
    || bytes_eq role (codes "system")

unfoldable pub insert_message : ConversationMessage → Db → Change (Bytes × ℕ)
unfolding any is_message_role
insert_message m d =
    elim (is_message_role m.role && any (is_conversation m.conversation_id) d.conversations) [
      | false ↦ violation
      | true ↦
          elim (any (λ (n : ConversationMessage). bytes_eq n.id m.id) d.conversation_messages) [
            | true ↦ unique_violation
            | false ↦
                changed (m.id, m.created_at)
                  (record d { conversation_messages = d.conversation_messages ++ m ∷ [] })
          ]
    ]

unfoldable pub touch : Bytes → ℕ → Db → Change (Unit {0})
unfolding update_where
touch id now d = changed tt (record d {
  conversations =
      update_where (is_conversation id) (λ c. record c { updated_at = now }) d.conversations;
})

unfoldable pub append_message :
    Option Bytes → Bytes → Option AppendRequest → Bytes → ℕ → Action Response
unfolding own_conversation insert_message touch
append_message caller conversation_id body new_id now = do
  subject ← signed_in caller
  req ← some_or (http_error 400 (codes "invalid request body")) body
  check (not (bytes_eq req.role [] || bytes_eq req.content []))
      (http_error 400 (codes "role and content required"))
  fetch conversation_missing (http_error 500 (codes "failed to verify conversation"))
      (own_conversation conversation_id subject)
  (message_id, created_at) ← must (http_error 500 (codes "failed to append message")) (
      insert_message (record {
        id = new_id;
        conversation_id = conversation_id;
        role = req.role;
        content = req.content;
        created_at = now;
      }))
  exec (touch conversation_id now)
  give (
      write_json 200 (
        message_fields (record {
          id = message_id;
          conversation_id = conversation_id;
          role = req.role;
          content = req.content;
          created_at = created_at;
        })))

-- The messages of a deleted conversation go with it.
unfoldable pub delete_own : Bytes → Bytes → Db → Change ℕ
unfolding delete_where any
delete_own id member_id d =
    changed (length (select (is_own id member_id) d.conversations)) (record d {
      conversations = delete_where (is_own id member_id) d.conversations;
      conversation_messages =
          delete_where
            (λ (m : ConversationMessage).
              any (is_own m.conversation_id member_id)
                (select (is_own id member_id) d.conversations))
            d.conversation_messages;
    })

unfoldable pub delete_conversation : Option Bytes → Bytes → Action Response
unfolding delete_own
delete_conversation caller conversation_id = do
  subject ← signed_in caller
  n ←
      must (http_error 500 (codes "failed to delete conversation"))
        (delete_own conversation_id subject)
  check (not (n == 0)) conversation_missing
  give (json_status 200 (codes "deleted"))
