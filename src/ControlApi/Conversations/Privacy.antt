-- ===== src/ControlApi/Conversations/Privacy.antt =====
-- Who can change a conversation through the handlers of
-- apps/control-api/internal/handler/handler.go.
use openserve.Prelude.{
  Bytes, bytes_eq, bytes_eq_iff, List, [], ◌∷◌, ◌++◌, ℕ, Option, some, arith, Bool, true, false,
  ◌≡◌, ◌≢◌, refl, Bool-cases, inl, inr, ap, sym, ◌∙◌, select,
}
use openserve.ControlApi.Tables.{Db, Conversation, ConversationMessage, any}
use openserve.ControlApi.Tables.Rows.{find-holds}
use openserve.ControlApi.Tables.Sole.{
  select-append_other, any-select, find-sole, any-find, any-select_none, select-delete_where,
  select-delete_where_sole, select-update_where,
}
use openserve.ControlApi.Database.{State}
use openserve.ControlApi.Database.Keeps.{
  Keeps, Allows, Ensures-bind, Ensures-fetch, Ensures-fact, Ensures-signed_in, Keeps-exec,
  Keeps-exec_or, Keeps-some_or, Keeps-check, keeps_rules,
}
use openserve.ControlApi.Conversations.{
  is_conversation, is_own, own_conversation, insert_conversation, insert_message, touch, delete_own,
  list_conversations, create_conversation, get_conversation, append_message, delete_conversation,
}
use openserve.ControlApi.Frames.{
  serve_peers-Keeps, serve_webhooks-Keeps, serve_org-Keeps, serve_keys-Keeps, serve_templates-Keeps,
  serve_deployments-Keeps, serve_documents-Keeps, serve_lookups-Keeps,
}
use openserve.ControlApi.Routes

abbrev pub is_message_of : Bytes → ConversationMessage → Bool
is_message_of id m = bytes_eq m.conversation_id id

-- The conversation is the only one with its id and has these messages.
pub record HasThread (id : Bytes) (c : Conversation) (ms : List ConversationMessage) (d : Db)
    : Type 0 where
  pub sole : select (is_conversation id) d.conversations ≡ c ∷ []
  pub messages : select (is_message_of id) d.conversation_messages ≡ ms

module _ (x : Bytes) (c : Conversation) (ms : List ConversationMessage) where
  insert_conversation-HasThread :
      (new : Conversation) (d : Db)
      → HasThread x c ms d
      → Allows (HasThread x c ms) (insert_conversation new d)
  unfolding insert_conversation
  insert_conversation-HasThread new d h = elim (Bool-cases (bytes_eq new.id x)) [
    | inl taken ↦
        let same = (bytes_eq_iff new.id x).0 taken in
        elim (Bool-cases (any (is_conversation new.id) d.conversations)) [
          | inl there ↦ ground arith
          | inr free ↦
              let none_left = any-select_none (is_conversation new.id) d.conversations free in
              let sole : select (is_conversation new.id) d.conversations ≡ c ∷ [] =
                rw same h.sole in
              cc
        ]
    | inr other ↦
        let after = record d { conversations = d.conversations ++ new ∷ [] } in
        let kept : HasThread x c ms after = record {
          sole = select-append_other (is_conversation x) d.conversations new other ∙ h.sole;
          messages = h.messages;
        } in
        ground arith
  ]

  insert_message-HasThread :
      (m : ConversationMessage) (d : Db)
      → m.conversation_id ≢ x
      → HasThread x c ms d
      → Allows (HasThread x c ms) (insert_message m d)
  unfolding insert_message
  insert_message-HasThread m d other h =
      let after = record d { conversation_messages = d.conversation_messages ++ m ∷ [] } in
      let apart : bytes_eq m.conversation_id x ≡ false =
        ground (arith, bytes_eq_iff m.conversation_id x) in
      let kept : HasThread x c ms after = record {
        sole = h.sole;
        messages =
            select-append_other (is_message_of x) d.conversation_messages m apart ∙ h.messages;
      } in
      ground arith

  touch-HasThread :
      (id : Bytes) (now : ℕ) (d : Db)
      → id ≢ x
      → HasThread x c ms d
      → Allows (HasThread x c ms) (touch id now d)
  unfolding touch
  touch-HasThread id now d other h = record {
    sole =
        select-update_where (λ (y : Conversation). y.id) id x (λ y. record y { updated_at = now })
          d.conversations other (λ y. refl)
        ∙ h.sole;
    messages = h.messages;
  }

  module _ (subject : Bytes) (other : c.member_id ≢ subject) where
    -- The conversation is not the subject's own.
    not_own : (id : Bytes) → is_own id subject c ≡ false
    not_own id = ground (arith, bytes_eq_iff c.member_id subject)

    not_found :
        (id : Bytes) (y : Conversation) (d : Db)
        → HasThread x c ms d
        → own_conversation id subject d ≡ some y
        → id ≢ x
    unfolding own_conversation
    not_found id y d h e same =
        let holds = find-holds (is_own id subject) d.conversations y e in
        let named : is_conversation x y ≡ true =
          ground (arith, bytes_eq_iff y.id id, bytes_eq_iff y.id x) in
        let here =
          find-sole (is_own id subject) (is_conversation x) d.conversations y c h.sole e named in
        let own : is_own id subject c ≡ true = ap (is_own id subject) (sym here) ∙ holds in
        ground (arith, not_own id)

    no_own :
        (id : Bytes) (d : Db)
        → HasThread x c ms d
        → any (is_own x subject) (select (is_own id subject) d.conversations) ≡ false
    no_own id d h =
        elim (Bool-cases (any (is_own x subject) (select (is_own id subject) d.conversations))) [
          | inl there ↦
              let (y, at, holds) =
                any-find (is_own x subject) d.conversations
                  (any-select (is_own x subject) (is_own id subject) d.conversations there) in
              let named : is_conversation x y ≡ true = ground arith in
              let here =
                find-sole (is_own x subject) (is_conversation x) d.conversations y c h.sole at
                  named in
              let own : is_own x subject c ≡ true = ap (is_own x subject) (sym here) ∙ holds in
              ground (arith, not_own x)
          | inr e ↦ e
        ]

    delete_own-HasThread :
        (id : Bytes) (d : Db)
        → HasThread x c ms d
        → Allows (HasThread x c ms) (delete_own id subject d)
    unfolding delete_own
    delete_own-HasThread id d h = record {
      sole =
          select-delete_where_sole (is_conversation x) (is_own id subject) d.conversations c h.sole
            (not_own id);
      messages =
          select-delete_where (is_message_of x) _ d.conversation_messages
            (λ m at. rw ((bytes_eq_iff m.conversation_id x).0 at) (no_own id d h))
          ∙ h.messages;
    }

  module _ (caller : Option Bytes) (other : caller ≢ some c.member_id) where
    apart : (subject : Bytes) → caller ≡ some subject → c.member_id ≢ subject
    apart subject e same = other (e ∙ ap some (sym same))

    append_message-HasThread :
        (id : Bytes) (body : Option openserve.ControlApi.Conversations.AppendRequest)
        (new_id : Bytes) (now : ℕ)
        → Keeps (HasThread x c ms) (append_message caller id body new_id now)
    unfolding append_message
    append_message-HasThread id body new_id now =
        Ensures-signed_in caller _ (λ d h. h)
          λ subject is_caller.
            Ensures-bind _ _ (Keeps-some_or _ body) (λ d h. h)
              λ req.
                Ensures-bind _ _ (Keeps-check _ _) (λ d h. h)
                  λ _.
                    Ensures-fetch _ _ (own_conversation id subject) _ (λ d h. h)
                      λ y.
                        Ensures-fact (id ≢ x) (HasThread x c ms) _
                          (λ d (h, e). (not_found subject (apart subject is_caller) id y d h e, h))
                          (λ away.
                            Ensures-bind _ _
                              (Keeps-exec_or _ _ _ (λ d h. insert_message-HasThread _ d away h))
                              (λ d h. h)
                              (λ (message_id, created_at).
                                Ensures-bind _ _
                                  (Keeps-exec _ (λ d h. touch-HasThread id now d away h)) (λ d h. h)
                                  (λ _. search keeps_rules)))

    delete_conversation-HasThread :
        (id : Bytes) → Keeps (HasThread x c ms) (delete_conversation caller id)
    unfolding delete_conversation
    delete_conversation-HasThread id =
        Ensures-signed_in caller _ (λ d h. h)
          λ subject is_caller.
            Ensures-bind _ _
              (Keeps-exec_or _ _ _
                (λ d h. delete_own-HasThread subject (apart subject is_caller) id d h))
              (λ d h. h) (λ n. search keeps_rules depth 20)

    serve_conversations-HasThread :
        (env : Routes.Env) (call : Routes.Call) (r : Routes.ConversationRoute)
        → call.caller ≡ caller
        → Keeps (HasThread x c ms) (Routes.serve_conversations env call r)
    unfolding Routes.serve_conversations list_conversations create_conversation get_conversation
    serve_conversations-HasThread env call (Routes.conversations id) e = search keeps_rules depth 30
    serve_conversations-HasThread env call (Routes.new_conversation body) e =
        search (keeps_rules, Keeps-exec_or, insert_conversation-HasThread) depth 30
    serve_conversations-HasThread env call (Routes.conversation id) e = search keeps_rules depth 30
    serve_conversations-HasThread env call (Routes.append id body) e =
        rw e (append_message-HasThread id body call.new_id call.now)
    serve_conversations-HasThread env call (Routes.drop_conversation id) e =
        rw e (delete_conversation-HasThread id)

  same_tables :
      (d d' : Db)
      → d'.conversations ≡ d.conversations
      → d'.conversation_messages ≡ d.conversation_messages
      → HasThread x c ms d
      → HasThread x c ms d'
  same_tables d d' cs msgs h = record {
    sole = ap (select (is_conversation x)) cs ∙ h.sole;
    messages = ap (select (is_message_of x)) msgs ∙ h.messages;
  }

-- No call of a route behind RequireJWT but those of the members, whatever its statements
-- meet, changes a conversation, adds a message to it or takes one from it, unless the caller is the
-- member whose conversation it is, as long as the id is the conversation's alone.
pub serve_route-HasThread :
    (env : Routes.Env) (call : Routes.Call) (r : Routes.Route) (s : State) (x : Bytes)
    (c : Conversation) (ms : List ConversationMessage)
    → call.caller ≢ some c.member_id
    → ((m : Routes.MemberRoute) → r ≢ Routes.of_members m)
    → HasThread x c ms s.db
    → HasThread x c ms (Routes.serve_route env call r s).1.db
unfolding Routes.serve_route
serve_route-HasThread env call (Routes.of_peers r) s x c ms other e h =
    (serve_peers-Keeps {P = HasThread x c ms} (λ d ps is k. same_tables x c ms d _ refl refl k) env
        call r).at
      s h
serve_route-HasThread env call (Routes.of_keys r) s x c ms other e h =
    (serve_keys-Keeps {P = HasThread x c ms} (λ d rows k. same_tables x c ms d _ refl refl k) env
        call r).at
      s h
serve_route-HasThread env call (Routes.of_members r) s x c ms other e h = absurd (e r refl)
serve_route-HasThread env call (Routes.of_org r) s x c ms other e h =
    (serve_org-Keeps {P = HasThread x c ms} (λ d rows k. same_tables x c ms d _ refl refl k) env
        call r).at
      s h
serve_route-HasThread env call (Routes.of_webhooks r) s x c ms other e h =
    (serve_webhooks-Keeps {P = HasThread x c ms} (λ d rows k. same_tables x c ms d _ refl refl k)
        env call r).at
      s h
serve_route-HasThread env call (Routes.of_templates r) s x c ms other e h =
    (serve_templates-Keeps {P = HasThread x c ms} (λ d rows k. same_tables x c ms d _ refl refl k)
        env call r).at
      s h
serve_route-HasThread env call (Routes.of_conversations r) s x c ms other e h =
    (serve_conversations-HasThread x c ms call.caller other env call r refl).at s h
serve_route-HasThread env call (Routes.of_deployments r) s x c ms other e h =
    (serve_deployments-Keeps {P = HasThread x c ms} (λ d rows k. same_tables x c ms d _ refl refl k)
        env call r).at
      s h
serve_route-HasThread env call (Routes.of_documents r) s x c ms other e h =
    (serve_documents-Keeps {P = HasThread x c ms}
        (λ d rows chunks k. same_tables x c ms d _ refl refl k) env call r).at
      s h
serve_route-HasThread env call (Routes.of_lookups r) s x c ms other e h =
    (serve_lookups-Keeps {P = HasThread x c ms} env call r).at s h
