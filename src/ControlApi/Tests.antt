-- ===== src/ControlApi/Tests.antt =====
-- The theorems on the handlers of apps/control-api/internal/handler at a small database.
use openserve.Prelude.{
  ℕ, Bytes, codes, bytes_eq, List, [], ◌∷◌, none, some, arith, ◌≡◌, ◌≢◌, ◌≤◌, ◌++◌, ◌∙◌, refl, ap,
  length, ◌⊎◌,
}
use openserve.Prelude.Words.{pos}
use openserve.Keys.{prefix}
use openserve.Keys.Sample.{sum_argon2}
use openserve.ControlApi.Tables.{peer_of, key_of, has_member, member_org, text, InferenceEvent}
use openserve.ControlApi.Database.{State, Job, serve, write_json, json_status}
use openserve.ControlApi.Chunk.{chunk}
use openserve.ControlApi.Documents.{process_document, vectors_of}
use openserve.ControlApi.Documents.Inserts.{IsUnstored, IsStored, rows_from}
use openserve.ControlApi.Documents.Storage.{process_document-AllOrNothing}
use openserve.ControlApi.Peers.Ownership.{serve_route-peer}
use openserve.ControlApi.Peers.Within.{IsSound}
use openserve.ControlApi.History.{start, then_step, served, new_state, Reach-IsSound, provisioned}
use openserve.ControlApi.Conversations.Privacy.{HasThread, serve_route-HasThread}
use openserve.ControlApi.Templates.Tenancy.{IsForeign, serve_route-template}
use openserve.ControlApi.Keys.{rotate_api_key}
use openserve.ControlApi.Keys.Rotation.{Alike, rotate_api_key-any_caller, new_raw_key, new_hash}
use openserve.ControlApi.Members.{member_role, remove_member, is_referenced}
use openserve.ControlApi.Members.Roles.{serve_route-members, remove_member-referenced}
use openserve.ControlApi.Usage.{add_up, no_totals, daily}
use openserve.ControlApi.Usage.Sums.{add_up-daily}
use openserve.ControlApi.Deployments.{deployment_name, slugify, random4hex}
use openserve.ControlApi.Deployments.Names.{deployment_name-IsName, IsName}
use openserve.ControlApi.Login.{provision}
use openserve.ControlApi.Routes
use openserve.ControlApi.Sample.{
  acme, ann, bob, box, key, talk, message, template, event, sample_db, sample, env, call_of,
  ann_claims,
}

bob_is_not_ann : some bob ≢ some ann
bob_is_not_ann e = ground arith

developer-IsNoAdmin :
    (subject : Bytes) → bob ≡ subject → member_role subject sample_db ≢ some (codes "admin")
unfolding member_role bytes_eq
developer-IsNoAdmin subject same e =
    let at : member_role bob sample_db ≡ some (codes "admin") =
      ap (λ i. member_role i sample_db) same ∙ e in
    ground arith

serve_route-peer_example :
    peer_of
      (codes "p1")
      (Routes.serve_route env
        (call_of bob)
        (Routes.of_peers (Routes.drop_peer (codes "p1")))
        sample).1.db
    ≡ some box
unfolding peer_of bytes_eq
serve_route-peer_example =
    serve_route-peer env (call_of bob) (Routes.of_peers (Routes.drop_peer (codes "p1"))) sample
      (codes "p1") box bob_is_not_ann (λ subject e. developer-IsNoAdmin subject (ground arith)) refl

abbrev call : Routes.Call
call = call_of (codes "n1")

-- Ann signs in, and gets a row; she makes an API key and a peer, and invites the key to the peer.
abbrev with_ann : State
with_ann = (provision ann_claims acme (codes "o1") (codes "n1") 7 (new_state [])).1

abbrev with_key : State
with_key =
    (Routes.serve_route env call (Routes.of_keys (Routes.new_key (some (codes "ci")))) with_ann).1

abbrev with_peer : State
with_peer =
    (Routes.serve_route env call (Routes.of_peers (Routes.new_peer (some (codes "box"))))
      with_key).1

abbrev with_invite : State
with_invite =
    (Routes.serve_route env call (Routes.of_peers (Routes.invite (codes "n1") (some (codes "n1"))))
      with_peer).1

Reach-IsSound_example : IsSound with_invite.db
Reach-IsSound_example = Reach-IsSound (
    then_step
      (then_step
        (then_step (then_step (start []) (provisioned ann_claims acme (codes "o1") (codes "n1") 7))
          (served env call (Routes.of_keys (Routes.new_key (some (codes "ci"))))))
        (served env call (Routes.of_peers (Routes.new_peer (some (codes "box"))))))
      (served env call (Routes.of_peers (Routes.invite (codes "n1") (some (codes "n1"))))))

of_conversations-of_members :
    (c : Routes.ConversationRoute) (m : Routes.MemberRoute)
    → Routes.of_conversations c ≢ Routes.of_members m
of_conversations-of_members c m e = ground arith

of_templates-of_members :
    (t : Routes.TemplateRoute) (m : Routes.MemberRoute)
    → Routes.of_templates t ≢ Routes.of_members m
of_templates-of_members t m e = ground arith

serve_route-HasThread_example :
    HasThread
      (codes "c1")
      talk
      (message ∷ [])
      (Routes.serve_route env
        (call_of bob)
        (Routes.of_conversations (Routes.drop_conversation (codes "c1")))
        sample).1.db
unfolding bytes_eq
serve_route-HasThread_example =
    serve_route-HasThread env (call_of bob)
      (Routes.of_conversations (Routes.drop_conversation (codes "c1"))) sample (codes "c1") talk
      (message ∷ []) bob_is_not_ann (λ m e. of_conversations-of_members _ m e)
      (record { sole = refl; messages = refl })

serve_route-template_example :
    IsForeign
      (codes "t1")
      template
      bob
      (codes "other")
      (Routes.serve_route env
        (call_of bob)
        (Routes.of_templates (Routes.drop_template (codes "t1")))
        sample).1.db
unfolding bytes_eq member_org
serve_route-template_example =
    serve_route-template env (call_of bob) (Routes.of_templates (Routes.drop_template (codes "t1")))
      sample (codes "t1") template bob (codes "other") refl (λ e. ground arith)
      (λ m e. of_templates-of_members _ m e) (record { sole = refl; belongs = refl })

rotate_api_key-any_caller_example :
    let (r, s') =
      serve
        (rotate_api_key sum_argon2 (some bob) (codes "k1") (some (1 ∷ 2 ∷ [])) (some (3 ∷ 4 ∷ [])))
        sample in
    (r
      ≡ write_json 200 (
          (codes "key", text (new_raw_key sum_argon2 bob (codes "k1") (1 ∷ 2 ∷ []) (3 ∷ 4 ∷ [])))
          ∷ []))
    × (key_of (codes "k1") s'.db
        ≡ some (record key {
          key_prefix = prefix (new_raw_key sum_argon2 bob (codes "k1") (1 ∷ 2 ∷ []) (3 ∷ 4 ∷ []));
          key_hash = new_hash sum_argon2 bob (codes "k1") (1 ∷ 2 ∷ []) (3 ∷ 4 ∷ []);
        }))
    × Alike
        (rotate_api_key sum_argon2 (some bob) (codes "k1") (some (5 ∷ [])) (some (6 ∷ [])) sample)
        (rotate_api_key sum_argon2 (some ann) (codes "k1") (some (5 ∷ [])) (some (6 ∷ [])) sample)
unfolding bytes_eq key_of
rotate_api_key-any_caller_example =
    rotate_api_key-any_caller sum_argon2 bob (codes "k1") (1 ∷ 2 ∷ []) (3 ∷ 4 ∷ []) sample sample
      key ann (some (5 ∷ [])) (some (6 ∷ [])) refl

serve_route-members_example :
    (Routes.serve_route env
      (call_of bob)
      (Routes.of_members (Routes.remove ann))
      sample).1.db.members
    ≡ sample_db.members
serve_route-members_example =
    serve_route-members env (call_of bob) (Routes.of_members (Routes.remove ann)) sample
      (λ subject e. developer-IsNoAdmin subject (ground arith))

remove_member-referenced_example :
    let (r, s') = serve (remove_member (some ann) ann) sample in
    (r ≡ json_status 200 (codes "removed")) × (s'.db ≡ sample_db)
unfolding member_role has_member is_referenced bytes_eq
remove_member-referenced_example = remove_member-referenced ann ann sample refl refl refl

-- An old event, one of another org, and two that count.
abbrev sample_events : List InferenceEvent
sample_events =
    event 2 86399
    ∷ record (event 9 900000) { org_id = codes "other" }
    ∷ event 3 900000
    ∷ event 4 900001
    ∷ []

add_up-daily_example :
    add_up no_totals (daily acme 3000000 sample_events)
    ≡ record { requests = 2; input = 7; output = 2 }
unfolding bytes_eq
add_up-daily_example = add_up-daily acme 3000000 sample_events

abbrev model_ref : Bytes
model_ref = codes "Org/Model--7B"

deployment_name-IsName_example :
    (deployment_name model_ref (some (10 ∷ 255 ∷ []))
      ≡ slugify model_ref ++ b'-' ∷ random4hex (some (10 ∷ 255 ∷ [])))
    × (length (slugify model_ref) ≤ 40)
    × (length (random4hex (some (10 ∷ 255 ∷ []))) ≡ 4)
    × IsName (deployment_name model_ref (some (10 ∷ 255 ∷ [])))
deployment_name-IsName_example =
    deployment_name-IsName model_ref (some (10 ∷ 255 ∷ [])) (refl, ground arith)

abbrev job : Job
job = record { document_id = codes "x1"; org_id = acme; text = codes "one" }

process_document-AllOrNothing_example :
    let chunks = chunk (codes "one") (pos 0) (pos 0) in
    let d' = (process_document none (codes "e") job sample).1.db in
    IsUnstored (codes "x1") sample_db d'
    ⊎ ((vectors : List (List ℕ)) × (vectors_of none chunks ≡ some vectors)
        × IsStored
            (codes "x1")
            (rows_from (codes "x1") acme vectors 0 chunks)
            (length chunks)
            sample_db
            d')
process_document-AllOrNothing_example = process_document-AllOrNothing none (codes "e") job sample
