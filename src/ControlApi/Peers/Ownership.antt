-- ===== src/ControlApi/Peers/Ownership.antt =====
-- Who can change a peer through apps/control-api/internal/handler/peers.go and the other handlers.
use openserve.Prelude.{
  Bytes, bytes_eq, bytes_eq_iff, [], ◌∷◌, Option, some, arith, true, false, ◌≡◌, ◌≢◌, refl, ap, sym,
  ◌∙◌,
}
use openserve.Gateway.Auth.Hash.{Argon2}
use openserve.ControlApi.Tables.{Db, Peer, PeerInvite, is_peer, peer_of}
use openserve.ControlApi.Database.{State, exec, exec_or, some_or}
use openserve.ControlApi.Database.Keeps.{
  Keeps, Allows, Ensures-bind, Ensures-fetch, Ensures-check, Ensures-exec, Ensures-exec_or,
  Keeps-exec, Keeps-exec_or, keeps_rules, Keeps-some_or, Ensures-signed_in,
}
use openserve.ControlApi.Peers.{
  insert_peer, delete_peer_row, set_token, insert_invite, delete_invite, list_peers, create_peer,
  delete_peer, rotate_peer_token, list_peer_invites, create_peer_invite, delete_peer_invite,
}
use openserve.ControlApi.Frames.{
  serve_webhooks-Keeps, serve_org-Keeps, serve_keys-Keeps, serve_templates-Keeps,
  serve_conversations-Keeps, serve_deployments-Keeps, serve_documents-Keeps, serve_lookups-Keeps,
}
use openserve.ControlApi.Members.Roles.{IsNoAdmin}
use openserve.ControlApi.Members.Frames.{serve_members-Keeps}
use openserve.ControlApi.Tables.Rows.{find-append, find-delete_where, find-update_where_other}
use openserve.ControlApi.Routes

-- The row that a handler reads is not the other's, if the caller passes the test for its owner.
not_own :
    (x id : Bytes) (p q : Peer) (subject : Bytes) (caller : Option Bytes) (d : Db)
    → caller ≢ some p.owner_id
    → caller ≡ some subject
    → bytes_eq q.owner_id subject ≡ true
    → peer_of x d ≡ some p
    → peer_of id d ≡ some q
    → id ≢ x
not_own x id p q subject caller d other is_caller own at read same =
    let there : peer_of x d ≡ some q = ap (λ i. peer_of i d) (sym same) ∙ read in
    ground (arith, bytes_eq_iff q.owner_id subject)

module _ (x : Bytes) (p : Peer) where
  abbrev pub Holds : Db → Type 0
  Holds d = peer_of x d ≡ some p

  insert_peer-Holds : (new : Peer) (d : Db) → Holds d → Allows Holds (insert_peer new d)
  unfolding insert_peer peer_of
  insert_peer-Holds new d h = let k = find-append (is_peer x) d.peers (new ∷ []) p h in ground arith

  insert_invite-Holds : (i : PeerInvite) (d : Db) → Holds d → Allows Holds (insert_invite i d)
  unfolding insert_invite peer_of
  insert_invite-Holds i d h = ground arith

  module _ (caller : Option Bytes) (other : caller ≢ some p.owner_id) where
    delete_peer-Holds : (id : Bytes) → Keeps Holds (delete_peer caller id)
    unfolding delete_peer
    delete_peer-Holds id =
        Ensures-signed_in caller _ (λ d h. h)
          λ subject is_caller.
            Ensures-fetch _ _ (peer_of id) _ (λ d h. h)
              λ q.
                Ensures-check _ _ _ (λ d (h, e). h)
                  λ own.
                    Ensures-bind (exec (delete_peer_row id)) _
                      (Ensures-exec (delete_peer_row id) (λ d (h, e). h)
                        (λ d (h, e).
                          let apart = not_own x id p q subject caller d other is_caller own h e in
                          unfold delete_peer_row in
                          unfold peer_of in
                          find-delete_where (λ (y : Peer). y.id) id x d.peers apart ∙ h))
                      (λ d h. h) (λ _. search keeps_rules depth 20)

    rotate_peer_token-Holds :
        (argon2 : Argon2) (id : Bytes) (random salt : Option Bytes)
        → Keeps Holds (rotate_peer_token argon2 caller id random salt)
    unfolding rotate_peer_token
    rotate_peer_token-Holds argon2 id random salt =
        Ensures-signed_in caller _ (λ d h. h)
          λ subject is_caller.
            Ensures-fetch _ _ (peer_of id) _ (λ d h. h)
              λ q.
                Ensures-check _ _ _ (λ d (h, e). h)
                  λ own.
                    Ensures-bind (some_or _ _) _ (Keeps-some_or _ _) (λ d (h, e). h)
                      λ (raw, hash).
                        Ensures-bind (exec_or _ _ (set_token id hash)) _
                          (Ensures-exec_or _ _ (set_token id hash) (λ d (h, e). h)
                            (λ d (h, e).
                              let apart =
                                not_own x id p q subject caller d other is_caller own h e in
                              unfold set_token in
                              unfold peer_of in
                              find-update_where_other (λ (y : Peer). y.id) id x
                                (λ y. record y { token_hash = hash; online = false }) d.peers apart
                                (λ y. refl)
                              ∙ h))
                          (λ d h. h) (λ _. search keeps_rules depth 20)

    serve_peers-Holds :
        (env : Routes.Env) (call : Routes.Call) (r : Routes.PeerRoute)
        → call.caller ≡ caller
        → Keeps Holds (Routes.serve_peers env call r)
    unfolding Routes.serve_peers list_peers create_peer list_peer_invites create_peer_invite
        delete_peer_invite delete_invite
    serve_peers-Holds env call Routes.peers e = search keeps_rules depth 30
    serve_peers-Holds env call (Routes.new_peer body) e =
        search (keeps_rules, Keeps-exec_or, insert_peer-Holds) depth 40
    serve_peers-Holds env call (Routes.drop_peer id) e = rw e (delete_peer-Holds id)
    serve_peers-Holds env call (Routes.rotate_token id) e =
        rw e (rotate_peer_token-Holds env.argon2 id call.random call.random_salt)
    serve_peers-Holds env call (Routes.peer_invites id) e = search keeps_rules depth 30
    serve_peers-Holds env call (Routes.invite id body) e =
        search (keeps_rules, Keeps-exec_or, insert_invite-Holds) depth 40
    serve_peers-Holds env call (Routes.drop_invite id key_id) e =
        search (keeps_rules, Keeps-exec) depth 30

-- No call of a route behind RequireJWT, whatever its statements meet, changes the row of a peer or
-- deletes it if its caller is neither the peer's owner nor in the role of an admin.
pub serve_route-peer :
    (env : Routes.Env) (call : Routes.Call) (r : Routes.Route) (s : State) (x : Bytes) (p : Peer)
    → call.caller ≢ some p.owner_id
    → IsNoAdmin call.caller s.db
    → peer_of x s.db ≡ some p
    → peer_of x (Routes.serve_route env call r s).1.db ≡ some p
unfolding Routes.serve_route peer_of
serve_route-peer env call (Routes.of_peers r) s x p other _ h =
    (serve_peers-Holds x p call.caller other env call r refl).at s h
serve_route-peer env call (Routes.of_keys r) s x p other _ h =
    (serve_keys-Keeps {P = Holds x p} (λ d rows k. k) env call r).at s h
serve_route-peer env call (Routes.of_members r) s x p other _ h =
    (serve_members-Keeps {P = Holds x p} (λ d ms cs msgs ts xs k. k) env call r).at s h
serve_route-peer env call (Routes.of_org r) s x p other _ h =
    (serve_org-Keeps {P = Holds x p} (λ d rows k. k) env call r).at s h
serve_route-peer env call (Routes.of_webhooks r) s x p other _ h =
    (serve_webhooks-Keeps {P = Holds x p} (λ d rows k. k) env call r).at s h
serve_route-peer env call (Routes.of_templates r) s x p other _ h =
    (serve_templates-Keeps {P = Holds x p} (λ d rows k. k) env call r).at s h
serve_route-peer env call (Routes.of_conversations r) s x p other _ h =
    (serve_conversations-Keeps {P = Holds x p} (λ d rows msgs k. k) env call r).at s h
serve_route-peer env call (Routes.of_deployments r) s x p other _ h =
    (serve_deployments-Keeps {P = Holds x p} (λ d rows k. k) env call r).at s h
serve_route-peer env call (Routes.of_documents r) s x p other _ h =
    (serve_documents-Keeps {P = Holds x p} (λ d rows chunks k. k) env call r).at s h
serve_route-peer env call (Routes.of_lookups r) s x p other _ h =
    (serve_lookups-Keeps {P = Holds x p} env call r).at s h
