-- ===== src/ControlApi/Peers/Invites.antt =====
-- Whom an invite of apps/control-api/internal/handler/peers.go lets in.
use openserve.Prelude.{Bytes, ℕ, Option, false, refl}
use openserve.ControlApi.Tables.{Db, peer_of, key_of}
use openserve.ControlApi.Database.{exec_or}
use openserve.ControlApi.Database.Keeps.{
  Keeps, Allows, Ensures-bind, Ensures-fetch, Ensures-check, Ensures-exec_or, Keeps-exec,
  Keeps-exec_or, keeps_rules, Keeps-some_or, Keeps-signed_in,
}
use openserve.ControlApi.Peers.{
  list_peers, create_peer, delete_peer, rotate_peer_token, list_peer_invites, create_peer_invite,
  delete_peer_invite,
}
use openserve.ControlApi.Keys.{
  deactivate, set_secret, list_api_keys, create_api_key, delete_api_key, rotate_api_key,
}
use openserve.ControlApi.Routes
use openserve.ControlApi.Peers.Within.{
  IsSound, insert_peer-IsSound, delete_peer_row-IsSound, set_token-IsSound, delete_invite-IsSound,
  insert_key-IsSound, update_key-IsSound, insert_invite-IsSound,
}

create_peer_invite-IsSound :
    (caller : Option Bytes) (peer_id : Bytes) (body : Option Bytes) (new_id : Bytes) (now : ℕ)
    → Keeps IsSound (create_peer_invite caller peer_id body new_id now)
unfolding create_peer_invite
create_peer_invite-IsSound caller peer_id body new_id now =
    Ensures-bind _ _ (Keeps-signed_in caller) (λ d h. h)
      λ subject.
        Ensures-bind _ _ (Keeps-some_or _ body) (λ d h. h)
          λ api_key_id.
            Ensures-fetch _ _ (peer_of peer_id) _ (λ d h. h)
              λ p.
                Ensures-check _ _ _ (λ d (h, e). h)
                  λ own.
                    Ensures-fetch _ _ (key_of api_key_id) _ (λ d (h, e). h)
                      λ k.
                        Ensures-check _ _ _ (λ d ((h, e), f). h)
                          λ same.
                            Ensures-bind (exec_or _ _ _) _
                              (Ensures-exec_or _ _ _ (λ d ((h, e), f). h)
                                (λ d ((h, e), f). insert_invite-IsSound _ p k d same e f h))
                              (λ d h. h) (λ _. search keeps_rules depth 20)

pub serve_peers-IsSound :
    (env : Routes.Env) (call : Routes.Call) (r : Routes.PeerRoute)
    → Keeps IsSound (Routes.serve_peers env call r)
unfolding Routes.serve_peers list_peers create_peer list_peer_invites delete_peer_invite delete_peer
    rotate_peer_token
serve_peers-IsSound env call Routes.peers = search keeps_rules depth 30
serve_peers-IsSound env call (Routes.new_peer body) =
    search (keeps_rules, Keeps-exec_or, insert_peer-IsSound) depth 40
serve_peers-IsSound env call (Routes.drop_peer id) =
    search (keeps_rules, Keeps-exec, delete_peer_row-IsSound) depth 40
serve_peers-IsSound env call (Routes.rotate_token id) =
    search (keeps_rules, Keeps-exec_or, set_token-IsSound) depth 40
serve_peers-IsSound env call (Routes.peer_invites id) = search keeps_rules depth 30
serve_peers-IsSound env call (Routes.invite id body) =
    create_peer_invite-IsSound call.caller id body call.new_id call.now
serve_peers-IsSound env call (Routes.drop_invite id key_id) =
    search (keeps_rules, Keeps-exec, delete_invite-IsSound) depth 30

deactivate-IsSound : (id : Bytes) (d : Db) → IsSound d → Allows IsSound (deactivate id d)
unfolding deactivate
deactivate-IsSound id d h =
    update_key-IsSound id (λ k. record k { active = false }) d (λ k. refl) (λ k. refl) h

set_secret-IsSound :
    (id prefix hash : Bytes) (d : Db) → IsSound d → Allows IsSound (set_secret id prefix hash d)
unfolding set_secret
set_secret-IsSound id prefix hash d h =
    update_key-IsSound id (λ k. record k { key_prefix = prefix; key_hash = hash }) d (λ k. refl)
      (λ k. refl) h

pub serve_keys-IsSound :
    (env : Routes.Env) (call : Routes.Call) (r : Routes.KeyRoute)
    → Keeps IsSound (Routes.serve_keys env call r)
unfolding Routes.serve_keys list_api_keys create_api_key delete_api_key rotate_api_key
serve_keys-IsSound env call Routes.api_keys = search keeps_rules depth 30
serve_keys-IsSound env call (Routes.new_key body) =
    search (keeps_rules, Keeps-exec_or, insert_key-IsSound) depth 40
serve_keys-IsSound env call (Routes.drop_key id) =
    search (keeps_rules, Keeps-exec, deactivate-IsSound) depth 40
serve_keys-IsSound env call (Routes.rotate_key id) =
    search (keeps_rules, Keeps-exec_or, set_secret-IsSound) depth 40
