-- ===== src/ControlApi/Peers.antt =====
-- Peers and their invites: apps/control-api/internal/handler/peers.go.
pub mod Within
pub mod Invites
pub mod Ownership
use openserve.Prelude.{
  ℕ, Bytes, codes, bytes_eq, map, select, Bool, true, false, ◌&&◌, List, [], ◌∷◌, ◌++◌, Option,
  none, some,
}
use openserve.Gateway.Auth.Hash.{Argon2}
use openserve.Keys.{generate}
use openserve.ControlApi.Tables.{
  Db, Member, Peer, PeerInvite, ApiKey, Fields, Value, text, flag, texts, number, any, update_where,
  delete_where, is_peer, is_key, optional_time, order_desc, member_of, member_org, peer_of, key_of,
  has_org, has_peer, has_key, find,
}
use openserve.ControlApi.Database.{
  Action, Response, array, nothing, respond, http_error, write_json, no_content, Change, changed,
  unique_violation, violation, give, stop, fetch, fetch_or, query_rows, exec, must, some_or, check,
  signed_in, write_audit_log, ◌>>=◌, ◌>>◌,
}

abbrev pub no_org : Response
no_org = http_error 500 (codes "failed to get org")

abbrev pub db_error : Response
db_error = http_error 500 (codes "db error")

abbrev pub forbidden : Response
forbidden = http_error 403 (codes "forbidden")

abbrev peer_fields : Peer → Fields
peer_fields p =
    (codes "id", text p.id)
    ∷ (codes "name", text p.name)
    ∷ (codes "ownerId", text p.owner_id)
    ∷ (codes "models", texts p.models)
    ∷ (codes "online", flag p.online)
    ∷ (codes "lastSeen", optional_time p.last_seen)
    ∷ (codes "createdAt", number p.created_at)
    ∷ []

peers_of : Bytes → Db → List Peer
unfolding order_desc
peers_of org_id d =
    order_desc (λ (p : Peer). p.created_at)
      (select (λ (p : Peer). bytes_eq p.org_id org_id) d.peers)

unfoldable pub list_peers : Option Bytes → Action Response
unfolding peers_of
list_peers caller = do
  subject ← signed_in caller
  org_id ← fetch_or no_org (member_org subject)
  rows ← query_rows (peers_of org_id)
  peers ← some_or db_error rows
  give (respond 200 (array (map peer_fields peers)))

-- The row of `INSERT INTO peers`, with the id and the time that the server gives.
abbrev new_peer : (id org_id name owner_id token_hash : Bytes) → ℕ → Peer
new_peer id org_id name owner_id token_hash now = record {
  id = id;
  org_id = org_id;
  name = name;
  owner_id = owner_id;
  token_hash = token_hash;
  models = [];
  online = false;
  last_seen = none;
  created_at = now;
}

unfoldable pub insert_peer : Peer → Db → Change Bytes
unfolding has_peer has_org
insert_peer p d = elim (has_peer p.id d) [
  | true ↦ unique_violation
  | false ↦ elim (has_org p.org_id d) [
    | true ↦ changed p.id (record d { peers = d.peers ++ p ∷ [] })
    | false ↦ violation
  ]
]

-- `ON DELETE CASCADE` takes the peer's invites with it.
unfoldable pub delete_peer_row : Bytes → Db → Change (Unit {0})
unfolding delete_where
delete_peer_row id d = changed tt (record d {
  peers = delete_where (is_peer id) d.peers;
  peer_invites = delete_where (λ (i : PeerInvite). bytes_eq i.peer_id id) d.peer_invites;
})

unfoldable pub set_token : Bytes → Bytes → Db → Change (Unit {0})
unfolding update_where
set_token id token_hash d = changed tt (record d {
  peers =
      update_where (is_peer id) (λ p. record p { token_hash = token_hash; online = false }) d.peers;
})

-- The row with this peer and key, whose pair is unique.
abbrev pub invites : Bytes → Bytes → PeerInvite → Bool
invites peer_id key_id i = bytes_eq i.peer_id peer_id && bytes_eq i.api_key_id key_id

unfoldable pub insert_invite : PeerInvite → Db → Change (Unit {0})
unfolding any has_peer has_key
insert_invite i d = elim (any (λ (j : PeerInvite). bytes_eq j.id i.id) d.peer_invites) [
  | true ↦ unique_violation
  | false ↦ elim (any (invites i.peer_id i.api_key_id) d.peer_invites) [
    | true ↦ unique_violation
    | false ↦ elim (has_peer i.peer_id d && has_key i.api_key_id d) [
      | true ↦ changed tt (record d { peer_invites = d.peer_invites ++ i ∷ [] })
      | false ↦ violation
    ]
  ]
]

unfoldable pub delete_invite : Bytes → Bytes → Db → Change (Unit {0})
unfolding delete_where
delete_invite peer_id key_id d =
    changed tt (record d { peer_invites = delete_where (invites peer_id key_id) d.peer_invites })

-- The beginning that the handlers of one peer share: the row, and the test for its owner.
abbrev pub peer_missing : Response
peer_missing = http_error 404 (codes "peer not found")

abbrev pub key_missing : Response
key_missing = http_error 404 (codes "api key not found")

-- The rows of `peer_invites` joined with `api_keys`: the invite's id, the key's id and name.
abbrev joined : PeerInvite → Option ApiKey → List Fields → List Fields
joined i none rest = rest
joined i (some k) rest =
    ((codes "id", text i.id)
      ∷ (codes "keyId", text k.id)
      ∷ (codes "keyName", text k.display_name)
      ∷ [])
    ∷ rest

join_keys : Db → List PeerInvite → List Fields
unfolding key_of
join_keys d [] = []
join_keys d (i ∷ is) = joined i (key_of i.api_key_id d) (join_keys d is)

invites_of : Bytes → Db → List Fields
unfolding join_keys order_desc
invites_of peer_id d = join_keys d (
    order_desc (λ (i : PeerInvite). i.created_at)
      (select (λ (i : PeerInvite). bytes_eq i.peer_id peer_id) d.peer_invites))

unfoldable pub list_peer_invites : Option Bytes → Bytes → Action Response
unfolding invites_of peer_of
list_peer_invites caller id = do
  subject ← signed_in caller
  p ← fetch peer_missing db_error (peer_of id)
  check (bytes_eq p.owner_id subject) forbidden
  rows ← query_rows (invites_of id)
  found ← some_or db_error rows
  give (respond 200 (array found))

-- The body is what the JSON decoder gives: the key's id.
unfoldable pub create_peer_invite :
    Option Bytes → Bytes → Option Bytes → Bytes → ℕ → Action Response
unfolding insert_invite peer_of key_of
create_peer_invite caller peer_id body new_id now = do
  subject ← signed_in caller
  api_key_id ← some_or (http_error 400 (codes "invalid request")) body
  p ← fetch peer_missing db_error (peer_of peer_id)
  check (bytes_eq p.owner_id subject) forbidden
  k ← fetch key_missing db_error (key_of api_key_id)
  check (bytes_eq k.org_id p.org_id) (http_error 400 (codes "api key does not belong to same org"))
  must (http_error 500 (codes "failed to create peer invite")) (
      insert_invite
        (record { id = new_id; peer_id = peer_id; api_key_id = api_key_id; created_at = now }))
  write_audit_log p.org_id subject (codes "peer.invite.create") (codes "peer_invite") peer_id
      (some ((codes "keyId", text api_key_id) ∷ []))
  give (respond 201 nothing)

unfoldable pub delete_peer_invite : Option Bytes → Bytes → Bytes → Action Response
unfolding delete_invite peer_of
delete_peer_invite caller peer_id key_id = do
  subject ← signed_in caller
  p ← fetch peer_missing db_error (peer_of peer_id)
  check (bytes_eq p.owner_id subject) forbidden
  exec (delete_invite peer_id key_id)
  write_audit_log p.org_id subject (codes "peer.invite.delete") (codes "peer_invite") peer_id
      (some ((codes "keyId", text key_id) ∷ []))
  give no_content

unfoldable pub delete_peer : Option Bytes → Bytes → Action Response
unfolding delete_peer_row peer_of
delete_peer caller id = do
  subject ← signed_in caller
  p ← fetch peer_missing db_error (peer_of id)
  check (bytes_eq p.owner_id subject) forbidden
  exec (delete_peer_row id)
  write_audit_log p.org_id subject (codes "peer.delete") (codes "peer") id none
  give no_content

-- `random_key` and `random_salt` are what `rand.Read` gives to `keygen.Generate`.
module _ (argon2 : Argon2) where
  unfoldable pub create_peer :
      Option Bytes
      → Option Bytes
      → (random_key random_salt : Option Bytes) → Bytes
      → ℕ
      → Action Response
  unfolding insert_peer member_of generate
  create_peer caller body random_key random_salt new_id now = do
    subject ← signed_in caller
    name ← some_or (http_error 400 (codes "invalid request")) body
    m ← fetch_or no_org (member_of subject)
    (raw_token, token_hash) ←
        some_or (http_error 500 (codes "failed to generate token"))
          (generate argon2 random_key random_salt)
    peer_id ←
        must (http_error 500 (codes "failed to create peer"))
          (insert_peer (new_peer new_id m.org_id name m.id token_hash now))
    write_audit_log m.org_id subject (codes "peer.create") (codes "peer") peer_id
        (some ((codes "name", text name) ∷ []))
    give (write_json 201 ((codes "id", text peer_id) ∷ (codes "token", text raw_token) ∷ []))

  unfoldable pub rotate_peer_token :
      Option Bytes → Bytes → (random_key random_salt : Option Bytes) → Action Response
  unfolding set_token peer_of generate
  rotate_peer_token caller id random_key random_salt = do
    subject ← signed_in caller
    p ← fetch peer_missing db_error (peer_of id)
    check (bytes_eq p.owner_id subject) forbidden
    (raw_token, token_hash) ←
        some_or (http_error 500 (codes "failed to generate token"))
          (generate argon2 random_key random_salt)
    must (http_error 500 (codes "failed to rotate token")) (set_token id token_hash)
    write_audit_log p.org_id subject (codes "peer.rotate_token") (codes "peer") id none
    give (write_json 200 ((codes "token", text raw_token) ∷ []))
