-- ===== src/Gateway/Proxy/Peer.antt =====
-- Requests for a peer's models: `servePeer` of apps/gateway/internal/proxy/proxy.go.
use Prim.Native.String
use openserve.Prelude.{
  ℕ, ◌*◌, zero, suc, Bytes, codes, bytes_eq, cut, take, Bool, true, false, not, ◌||◌, List, [], ◌∷◌,
  ◌++◌, Option, none, some, if◌then◌else◌,
}
use openserve.Gateway.Auth.{KeyInfo}
use openserve.Gateway.Proxy.Stream.Laws.{body}
use openserve.Gateway.Proxy.Types.{
  Headers, HttpRequest, Sent, failed, answered, ReplyHeader, copied, stream, invites_asked,
  online_asked, peer_forwarded, Run, Services,
}
use openserve.Gateway.Proxy.Forward.{refuse, note}

abbrev pub peer_prefix : Bytes
peer_prefix = codes "peer-"

-- The body is read up to 10 MiB.
abbrev pub peer_body_limit : ℕ
peer_body_limit = 10 * 1024 * 1024

-- The model name behind the first slash, or the whole name.
abbrev behind_slash : Bytes → Bytes × Option Bytes → Bytes
behind_slash model (front, none) = model
behind_slash model (front, some rest) = rest

unfoldable pub strip_peer : Bytes → Bytes
strip_peer model = behind_slash model (cut b'/' model)

-- A body that is no JSON has the empty model.
abbrev pub decoded : Option Bytes → Bytes
decoded none = []
decoded (some model) = model

peer_headers : Headers → List ReplyHeader
peer_headers [] = []
peer_headers ((k, vs) ∷ hs) = copied k vs ∷ peer_headers hs

unfoldable pub peer_answer : Sent → Run
unfolding peer_headers
peer_answer (failed msg) = refuse 503 (String.◌++◌ "peer forward failed: " msg)
peer_answer (answered resp) = record {
  reply = record {
    code = resp.status;
    headers = peer_headers resp.headers;
    body = stream (body resp.reads);
  };
  effects = [];
}

module _ (services : Services) where
  abbrev forward_url : Bytes → Bytes
  forward_url peer_id = services.peer_relay_url ++ (codes "/internal/forward/" ++ peer_id)

  unfoldable pub forward_peer : HttpRequest → Bytes → Run
  unfolding peer_answer
  forward_peer r peer_id =
      let bytes = take peer_body_limit r.body in
      let model = strip_peer (decoded (services.decode_model bytes)) in
      if r.body_fails
      then refuse 400 "failed to read body"
      else if services.request_builds (codes "POST") (forward_url peer_id)
      then note (peer_forwarded peer_id model bytes)
          (peer_answer (services.relay_forward peer_id model bytes))
      else refuse 500 "failed to create request"

  unfoldable pub check_online : HttpRequest → Bytes → Option Bool → Run
  unfolding forward_peer
  check_online r peer_id none = refuse 503 "peer relay unreachable"
  check_online r peer_id (some false) = refuse 503 "peer is offline"
  check_online r peer_id (some true) = forward_peer r peer_id

  unfoldable pub check_invited : HttpRequest → Bytes → Option ℕ → Run
  unfolding check_online
  check_invited r peer_id none = refuse 403 "api key not invited to this peer"
  check_invited r peer_id (some zero) = refuse 403 "api key not invited to this peer"
  check_invited r peer_id (some (suc n)) =
      note (online_asked peer_id) (check_online r peer_id (services.relay_online peer_id))

  unfoldable pub serve_peer : HttpRequest → Bytes → KeyInfo → Run
  unfolding check_invited
  serve_peer r peer_id info =
      if bytes_eq services.peer_relay_url [] || not services.has_db
      then refuse 503 "peer relay not configured"
      else note (invites_asked peer_id info.key_id)
          (check_invited r peer_id (services.invite_count peer_id info.key_id))
