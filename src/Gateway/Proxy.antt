-- ===== src/Gateway/Proxy.antt =====
-- The reverse proxy of the gateway: apps/gateway/internal/proxy/proxy.go.
-- `ServeHTTP` is cut at its early returns into stages, each of which calls the next.
pub mod Stream
pub mod Types
pub mod CacheKey
pub mod Peer
pub mod Forward
pub mod Targets
pub mod Sends
pub mod Laws
pub mod Forwarded
pub mod Affinity
pub mod Invited
mod Tests
use openserve.Prelude.{
  ℕ, ◌==◌, Bytes, codes, bytes_eq, has_prefix, trim_prefix, cut, lookup, take, Bool, true, false,
  ◌||◌, List, [], ◌∷◌, ◌++◌, Option, none, some, if◌then◌else◌,
}
use openserve.Gateway.Auth.{KeyInfo}
use openserve.Gateway.Proxy.Types.{HttpRequest, Reply, no_body, Effect, validated, Run, Services}
use openserve.Gateway.Proxy.Forward.{refuse, note, header_value, rate_limited}
use openserve.Gateway.Proxy.Peer.{serve_peer, peer_prefix}

abbrev pub inference_prefix : Bytes
inference_prefix = codes "/inference/"

abbrev pub v1_prefix : Bytes
v1_prefix = codes "/v1/"

abbrev pub live_prefix : Bytes
live_prefix = codes "openserve_live_"

abbrev pub bearer : Bytes
bearer = codes "Bearer "

-- The size of the body that is read to find the model.
abbrev pub peek_limit : ℕ
peek_limit = 8192

abbrev pub is_health : Bytes → Bool
is_health path = bytes_eq path (codes "/healthz") || bytes_eq path (codes "/readyz")

-- The deployment, the path to forward and the request as it is read from then on.
pub data Target : Type 0 where
  target : Bytes → Bytes → HttpRequest → Target
  no_target : Run → Target

-- `/inference/<deployment-id>/<rest>`
abbrev pub explicit_target : HttpRequest → Bytes × Option Bytes → Target
explicit_target r (id, none) =
    no_target (refuse 400 "invalid path: expected /inference/<deployment-id>/v1/...")
explicit_target r ([], some rest) =
    no_target (refuse 400 "invalid path: expected /inference/<deployment-id>/v1/...")
explicit_target r (c ∷ id, some rest) = target (c ∷ id) (b'/' ∷ rest) r

-- The `model` of the body; the request keeps the bytes that were read.
abbrev pub body_target : HttpRequest → Option Bytes → Target
body_target r none = no_target (refuse 400 "missing or invalid 'model' field in request body")
body_target r (some []) = no_target (refuse 400 "missing or invalid 'model' field in request body")
body_target r (some (c ∷ model)) = target (c ∷ model) r.path r

module _ (services : Services) where
  unfoldable pub find_target : HttpRequest → Target
  find_target r =
      let peeked = take peek_limit r.body in
      if has_prefix inference_prefix r.path
      then explicit_target r (cut b'/' (trim_prefix inference_prefix r.path))
      else if has_prefix v1_prefix r.path
      then if r.body_fails
        then no_target (refuse 400 "failed to read request body")
        else body_target (record r { body = peeked; first_read = peek_limit })
            (services.decode_model peeked)
      else no_target
          (refuse 400 "invalid path: expected /inference/<deployment-id>/v1/... or /v1/...")

  -- Behind a key that the validator accepted.
  unfoldable pub authorized : HttpRequest → Bytes → Bytes → KeyInfo → Run
  authorized r id rest info =
      if has_prefix peer_prefix id
      then serve_peer services r (trim_prefix peer_prefix id) info
      else rate_limited services r id rest info

  unfoldable pub check_validated : HttpRequest → Bytes → Bytes → Option KeyInfo → Run
  unfolding authorized
  check_validated r id rest none = refuse 401 "invalid or expired API key"
  check_validated r id rest (some info) = authorized r id rest info

  unfoldable pub authenticate : HttpRequest → Bytes → Bytes → Run
  unfolding check_validated
  authenticate r id rest =
      let raw_key = trim_prefix bearer (header_value (codes "Authorization") r.headers) in
      if bytes_eq raw_key []
      then refuse 401 "missing Authorization header"
      else if has_prefix live_prefix raw_key
      then note (validated raw_key id) (check_validated r id rest (services.validate raw_key id))
      else refuse 401 "invalid API key format"

  unfoldable pub with_target : Target → Run
  unfolding authenticate
  with_target (no_target run) = run
  with_target (target id rest r) = authenticate r id rest

  unfoldable pub serve_http : HttpRequest → Run
  unfolding with_target find_target
  serve_http r =
      if is_health r.path
      then record { reply = record { code = 200; headers = []; body = no_body }; effects = [] }
      else with_target (find_target r)
