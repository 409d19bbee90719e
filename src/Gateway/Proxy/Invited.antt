-- ===== src/Gateway/Proxy/Invited.antt =====
-- What must have happened before the proxy forwards a request to a peer.
use openserve.Prelude.{
  ℕ, zero, suc, Bytes, has_prefix, trim_prefix, take, Bool, true, false, List, [], ◌∷◌, Option,
  some, none, ◌≡◌, refl, inl, inr, arith, Bool-cases, Option-cases,
}
use openserve.Gateway.Auth.{KeyInfo}
use openserve.Gateway.RateLimit.{AllowResult, allowed, limiter_error, denied}
use openserve.Gateway.Proxy.Stream.{Usage}
use openserve.Gateway.Proxy.Types.{
  HttpRequest, Effect, validated, limit_asked, sent, tokens_recorded, event_written, invites_asked,
  online_asked, peer_forwarded, Sent, failed, answered, Services,
}
use openserve.Gateway.Proxy.Forward.{
  refuse, account, answer, forward, request_id_of, route, route_found, rate_limited, after_limit,
  up_request,
}
use openserve.Gateway.Proxy.Peer.{
  peer_prefix, peer_answer, forward_peer, check_online, check_invited, serve_peer, strip_peer,
  decoded, peer_body_limit,
}
use openserve.Gateway.Proxy.{
  live_prefix, is_health, target, find_target, authorized, check_validated, authenticate,
  with_target, serve_http,
}
use openserve.Gateway.Proxy.Sends.{raw_key_of, Target-cases, find_target_refused}

-- The peers that a run forwards to, and the keys that it asks the limiter about.
unfoldable pub peers_reached : List Effect → List Bytes
peers_reached [] = []
peers_reached (peer_forwarded p m b ∷ es) = p ∷ peers_reached es
peers_reached (sent up ∷ es) = peers_reached es
peers_reached (validated k id ∷ es) = peers_reached es
peers_reached (limit_asked k rpm tpm ∷ es) = peers_reached es
peers_reached (tokens_recorded k n ∷ es) = peers_reached es
peers_reached (event_written ev ∷ es) = peers_reached es
peers_reached (invites_asked p k ∷ es) = peers_reached es
peers_reached (online_asked p ∷ es) = peers_reached es

module _ (services : Services) where
  -- What has been checked when a request is forwarded to the peer `p`.
  pub record IsInvited (r : HttpRequest) (p : Bytes) : Type 0 where
    pub id : Bytes
    pub rest : Bytes
    pub read : HttpRequest
    pub info : KeyInfo
    pub others : ℕ
    pub targeted : find_target services r ≡ target id rest read
    pub live : has_prefix live_prefix (raw_key_of read) ≡ true
    pub valid : services.validate (raw_key_of read) id ≡ some info
    pub is_peer : has_prefix peer_prefix id ≡ true
    pub names_peer : trim_prefix peer_prefix id ≡ p
    pub database : services.has_db ≡ true
    pub invited : services.invite_count p info.key_id ≡ some (suc others)
    pub online : services.relay_online p ≡ some true

  account-reached :
      (info : KeyInfo) (id req_id : Bytes) (u : Usage)
      → peers_reached (account services info id req_id u) ≡ []
  unfolding account peers_reached
  account-reached info id req_id u = ground arith

  answer-reached :
      (info : KeyInfo) (id req_id : Bytes) (s : Sent)
      → peers_reached (answer services info id req_id s).effects ≡ []
  unfolding answer refuse peers_reached
  answer-reached info id req_id (failed msg) = refl
  answer-reached info id req_id (answered resp) = account-reached info id req_id _

  route_found-reached :
      (r : HttpRequest) (id rest : Bytes) (info : KeyInfo) (upstream : Option Bytes)
      → peers_reached (route_found services r id rest info upstream).effects ≡ []
  unfolding route_found forward refuse peers_reached
  route_found-reached r id rest info none = refl
  route_found-reached r id rest info (some upstream) =
      let req_id = request_id_of services r in
      ground (
        arith,
        answer-reached info id req_id (services.send (up_request r rest info upstream req_id)),
      )

  after_limit-reached :
      (r : HttpRequest) (id rest : Bytes) (info : KeyInfo) (a : AllowResult)
      → peers_reached (after_limit services r id rest info a).effects ≡ []
  unfolding after_limit route refuse peers_reached
  after_limit-reached r id rest info allowed = route_found-reached r id rest info _
  after_limit-reached r id rest info limiter_error = route_found-reached r id rest info _
  after_limit-reached r id rest info (denied retry) = refl

  rate_limited-reached :
      (r : HttpRequest) (id rest : Bytes) (info : KeyInfo)
      → peers_reached (rate_limited services r id rest info).effects ≡ []
  unfolding rate_limited peers_reached
  rate_limited-reached r id rest info = after_limit-reached r id rest info _

  peer_answer-reached : (s : Sent) → peers_reached (peer_answer s).effects ≡ []
  unfolding peer_answer refuse peers_reached
  peer_answer-reached (failed msg) = refl
  peer_answer-reached (answered resp) = refl

  forward_peer-reached :
      (r : HttpRequest) (peer p : Bytes) (ps : List Bytes)
      → peers_reached (forward_peer services r peer).effects ≡ p ∷ ps
      → (peer ≡ p) × (ps ≡ [])
  unfolding forward_peer refuse peers_reached
  forward_peer-reached r peer p ps e =
      let bytes = take peer_body_limit r.body in
      ground (
        arith,
        peer_answer-reached (
            services.relay_forward peer (strip_peer (decoded (services.decode_model bytes))) bytes),
      )

  check_online-reached :
      (r : HttpRequest) (peer p : Bytes) (ps : List Bytes) (on : Option Bool)
      → peers_reached (check_online services r peer on).effects ≡ p ∷ ps
      → (on ≡ some true) × (peer ≡ p) × (ps ≡ [])
  unfolding check_online refuse peers_reached
  check_online-reached r peer p ps none e = ground arith
  check_online-reached r peer p ps (some false) e = ground arith
  check_online-reached r peer p ps (some true) e =
      let (same, only) = forward_peer-reached r peer p ps e in (refl, same, only)

  check_invited-reached :
      (r : HttpRequest) (peer p : Bytes) (ps : List Bytes) (count : Option ℕ)
      → peers_reached (check_invited services r peer count).effects ≡ p ∷ ps
      → ((others : ℕ) × (count ≡ some (suc others)))
        × (services.relay_online peer ≡ some true)
        × (peer ≡ p)
        × (ps ≡ [])
  unfolding check_invited refuse peers_reached
  check_invited-reached r peer p ps none e = ground arith
  check_invited-reached r peer p ps (some zero) e = ground arith
  check_invited-reached r peer p ps (some (suc n)) e =
      let (online, same, only) = check_online-reached r peer p ps (services.relay_online peer) e in
      ((n, refl), online, same, only)

  serve_peer-reached :
      (r : HttpRequest) (peer p : Bytes) (info : KeyInfo) (ps : List Bytes)
      → peers_reached (serve_peer services r peer info).effects ≡ p ∷ ps
      → (services.has_db ≡ true)
        × (peers_reached
              (check_invited services r peer (services.invite_count peer info.key_id)).effects
            ≡ p ∷ ps)
  unfolding serve_peer refuse peers_reached
  serve_peer-reached r peer p info ps e = ground arith

  authorized-reached :
      (r : HttpRequest) (id rest p : Bytes) (info : KeyInfo) (ps : List Bytes)
      → peers_reached (authorized services r id rest info).effects ≡ p ∷ ps
      → (has_prefix peer_prefix id ≡ true)
        × (peers_reached (serve_peer services r (trim_prefix peer_prefix id) info).effects ≡ p ∷ ps)
  unfolding authorized
  authorized-reached r id rest p info ps e = elim (Bool-cases (has_prefix peer_prefix id)) [
    | inl peer ↦ (peer, rw peer at e)
    | inr other ↦ ground (arith, rate_limited-reached r id rest info)
  ]

  authenticate-reached :
      (r : HttpRequest) (id rest p : Bytes) (ps : List Bytes)
      → peers_reached (authenticate services r id rest).effects ≡ p ∷ ps
      → (info : KeyInfo) × (has_prefix live_prefix (raw_key_of r) ≡ true)
        × (services.validate (raw_key_of r) id ≡ some info)
        × (peers_reached (authorized services r id rest info).effects ≡ p ∷ ps)
  unfolding authenticate check_validated refuse peers_reached
  authenticate-reached r id rest p ps e =
      elim (Option-cases (services.validate (raw_key_of r) id)) [
        | inl lost ↦ ground arith
        | inr (info, found) ↦ elim (Bool-cases (has_prefix live_prefix (raw_key_of r))) [
          | inl live ↦ (info, live, found, ground arith)
          | inr dead ↦ ground arith
        ]
      ]

  -- For every request and all services: when the gateway forwards a request to a peer, it forwards
  -- to no other, and before it the deployment was read from the path or the body and names this
  -- peer behind "peer-", the key has the live prefix, the validator accepted it for that
  -- deployment, the database counts at least one invitation of the key to the peer, and the relay
  -- says that the peer is online.
  pub serve_http-IsInvited :
      (r : HttpRequest) (p : Bytes) (ps : List Bytes)
      → peers_reached (serve_http services r).effects ≡ p ∷ ps
      → IsInvited r p × (ps ≡ [])
  unfolding serve_http with_target peers_reached
  serve_http-IsInvited r p ps e = elim (Target-cases services (find_target services r)) [
    | inl (run, lost) ↦ ground (arith, find_target_refused services r run lost)
    | inr (id, rest, read, found) ↦ elim (Bool-cases (is_health r.path)) [
      | inl health ↦ ground arith
      | inr _ ↦
          let (info, live, valid, e1) = authenticate-reached read id rest p ps (ground arith) in
          let (is_peer, e2) = authorized-reached read id rest p info ps e1 in
          let peer = trim_prefix peer_prefix id in
          let (database, e3) = serve_peer-reached read peer p info ps e2 in
          let ((others, invited), online, same, only) =
            check_invited-reached read peer p ps (services.invite_count peer info.key_id) e3 in
          (
            record {
              id = id;
              rest = rest;
              read = read;
              info = info;
              others = others;
              targeted = found;
              live = live;
              valid = valid;
              is_peer = is_peer;
              names_peer = same;
              database = database;
              invited = rw same at invited;
              online = rw same at online;
            },
            only,
          )
    ]
  ]
