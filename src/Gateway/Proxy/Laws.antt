-- ===== src/Gateway/Proxy/Laws.antt =====
-- What must have happened before the proxy sends a request on.
use openserve.Prelude.{
  refl, ◌∙◌, sym, ap, bytes_eq, Bytes, has_prefix, true, false, List, [], ◌∷◌, some, ◌≡◌, ◌⊎◌, inl,
  inr, arith, Bool-cases,
}
use openserve.Gateway.Auth.{KeyInfo}
use openserve.Gateway.RateLimit.{allowed, limiter_error}
use openserve.Gateway.Proxy.Types.{HttpRequest, UpRequest, Services}
use openserve.Gateway.Proxy.CacheKey.{extract_cache_key}
use openserve.Gateway.Proxy.Forward.{
  forward, route_found, after_limit, rate_limited, route, up_request, upstream_url, request_id_of,
}
use openserve.Gateway.Proxy.Peer.{peer_prefix}
use openserve.Gateway.Proxy.{
  authorized, check_validated, authenticate, live_prefix, is_health, target, find_target,
  with_target, serve_http,
}
use openserve.Gateway.Proxy.Sends.{
  InLimits, answer-sent, sent_requests, raw_key_of, route-sent, authorized-sent, authenticate-sent,
  Target-cases, find_target_refused,
}

module _ (services : Services) where
  -- What has been checked when `up` is sent for the request `r`.
  pub record IsCleared (r : HttpRequest) (up : UpRequest) : Type 0 where
    pub id : Bytes
    pub rest : Bytes
    pub read : HttpRequest
    pub info : KeyInfo
    pub upstream : Bytes
    pub targeted : find_target services r ≡ target id rest read
    pub live : has_prefix live_prefix (raw_key_of read) ≡ true
    pub valid : services.validate (raw_key_of read) id ≡ some info
    pub no_peer : has_prefix peer_prefix id ≡ false
    pub in_limits :
        (services.allow info.key_id info.rpm info.tpm ≡ allowed)
        ⊎ (services.allow info.key_id info.rpm info.tpm ≡ limiter_error)
    pub routed :
        services.prefix_resolve id (extract_cache_key services.decode_prompt read) ≡ some upstream
    pub is_request : up ≡ up_request read rest info upstream (request_id_of services read)

  -- For every request and all services: when the gateway sends a request to an upstream, it sends
  -- no other one, and before it the deployment was read from the path or the body, the key has
  -- the live prefix, the validator accepted it for that deployment, which is not a peer's, the
  -- limiter let the key's limits pass or failed itself, the router resolved the deployment with
  -- the request's cache key, and what is sent is the gateway's request for that upstream.
  pub serve_http-IsCleared :
      (r : HttpRequest) (up : UpRequest) (ups : List UpRequest)
      → sent_requests (serve_http services r).effects ≡ up ∷ ups
      → IsCleared r up × (ups ≡ [])
  unfolding serve_http with_target sent_requests
  serve_http-IsCleared r up ups e = elim (Target-cases services (find_target services r)) [
    | inl (run, lost) ↦ ground (arith, find_target_refused services r run lost)
    | inr (id, rest, read, found) ↦ elim (Bool-cases (is_health r.path)) [
      | inl health ↦ ground arith
      | inr _ ↦
          let (info, live, valid, e1) =
            authenticate-sent services read id rest up ups (ground arith) in
          let (no_peer, in_limits, e2) = authorized-sent services read id rest info up ups e1 in
          let (upstream, routed, is_request, only) =
            route-sent services read id rest info up ups e2 in
          (
            record {
              id = id;
              rest = rest;
              read = read;
              info = info;
              upstream = upstream;
              targeted = found;
              live = live;
              valid = valid;
              no_peer = no_peer;
              in_limits = in_limits;
              routed = routed;
              is_request = is_request;
            },
            only,
          )
    ]
  ]

  route_complete :
      (r : HttpRequest) (id rest : Bytes) (info : KeyInfo) (upstream : Bytes)
      → services.prefix_resolve id (extract_cache_key services.decode_prompt r) ≡ some upstream
      → services.request_builds r.method (upstream_url upstream rest r.raw_query) ≡ true
      → sent_requests (route services r id rest info).effects
        ≡ up_request r rest info upstream (request_id_of services r) ∷ []
  unfolding route route_found forward sent_requests
  route_complete r id rest info upstream e builds = ground (
    arith,
    answer-sent services info id (request_id_of services r)
        (services.send (up_request r rest info upstream (request_id_of services r))),
  )

  rate_limited_complete :
      (r : HttpRequest) (id rest : Bytes) (info : KeyInfo)
      → InLimits services info
      → sent_requests (rate_limited services r id rest info).effects
        ≡ sent_requests (route services r id rest info).effects
  unfolding rate_limited after_limit sent_requests
  rate_limited_complete r id rest info (inl e) = rw e
  rate_limited_complete r id rest info (inr e) = rw e

  live-nonempty : (key : Bytes) → has_prefix live_prefix key ≡ true → bytes_eq key [] ≡ false
  unfolding has_prefix bytes_eq
  live-nonempty [] h = ground arith
  live-nonempty (c ∷ key) h = refl

  -- For every request off the health paths and all services: when every check that `IsCleared`
  -- names succeeds for a request to an upstream and that request can be built, the gateway sends
  -- exactly this request, once, whatever the tokens that its body asks for and whatever the address
  -- of its client: it has no further check.
  pub IsCleared-serve_http :
      (r : HttpRequest) (up : UpRequest)
      → is_health r.path ≡ false
      → (c : IsCleared r up)
      → services.request_builds c.read.method (upstream_url c.upstream c.rest c.read.raw_query)
        ≡ true
      → sent_requests (serve_http services r).effects ≡ up ∷ []
  unfolding serve_http with_target authenticate check_validated authorized sent_requests
  IsCleared-serve_http r up alive c builds =
      let routed = route_complete c.read c.id c.rest c.info c.upstream c.routed builds in
      let limited = rate_limited_complete c.read c.id c.rest c.info c.in_limits in
      rw (alive, c.targeted, live-nonempty (raw_key_of c.read) c.live, c.live, c.valid, c.no_peer)
        (limited ∙ routed ∙ ap (λ x. x ∷ []) (sym c.is_request))
