-- ===== src/Gateway/Proxy/Sends.antt =====
-- Which stages of the proxy send a request to a model's upstream, and under what checks.
use openserve.Prelude.{
  ℕ, Bytes, codes, has_prefix, trim_prefix, cut, take, Bool, true, false, List, [], ◌∷◌, Option,
  none, some, ◌≡◌, ◌⊎◌, refl, sym, ap, ◌∙◌, inl, inr, arith, Bool-cases, Option-cases, zero, suc,
}
use openserve.Prelude.Words.{ℤ}
use openserve.Gateway.Auth.{KeyInfo}
use openserve.Gateway.RateLimit.{AllowResult, allowed, denied, limiter_error}
use openserve.Gateway.Proxy.Stream.{Usage}
use openserve.Gateway.Proxy.Types.{
  HttpRequest, UpRequest, Sent, failed, answered, Effect, validated, limit_asked, sent,
  tokens_recorded, event_written, invites_asked, online_asked, peer_forwarded, Run, Services,
}
use openserve.Gateway.Proxy.CacheKey.{extract_cache_key}
use openserve.Gateway.Proxy.Forward.{
  refuse, header_value, up_request, account, answer, forward, request_id_of, route_found, route,
  after_limit, rate_limited,
}
use openserve.Gateway.Proxy.Peer.{
  strip_peer, decoded, peer_body_limit, peer_prefix, peer_answer, forward_peer, check_online,
  check_invited, serve_peer,
}
use openserve.Gateway.Proxy.{
  live_prefix, bearer, Target, target, no_target, explicit_target, body_target, inference_prefix,
  peek_limit, find_target, authorized, check_validated, authenticate,
}

-- The requests that a run sends to a model's upstream.
unfoldable pub sent_requests : List Effect → List UpRequest
sent_requests [] = []
sent_requests (sent up ∷ es) = up ∷ sent_requests es
sent_requests (validated k id ∷ es) = sent_requests es
sent_requests (limit_asked k rpm tpm ∷ es) = sent_requests es
sent_requests (tokens_recorded k n ∷ es) = sent_requests es
sent_requests (event_written ev ∷ es) = sent_requests es
sent_requests (invites_asked p k ∷ es) = sent_requests es
sent_requests (online_asked p ∷ es) = sent_requests es
sent_requests (peer_forwarded p m b ∷ es) = sent_requests es

abbrev pub raw_key_of : HttpRequest → Bytes
raw_key_of r = trim_prefix bearer (header_value (codes "Authorization") r.headers)

module _ (services : Services) where
  account-sent :
      (info : KeyInfo) (id req_id : Bytes) (u : Usage)
      → sent_requests (account services info id req_id u) ≡ []
  unfolding account sent_requests
  account-sent info id req_id u = ground arith

  pub answer-sent :
      (info : KeyInfo) (id req_id : Bytes) (s : Sent)
      → sent_requests (answer services info id req_id s).effects ≡ []
  unfolding answer refuse
  answer-sent info id req_id (failed msg) = unfold sent_requests in refl
  answer-sent info id req_id (answered resp) = account-sent info id req_id _

  forward-sent :
      (r : HttpRequest) (id rest : Bytes) (info : KeyInfo) (upstream req_id : Bytes)
      (up : UpRequest) (ups : List UpRequest)
      → sent_requests (forward services r id rest info upstream req_id).effects ≡ up ∷ ups
      → (up ≡ up_request r rest info upstream req_id) × (ups ≡ [])
  unfolding forward refuse sent_requests
  forward-sent r id rest info upstream req_id up ups e =
      ground
        (arith, answer-sent info id req_id (services.send (up_request r rest info upstream req_id)))

  pub route-sent :
      (r : HttpRequest) (id rest : Bytes) (info : KeyInfo) (up : UpRequest) (ups : List UpRequest)
      → sent_requests (route services r id rest info).effects ≡ up ∷ ups
      → (upstream : Bytes) × (services.prefix_resolve id
            (extract_cache_key services.decode_prompt r)
          ≡ some upstream)
        × (up ≡ up_request r rest info upstream (request_id_of services r))
        × (ups ≡ [])
  unfolding route route_found refuse sent_requests
  route-sent r id rest info up ups e =
      elim (Option-cases
        (services.prefix_resolve id (extract_cache_key services.decode_prompt r))) [
          | inl lost ↦ ground arith
          | inr (upstream, found) ↦
              let (same, only) =
                forward-sent r id rest info upstream (request_id_of services r) up ups
                  (rw found at e) in
              (upstream, found, same, only)
        ]

  AllowResult-cases :
      (a : AllowResult) → (a ≡ allowed) ⊎ ((a ≡ limiter_error) ⊎ ((retry : ℤ) × (a ≡ denied retry)))
  AllowResult-cases allowed = inl refl
  AllowResult-cases limiter_error = inr (inl refl)
  AllowResult-cases (denied retry) = inr (inr (retry, refl))

  -- The limiter let the key of `info` pass, or failed.
  abbrev pub InLimits : KeyInfo → Type 0
  InLimits info =
      (services.allow info.key_id info.rpm info.tpm ≡ allowed)
      ⊎ (services.allow info.key_id info.rpm info.tpm ≡ limiter_error)

  rate_limited-sent :
      (r : HttpRequest) (id rest : Bytes) (info : KeyInfo) (up : UpRequest) (ups : List UpRequest)
      → sent_requests (rate_limited services r id rest info).effects ≡ up ∷ ups
      → InLimits info × (sent_requests (route services r id rest info).effects ≡ up ∷ ups)
  unfolding rate_limited after_limit refuse sent_requests
  rate_limited-sent r id rest info up ups e =
      elim (AllowResult-cases (services.allow info.key_id info.rpm info.tpm)) [
        | inl a ↦ (inl a, rw a at e)
        | inr (inl a) ↦ (inr a, rw a at e)
        | inr (inr (retry, a)) ↦ ground arith
      ]

  peer_answer-sent : (s : Sent) → sent_requests (peer_answer s).effects ≡ []
  unfolding peer_answer refuse sent_requests
  peer_answer-sent (failed msg) = refl
  peer_answer-sent (answered resp) = refl

  forward_peer-sent :
      (r : HttpRequest) (peer_id : Bytes)
      → sent_requests (forward_peer services r peer_id).effects ≡ []
  unfolding forward_peer refuse sent_requests
  forward_peer-sent r peer_id = ground (
    arith,
    peer_answer-sent (
        services.relay_forward peer_id
          (strip_peer (decoded (services.decode_model (take peer_body_limit r.body))))
          (take peer_body_limit r.body)),
  )

  check_online-sent :
      (r : HttpRequest) (peer_id : Bytes) (on : Option Bool)
      → sent_requests (check_online services r peer_id on).effects ≡ []
  unfolding check_online refuse sent_requests
  check_online-sent r peer_id none = refl
  check_online-sent r peer_id (some false) = refl
  check_online-sent r peer_id (some true) = forward_peer-sent r peer_id

  check_invited-sent :
      (r : HttpRequest) (peer_id : Bytes) (count : Option ℕ)
      → sent_requests (check_invited services r peer_id count).effects ≡ []
  unfolding check_invited refuse sent_requests
  check_invited-sent r peer_id none = refl
  check_invited-sent r peer_id (some zero) = refl
  check_invited-sent r peer_id (some (suc n)) =
      check_online-sent r peer_id (services.relay_online peer_id)

  serve_peer-sent :
      (r : HttpRequest) (peer_id : Bytes) (info : KeyInfo)
      → sent_requests (serve_peer services r peer_id info).effects ≡ []
  unfolding serve_peer refuse sent_requests
  serve_peer-sent r peer_id info =
      ground (arith, check_invited-sent r peer_id (services.invite_count peer_id info.key_id))

  -- The checks behind the key's.
  pub authorized-sent :
      (r : HttpRequest) (id rest : Bytes) (info : KeyInfo) (up : UpRequest) (ups : List UpRequest)
      → sent_requests (authorized services r id rest info).effects ≡ up ∷ ups
      → (has_prefix peer_prefix id ≡ false)
        × InLimits info
        × (sent_requests (route services r id rest info).effects ≡ up ∷ ups)
  unfolding authorized
  authorized-sent r id rest info up ups e = elim (Bool-cases (has_prefix peer_prefix id)) [
    | inl peer ↦ ground (arith, serve_peer-sent r (trim_prefix peer_prefix id) info)
    | inr other ↦
        let (in_limits, routed) = rate_limited-sent r id rest info up ups (rw other at e) in
        (other, in_limits, routed)
  ]

  pub authenticate-sent :
      (r : HttpRequest) (id rest : Bytes) (up : UpRequest) (ups : List UpRequest)
      → sent_requests (authenticate services r id rest).effects ≡ up ∷ ups
      → (info : KeyInfo) × (has_prefix live_prefix (raw_key_of r) ≡ true)
        × (services.validate (raw_key_of r) id ≡ some info)
        × (sent_requests (authorized services r id rest info).effects ≡ up ∷ ups)
  unfolding authenticate check_validated refuse sent_requests
  authenticate-sent r id rest up ups e = elim (Option-cases (services.validate (raw_key_of r) id)) [
    | inl lost ↦ ground arith
    | inr (info, found) ↦ elim (Bool-cases (has_prefix live_prefix (raw_key_of r))) [
      | inl live ↦ (info, live, found, ground arith)
      | inr dead ↦ ground arith
    ]
  ]

  pub Target-cases :
      (t : Target)
      → ((run : Run) × (t ≡ no_target run))
        ⊎ ((id : Bytes) × (rest : Bytes) × (r : HttpRequest) × (t ≡ target id rest r))
  Target-cases (no_target run) = inl (run, refl)
  Target-cases (target id rest r) = inr (id, rest, r, refl)

  -- What a request that finds no target does.
  refused_effects : Target → List Effect
  refused_effects (no_target run) = run.effects
  refused_effects (target id rest r) = []

  explicit_target-effects :
      (r : HttpRequest) (parts : Bytes × Option Bytes)
      → refused_effects (explicit_target r parts) ≡ []
  unfolding refused_effects refuse
  explicit_target-effects r (id, none) = refl
  explicit_target-effects r ([], some rest) = refl
  explicit_target-effects r (c ∷ id, some rest) = refl

  body_target-effects :
      (r : HttpRequest) (model : Option Bytes) → refused_effects (body_target r model) ≡ []
  unfolding refused_effects refuse
  body_target-effects r none = refl
  body_target-effects r (some []) = refl
  body_target-effects r (some (c ∷ model)) = refl

  find_target-effects : (r : HttpRequest) → refused_effects (find_target services r) ≡ []
  unfolding find_target refused_effects refuse
  find_target-effects r = ground (
    arith,
    explicit_target-effects r (cut b'/' (trim_prefix inference_prefix r.path)),
    body_target-effects (record r { body = take peek_limit r.body; first_read = peek_limit })
        (services.decode_model (take peek_limit r.body)),
  )

  pub find_target_refused :
      (r : HttpRequest) (run : Run) → find_target services r ≡ no_target run → run.effects ≡ []
  unfolding refused_effects
  find_target_refused r run e = sym (ap refused_effects e) ∙ find_target-effects r
