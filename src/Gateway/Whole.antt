-- ===== src/Gateway/Whole.antt =====
-- The gateway put together as apps/gateway/cmd/main.go does: the proxy of
-- apps/gateway/internal/proxy/proxy.go over the validator, the limiter and the router.
mod Tests
use mathlib.Core.List.{Memᴰ}
use openserve.Prelude.{
  ℕ, Bytes, take, Bool, true, false, List, [], ◌∷◌, Option, none, some, ◌≡◌, ◌⊎◌, inl, inr, arith,
  subst, ◌≢◌, Bool-cases,
}
use openserve.Prelude.Words.{ℤ, pos, ◌<ℤ◌}
use openserve.Gateway.Auth.{
  ApiKeyRow, KeyInfo, key_info, lookup_prefix_len, AuthResult, ok, err, panicked, validate,
}
use openserve.Gateway.Auth.Hash.{Argon2}
use openserve.Gateway.Auth.Laws.{IsUsable, validate_sound}
use openserve.Gateway.RateLimit.{
  lua_script, check_limits, read_reply, KeyWindow, limiter_error, allow,
}
use openserve.Gateway.RateLimit.Redis.{SortedSet}
use openserve.Gateway.RateLimit.Laws.{requests_in_window, tokens_in_window, allow_iff}
use openserve.Gateway.Routing.{
  FileRouter, Resolved, address, deployment_not_found, out_of_range, prefix_resolve,
}
use openserve.Gateway.Routing.Laws.{Resolves, prefix_resolve-Resolves}
use openserve.Gateway.Proxy.CacheKey.{extract_cache_key}
use openserve.Gateway.Proxy.{serve_http}
use openserve.Gateway.Proxy.Types.{HttpRequest, UpRequest, Services}
use openserve.Gateway.Proxy.Forward.{up_request, request_id_of}
use openserve.Gateway.Proxy.Sends.{sent_requests, raw_key_of, InLimits}
use openserve.Gateway.Proxy.Targets.{IsAimed, IsAimed-headers, find_target-IsAimed}
use openserve.Gateway.Proxy.Laws.{serve_http-IsCleared}

-- The state behind the services at the time of a request.
pub record Backing (argon2 : Argon2) (redis : SortedSet) : Type 0 where
  pub rows : List ApiKeyRow
  pub now : ℕ
  pub redis_up : Bool
  pub now_ms : ℕ
  pub windows : Bytes → KeyWindow redis.Z
  pub router : FileRouter

-- A panic of the validator ends the request without a reply; as for an error, nothing is sent on.
abbrev accepted : AuthResult → Option KeyInfo
accepted (ok info) = some info
accepted (err e) = none
accepted panicked = none

abbrev upstream_at : Resolved → Option Bytes
upstream_at (address addr) = some addr
upstream_at deployment_not_found = none
upstream_at out_of_range = none

accepted-some : (r : AuthResult) (info : KeyInfo) → accepted r ≡ some info → r ≡ ok info
accepted-some (ok x) info e = ground arith
accepted-some (err x) info e = ground arith
accepted-some panicked info e = ground arith

upstream_at-some : (r : Resolved) (addr : Bytes) → upstream_at r ≡ some addr → r ≡ address addr
upstream_at-some (address a) addr e = ground arith
upstream_at-some deployment_not_found addr e = ground arith
upstream_at-some out_of_range addr e = ground arith

-- The proxy's configuration: `rest` has the services that stay parameters.
unfoldable pub services_of :
    (argon2 : Argon2) (redis : SortedSet) → Backing argon2 redis → Services → Services
services_of argon2 redis b rest = record rest {
  validate = λ key id. accepted (validate argon2 b.rows b.now key id);
  allow = λ key rpm tpm. (allow redis b.redis_up b.now_ms rpm tpm (b.windows key)).0;
  prefix_resolve = λ id key. upstream_at (prefix_resolve b.router id key);
}

module _ (argon2 : Argon2) (redis : SortedSet) (b : Backing argon2 redis) where
  -- The limits of a row leave room for one more request of its key.
  abbrev pub HasRoom : KeyInfo → Type 0
  HasRoom info =
      (pos (requests_in_window redis b.now_ms (b.windows info.key_id)) <ℤ info.rpm)
      × (pos (tokens_in_window redis b.now_ms (b.windows info.key_id)) <ℤ info.tpm)

  -- What the stored state says when `up` is sent for `r`: which deployment `r` names, a row for its
  -- key, room in its limits unless Redis does not answer, and a place for the deployment in the
  -- routing table. `read` is the request with the body as far as it was read, `path` is forwarded.
  pub record IsBacked (rest : Services) (r : HttpRequest) (up : UpRequest) : Type 0 where
    pub id : Bytes
    pub path : Bytes
    pub read : HttpRequest
    pub aimed : IsAimed rest.decode_model r id path read
    pub same_headers : read.headers ≡ r.headers
    pub row : ApiKeyRow
    pub in_table : Memᴰ row b.rows
    pub usable : IsUsable argon2 b.now (raw_key_of read) id row
    pub room :
        HasRoom (key_info (take lookup_prefix_len (raw_key_of read)) row) ⊎ (b.redis_up ≡ false)
    pub upstream : Bytes
    pub routed : Resolves b.router id (address upstream)
    pub is_request :
        up
        ≡ up_request read path
            (key_info (take lookup_prefix_len (raw_key_of read)) row)
            upstream
            (request_id_of rest read)

  allow-answers :
      (rpm tpm : ℤ) (w : KeyWindow redis.Z)
      → (allow redis true b.now_ms rpm tpm w).0 ≢ limiter_error
  unfolding allow lua_script check_limits read_reply
  allow-answers rpm tpm w e = ground arith

  reachable_room :
      (rest : Services) (info : KeyInfo)
      → InLimits (services_of argon2 redis b rest) info
      → b.redis_up ≡ true
      → HasRoom info
  unfolding services_of
  reachable_room rest info (inl e) reachable =
      (allow_iff redis b.now_ms info.rpm info.tpm (b.windows info.key_id)).0 (rw reachable at e)
  reachable_room rest info (inr e) reachable =
      absurd (allow-answers info.rpm info.tpm (b.windows info.key_id) (rw reachable at e))

  InLimits-HasRoom :
      (rest : Services) (info : KeyInfo)
      → InLimits (services_of argon2 redis b rest) info
      → HasRoom info ⊎ (b.redis_up ≡ false)
  unfolding services_of
  InLimits-HasRoom rest info h = elim (Bool-cases b.redis_up) [
    | inl reachable ↦ inl (reachable_room rest info h reachable)
    | inr lost ↦ inr lost
  ]

  -- When the gateway, wired to the key table, the limiter and the routing table, sends a request
  -- to an upstream for `r`, it sends no other one. Then `r` names a deployment, in its path below
  -- `/inference/` or, below `/v1/`, as the model in the first 8192 bytes of its body; the table holds
  -- an active, unexpired row whose hash the key in `r`'s header passes and which allows that
  -- deployment; the entries of the last minute in the key's two sorted sets leave room below that
  -- row's limits, or Redis does not answer; the routing table lists the upstream for that
  -- deployment; and what is sent is the gateway's request for them.
  pub serve_http-IsBacked :
      (rest : Services) (r : HttpRequest) (up : UpRequest) (ups : List UpRequest)
      → sent_requests (serve_http (services_of argon2 redis b rest) r).effects ≡ up ∷ ups
      → IsBacked rest r up × (ups ≡ [])
  unfolding services_of
  serve_http-IsBacked rest r up ups e =
      let (c, only) = serve_http-IsCleared (services_of argon2 redis b rest) r up ups e in
      let aimed =
        find_target-IsAimed (services_of argon2 redis b rest) r c.id c.rest c.read c.targeted in
      let key = raw_key_of c.read in
      let accepted_info = accepted-some (validate argon2 b.rows b.now key c.id) c.info c.valid in
      let (row, in_table, usable, same, long) =
        validate_sound argon2 b.rows b.now key c.id c.info accepted_info in
      let cache_key = extract_cache_key rest.decode_prompt c.read in
      let found = upstream_at-some (prefix_resolve b.router c.id cache_key) c.upstream c.routed in
      (
        record {
          id = c.id;
          path = c.rest;
          read = c.read;
          aimed = aimed;
          same_headers = IsAimed-headers rest.decode_model r c.id c.rest c.read aimed;
          row = row;
          in_table = in_table;
          usable = usable;
          room =
              subst (λ i. HasRoom i ⊎ (b.redis_up ≡ false)) same
                (InLimits-HasRoom rest c.info c.in_limits);
          upstream = c.upstream;
          routed =
              subst (Resolves b.router c.id) found
                (prefix_resolve-Resolves b.router c.id cache_key);
          is_request =
              subst
                (λ i.
                  up
                  ≡ up_request c.read c.rest i c.upstream
                      (request_id_of (services_of argon2 redis b rest) c.read))
                same c.is_request;
        },
        only,
      )
