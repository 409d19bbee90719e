-- ===== src/Gateway/Whole/Tests.antt =====
-- An example of the whole gateway.
use openserve.Prelude.{
  Bytes, codes, bytes_eq, split, cut, parse_uint32, has_prefix, trim_prefix, lookup, insert, true,
  false, List, [], ◌∷◌, none, some, ◌≡◌, refl,
}
use openserve.Prelude.Words.{pos}
use openserve.Prelude.Base64
use openserve.Prelude.Hash.{fnv32a, format_hex}
use openserve.Keys.Sample.{sum_argon2}
use openserve.Gateway.Auth.{ApiKeyRow, key_info, selects, query_row, allows, check_row, validate}
use openserve.Gateway.Auth.Hash.{verify_argon2id_phc, parse_costs, constant_time_compare}
use openserve.Gateway.RateLimit.{
  limiter_error, allow, lua_script, check_limits, clean, read_reply, total_tokens,
}
use openserve.Gateway.RateLimit.Sample.{listed_set}
use openserve.Gateway.Routing.{FileRouter, prefix_resolve, resolve, pick_pod}
use openserve.Gateway.Proxy.{
  find_target, authorized, check_validated, authenticate, with_target, serve_http,
}
use openserve.Gateway.Proxy.Types.{HttpRequest, UpRequest, failed, Services}
use openserve.Gateway.Proxy.CacheKey.{extract_cache_key, body_key}
use openserve.Gateway.Proxy.Stream.{copy_stream, copy_loop}
use openserve.Gateway.Proxy.Forward.{
  refuse, header_value, up_request, account, answer, forward, route_found, route, after_limit,
  rate_limited,
}
use openserve.Gateway.Proxy.Sends.{sent_requests}
use openserve.Gateway.Whole.{Backing, services_of, IsBacked, serve_http-IsBacked}

gateway : Unit {0}
unfolding validate selects query_row check_row allows bytes_eq verify_argon2id_phc parse_costs
    constant_time_compare split cut parse_uint32 Base64.decode allow lua_script check_limits clean
    read_reply total_tokens prefix_resolve resolve pick_pod lookup insert fnv32a format_hex
    serve_http with_target find_target authenticate check_validated authorized rate_limited
    after_limit route route_found forward answer refuse account header_value extract_cache_key
    body_key sent_requests copy_stream copy_loop has_prefix trim_prefix services_of
gateway = tt

abbrev sample_key : Bytes
sample_key = codes "openserve_live_001122ab"

abbrev sample_row : ApiKeyRow
sample_row = record {
  key_prefix = sample_key;
  key_hash =
      codes "$argon2id$v=19$m=65536,t=1,p=4$AQID+g$Li4uLi4uLi4uLi4uLi4uLi4uLi4uLi4uLi4uLi4uLi4";
  role = codes "developer";
  allowed_deployments = codes "llama" ∷ [];
  rpm = pos 60;
  tpm = pos 100000;
  ip_allowlist = [];
  expires_at = some 9;
  active = true;
}

abbrev sample_router : FileRouter
sample_router = record {
  routes = (codes "llama", codes "vllm-llama:8000") ∷ [];
  pod_routes = [];
  closed = false;
}

abbrev backing : Backing sum_argon2 listed_set
backing = record {
  rows = sample_row ∷ [];
  now = 5;
  redis_up = true;
  now_ms = 100000;
  windows = λ key. record { requests = listed_set.empty; tokens = listed_set.empty };
  router = sample_router;
}

abbrev other_services : Services
other_services = record {
  validate = λ key id. none;
  allow = λ key rpm tpm. limiter_error;
  prefix_resolve = λ id key. none;
  decode_model = λ b. none;
  decode_prompt = λ b. none;
  decode_usage = λ b. none;
  request_builds = λ m u. true;
  send = λ up. failed "down";
  random_bytes = none;
  unix_nano = 0;
  peer_relay_url = [];
  has_db = false;
  invite_count = λ p k. none;
  relay_online = λ p. none;
  relay_forward = λ p m b. failed "down";
}

abbrev sample_request : HttpRequest
sample_request = record {
  method = codes "POST";
  path = codes "/inference/llama/v1/completions";
  raw_query = [];
  headers =
      (codes "Authorization", codes "Bearer openserve_live_001122ab" ∷ [])
      ∷ (codes "X-Request-Id", codes "r1" ∷ [])
      ∷ [];
  body = codes "{}";
  body_fails = false;
  has_body = true;
  content_length = pos 2;
  first_read = 4096;
  remote_addr = codes "192.0.2.1:5000";
}

abbrev sample_up : UpRequest
sample_up =
    up_request sample_request (codes "/v1/completions") (key_info sample_key sample_row)
      (codes "vllm-llama:8000") (codes "r1")

abbrev no_requests : List UpRequest
no_requests = []

sample_sent :
    sent_requests
      (serve_http (services_of sum_argon2 listed_set backing other_services) sample_request).effects
    ≡ sample_up ∷ []
unfolding gateway
sample_sent = refl

serve_http-IsBacked_example :
    IsBacked sum_argon2 listed_set backing other_services sample_request sample_up
    × (no_requests ≡ no_requests)
serve_http-IsBacked_example =
    serve_http-IsBacked sum_argon2 listed_set backing other_services sample_request sample_up []
      sample_sent
