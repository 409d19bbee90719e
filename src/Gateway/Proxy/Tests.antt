-- ===== src/Gateway/Proxy/Tests.antt =====
-- Tests and examples of the proxy.
use openserve.Prelude.{
  Bytes, codes, bytes_eq, has_prefix, trim_prefix, trim_space, split, cut, lookup, insert, true,
  false, List, [], ◌∷◌, Option, some, none, ◌≡◌, refl, All, Lacks, arith, inl, if◌then◌else◌,
}
use openserve.Prelude.Hex.{hex_encode}
use openserve.Prelude.Words.{pos, to_int32, ◌+ℤ◌}
use openserve.Prelude.Hash.{fnv32a, format_hex}
use openserve.Gateway.Auth.{KeyInfo}
use openserve.Gateway.RateLimit.{allowed}
use openserve.Gateway.Proxy.Stream.{
  Usage, no_usage, ReadResult, newline, ends_line, scan_line, scan_lines, take_chunk, copy_loop,
  copy_stream, total_tokens,
}
use openserve.Gateway.Proxy.Stream.Laws.{body, unlines, scan_all, copy_stream_usage}
use openserve.Gateway.Proxy.Types.{Headers, HttpRequest, UpRequest, UpResponse, answered, Services}
use openserve.Gateway.Proxy.CacheKey.{extract_cache_key, system_content, body_key, hash_prefix}
use openserve.Gateway.Proxy.Forward.{
  up_request, generate_request_id, forward_headers, header_value, equal_fold, account, answer,
  forward, route_found, route, after_limit, rate_limited, refuse,
}
use openserve.Gateway.Proxy.Peer.{
  serve_peer, check_invited, check_online, forward_peer, peer_answer, strip_peer,
}
use openserve.Gateway.Proxy.{
  find_target, authorized, check_validated, authenticate, with_target, serve_http,
}
use openserve.Gateway.Proxy.Sends.{sent_requests}
use openserve.Gateway.Proxy.Laws.{IsCleared, serve_http-IsCleared, IsCleared-serve_http}
use openserve.Gateway.Proxy.Affinity.{HasSystemPrompt}
use openserve.Gateway.Proxy.Invited.{IsInvited, peers_reached, serve_http-IsInvited}

proxy : Unit {0}
unfolding serve_http hex_encode with_target find_target authenticate check_validated authorized
    rate_limited after_limit route route_found forward answer account serve_peer check_invited
    check_online forward_peer peer_answer strip_peer refuse header_value up_request forward_headers
    generate_request_id equal_fold extract_cache_key body_key system_content hash_prefix fnv32a
    format_hex sent_requests peers_reached copy_stream copy_loop take_chunk scan_lines scan_line
    ends_line total_tokens body unlines scan_all split cut has_prefix trim_prefix trim_space
    bytes_eq lookup insert to_int32 ◌+ℤ◌
proxy = tt

abbrev two_counts : Usage
two_counts = record { input_tokens = pos 12; output_tokens = pos 30 }

-- A chunk with this text carries the counts above.
abbrev counted : Bytes
counted = codes "{usage}"

abbrev sample_usage : Bytes → Option Usage
sample_usage text = if bytes_eq text counted then some two_counts else none

-- Two events, the second cut by the reads, and a line that is not ended.
abbrev sample_reads : List ReadResult
sample_reads =
    record { bytes = codes "data: {}\ndata: {us"; failed = false }
    ∷ record { bytes = codes "age}\ndata: [DONE]\nda"; failed = false }
    ∷ record { bytes = []; failed = true }
    ∷ []

abbrev sample_lines : List Bytes
sample_lines = codes "data: {}" ∷ codes "data: {usage}" ∷ codes "data: [DONE]" ∷ []

stream_tests :
    ((copy_stream sample_usage sample_reads).usage ≡ two_counts)
    × (total_tokens (copy_stream sample_usage sample_reads).usage ≡ pos 42)
unfolding proxy
stream_tests = (refl, refl)

sample_lines-Lacks : All (Lacks newline) sample_lines
sample_lines-Lacks = ground arith

copy_stream_usage_example :
    ((copy_stream sample_usage sample_reads).usage ≡ scan_all sample_usage sample_lines no_usage)
    × ((copy_stream sample_usage sample_reads).leftover ≡ codes "da")
unfolding proxy
copy_stream_usage_example =
    copy_stream_usage sample_usage sample_reads sample_lines (codes "da") sample_lines-Lacks
      (ground arith) refl

abbrev sample_info : KeyInfo
sample_info = record {
  key_id = codes "openserve_live_key";
  role = codes "user";
  allowed_deployments = [];
  rpm = pos 60;
  tpm = pos 1000;
  ip_allowlist = [];
}

abbrev sample_response : UpResponse
sample_response = record { status = 200; headers = []; reads = sample_reads }

-- One deployment with one upstream, one accepted key, one invitation and one peer online.
abbrev sample_services : Services
sample_services = record {
  validate = λ key id. if bytes_eq key (codes "openserve_live_key") then some sample_info else none;
  allow = λ key rpm tpm. allowed;
  prefix_resolve =
      λ id key. if bytes_eq id (codes "llama") then some (codes "10.0.0.7:8000") else none;
  decode_model = λ b. some (codes "llama");
  decode_prompt = λ b.
      some (record { messages = record { role = codes "system"; content = b } ∷ []; prompt = [] });
  decode_usage = sample_usage;
  request_builds = λ m u. true;
  send = λ up. answered sample_response;
  random_bytes = some (codes "ab");
  unix_nano = 0;
  peer_relay_url = codes "http://relay";
  has_db = true;
  invite_count = λ p k. some 1;
  relay_online = λ p. some true;
  relay_forward = λ p m b. answered sample_response;
}

abbrev sample_headers : Headers
sample_headers =
    (codes "Authorization", codes "Bearer openserve_live_key" ∷ [])
    ∷ (codes "X-Openserve-Key-Id", codes "forged" ∷ [])
    ∷ []

abbrev request_to : Bytes → HttpRequest
request_to path = record {
  method = codes "POST";
  path = path;
  raw_query = [];
  headers = sample_headers;
  body = codes "be brief";
  body_fails = false;
  has_body = true;
  content_length = pos 8;
  first_read = 4096;
  remote_addr = codes "192.0.2.1:5000";
}

abbrev model_request : HttpRequest
model_request = request_to (codes "/inference/llama/v1/chat/completions")

abbrev peer_request : HttpRequest
peer_request = request_to (codes "/inference/peer-bob/v1/chat/completions")

abbrev model_up : UpRequest
model_up =
    up_request model_request (codes "/v1/chat/completions") sample_info (codes "10.0.0.7:8000")
      (codes "req_6162")

proxy_tests :
    (sent_requests (serve_http sample_services model_request).effects ≡ model_up ∷ [])
    × (peers_reached (serve_http sample_services model_request).effects ≡ [])
    × (sent_requests (serve_http sample_services peer_request).effects ≡ [])
    × (peers_reached (serve_http sample_services peer_request).effects ≡ codes "bob" ∷ [])
    × ((serve_http sample_services (request_to (codes "/other"))).reply.code ≡ 400)
unfolding proxy
proxy_tests = (refl, refl, refl, refl, refl)

abbrev no_requests : List UpRequest
no_requests = []

abbrev no_peers : List Bytes
no_peers = []

serve_http-IsCleared_example :
    IsCleared sample_services model_request model_up × (no_requests ≡ no_requests)
serve_http-IsCleared_example =
    serve_http-IsCleared sample_services model_request model_up [] proxy_tests.0

cleared : IsCleared sample_services model_request model_up
unfolding proxy
cleared = record {
  id = codes "llama";
  rest = codes "/v1/chat/completions";
  read = model_request;
  info = sample_info;
  upstream = codes "10.0.0.7:8000";
  targeted = refl;
  live = refl;
  valid = refl;
  no_peer = refl;
  in_limits = inl refl;
  routed = refl;
  is_request = refl;
}

IsCleared-serve_http_example :
    sent_requests (serve_http sample_services model_request).effects ≡ model_up ∷ []
unfolding proxy
IsCleared-serve_http_example =
    IsCleared-serve_http sample_services model_request model_up refl cleared refl

abbrev sample_forwarded : Headers
sample_forwarded =
    forward_headers sample_headers (codes "192.0.2.1:5000") (codes "key") (codes "req")

same_prompt : HasSystemPrompt sample_services model_request (codes "be brief")
unfolding proxy
same_prompt = record {
  parsed = record {
    messages = record { role = codes "system"; content = codes "be brief" } ∷ [];
    prompt = [];
  };
  present = refl;
  sized = refl;
  nonempty = refl;
  decodes = refl;
  is_first = refl;
}

abbrev other_request : HttpRequest
other_request = record (request_to (codes "/v1/completions")) { headers = []; first_read = 100 }

other_same_prompt : HasSystemPrompt sample_services other_request (codes "be brief")
unfolding proxy
other_same_prompt = record {
  parsed = record {
    messages = record { role = codes "system"; content = codes "be brief" } ∷ [];
    prompt = [];
  };
  present = refl;
  sized = refl;
  nonempty = refl;
  decodes = refl;
  is_first = refl;
}

serve_http-IsInvited_example :
    IsInvited sample_services peer_request (codes "bob") × (no_peers ≡ no_peers)
serve_http-IsInvited_example =
    serve_http-IsInvited sample_services peer_request (codes "bob") [] proxy_tests.3
