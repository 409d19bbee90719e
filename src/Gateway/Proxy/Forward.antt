-- ===== src/Gateway/Proxy/Forward.antt =====
-- Behind key validation: rate limit, routing, the upstream request and its answer, in
-- `ServeHTTP` of apps/gateway/internal/proxy/proxy.go.
use Prim.Native.String
use openserve.Prelude.{
  ℕ, ◌+◌, leb, Bytes, codes, bytes_eq, trim_prefix, lookup, insert, format_nat, select, map, Bool,
  not, ◌&&◌, ◌||◌, List, [], ◌∷◌, ◌++◌, Option, none, some, String, if◌then◌else◌,
}
use openserve.Prelude.Hex.{hex_encode}
use openserve.Prelude.Words.{pos, ltb_ℤ}
use openserve.Gateway.Auth.{KeyInfo}
use openserve.Gateway.RateLimit.{AllowResult, allowed, denied, limiter_error}
use openserve.Gateway.Proxy.Stream.{Usage, copy_stream, total_tokens}
use openserve.Gateway.Proxy.Types.{
  Headers, HttpRequest, UpRequest, InferenceEvent, Sent, failed, answered, ReplyHeader,
  content_type_json, retry_after, request_id, copied, error_json, stream, Effect, limit_asked, sent,
  tokens_recorded, event_written, Run, Services,
}
use openserve.Gateway.Proxy.CacheKey.{extract_cache_key}

-- `errJSON`, as the whole answer.
unfoldable pub refuse : ℕ → String → Run
refuse code msg = record {
  reply = record { code = code; headers = content_type_json ∷ []; body = error_json msg };
  effects = [];
}

-- An effect in front of a run.
abbrev pub note : Effect → Run → Run
note e run = record run { effects = e ∷ run.effects }

-- A header set in front of the answer's.
abbrev pub with_header : ReplyHeader → Run → Run
with_header h run = record run { reply = record (run.reply) { headers = h ∷ run.reply.headers } }

-- `r.Header.Get(name)`
abbrev first_value : Option (List Bytes) → Bytes
first_value none = []
first_value (some []) = []
first_value (some (v ∷ vs)) = v

unfoldable pub header_value : Bytes → Headers → Bytes
header_value name headers = first_value (lookup name headers)

abbrev pub lower : ℕ → ℕ
lower c = if leb b'A' c && leb c b'Z' then c + 32 else c

-- `strings.EqualFold` on ASCII text.
unfoldable pub equal_fold : Bytes → Bytes → Bool
equal_fold a b = bytes_eq (map lower a) (map lower b)

abbrev pub authorization : Bytes
authorization = codes "Authorization"

-- The client's headers without Authorization, then the three that the gateway sets.
unfoldable pub forward_headers : Headers → Bytes → Bytes → Bytes → Headers
forward_headers headers remote key_id req_id =
    insert (codes "X-Openserve-Request-Id") (req_id ∷ []) (
      insert (codes "X-Openserve-Key-Id") (key_id ∷ []) (
        insert (codes "X-Forwarded-For") (remote ∷ [])
          (select (λ h. not (equal_fold h.0 authorization)) headers)))

-- `generateRequestID`
unfoldable pub generate_request_id : Option Bytes → ℕ → Bytes
generate_request_id (some b) nano = codes "req_" ++ hex_encode b
generate_request_id none nano = codes "req_" ++ format_nat nano

abbrev with_query : Bytes → Bytes → Bytes
with_query url [] = url
with_query url (c ∷ query) = url ++ b'?' ∷ c ∷ query

abbrev pub upstream_url : Bytes → Bytes → Bytes → Bytes
upstream_url upstream rest query =
    with_query (codes "http://" ++ (upstream ++ b'/' ∷ trim_prefix (b'/' ∷ []) rest)) query

-- The request that goes to the upstream.
unfoldable pub up_request : HttpRequest → Bytes → KeyInfo → Bytes → Bytes → UpRequest
up_request r rest info upstream req_id = record {
  method = r.method;
  url = upstream_url upstream rest r.raw_query;
  headers = forward_headers r.headers r.remote_addr info.key_id req_id;
  body = r.body;
}

-- `writeInferenceEvent`'s arguments.
abbrev pub event_of : KeyInfo → Bytes → Bytes → Usage → InferenceEvent
event_of info id req_id u = record {
  key_id = info.key_id;
  deployment_id = id;
  request_id = req_id;
  usage = u;
}

module _ (services : Services) where
  -- `totalTokens > 0`, then the inference event if the database is there and a count is positive.
  unfoldable pub account : KeyInfo → Bytes → Bytes → Usage → List Effect
  account info id req_id u =
      (if ltb_ℤ (pos 0) (total_tokens u)
        then tokens_recorded info.key_id (total_tokens u) ∷ []
        else [])
      ++ (if services.has_db && (ltb_ℤ (pos 0) u.input_tokens || ltb_ℤ (pos 0) u.output_tokens)
          then event_written (event_of info id req_id u) ∷ []
          else [])

  copy_headers : Headers → List ReplyHeader
  copy_headers [] = []
  copy_headers ((k, vs) ∷ hs) = copied k vs ∷ copy_headers hs

  unfoldable pub answer : KeyInfo → Bytes → Bytes → Sent → Run
  unfolding copy_headers
  answer info id req_id (failed msg) = refuse 502 (String.◌++◌ "upstream model error: " msg)
  answer info id req_id (answered resp) =
      let copy = copy_stream services.decode_usage resp.reads in
      record {
        reply = record {
          code = resp.status;
          headers = copy_headers resp.headers;
          body = stream copy.written;
        };
        effects = account info id req_id copy.usage;
      }

  unfoldable pub forward : HttpRequest → Bytes → Bytes → KeyInfo → Bytes → Bytes → Run
  forward r id rest info upstream req_id =
      let up = up_request r rest info upstream req_id in
      if services.request_builds r.method (upstream_url upstream rest r.raw_query)
      then note (sent up) (answer info id req_id (services.send up))
      else refuse 500 "failed to build upstream request"

  abbrev pub request_id_of : HttpRequest → Bytes
  request_id_of r =
      let given = header_value (codes "X-Request-Id") r.headers in
      if bytes_eq given []
      then generate_request_id services.random_bytes services.unix_nano
      else given

  unfoldable pub route_found : HttpRequest → Bytes → Bytes → KeyInfo → Option Bytes → Run
  unfolding forward
  route_found r id rest info none = refuse 503 "model deployment not available or scaled to zero"
  route_found r id rest info (some upstream) =
      with_header (request_id (request_id_of r)) (forward r id rest info upstream (request_id_of r))

  unfoldable pub route : HttpRequest → Bytes → Bytes → KeyInfo → Run
  unfolding route_found
  route r id rest info =
      route_found r id rest info
        (services.prefix_resolve id (extract_cache_key services.decode_prompt r))

  -- An error of the limiter lets the request pass.
  unfoldable pub after_limit : HttpRequest → Bytes → Bytes → KeyInfo → AllowResult → Run
  unfolding route
  after_limit r id rest info allowed = route r id rest info
  after_limit r id rest info limiter_error = route r id rest info
  after_limit r id rest info (denied retry) =
      with_header (retry_after retry) (refuse 429 "rate limit exceeded")

  unfoldable pub rate_limited : HttpRequest → Bytes → Bytes → KeyInfo → Run
  unfolding after_limit
  rate_limited r id rest info =
      note (limit_asked info.key_id info.rpm info.tpm)
        (after_limit r id rest info (services.allow info.key_id info.rpm info.tpm))
