-- ===== src/Gateway/Proxy/Types.antt =====
-- The requests, replies and effects of the reverse proxy, and the services that it calls.
use openserve.Prelude.{ℕ, Bytes, Bool, List, Option, String}
use openserve.Prelude.Words.{ℤ}
use openserve.Gateway.Auth.{KeyInfo}
use openserve.Gateway.RateLimit.{AllowResult}
use openserve.Gateway.Proxy.Stream.{Usage, ReadResult}

-- A header map: canonical names with their values.
abbrev pub Headers : Type 0
Headers = List (Bytes × List Bytes)

-- The fields of `*http.Request` that the proxy reads. `body_fails` says that reading the body
-- returns an error, `first_read` how many bytes a first `Read` gives at most.
pub record HttpRequest : Type 0 where
  pub method : Bytes
  pub path : Bytes
  pub raw_query : Bytes
  pub headers : Headers
  pub body : Bytes
  pub body_fails : Bool
  pub has_body : Bool
  pub content_length : ℤ
  pub first_read : ℕ
  pub remote_addr : Bytes

pub record UpRequest : Type 0 where
  pub method : Bytes
  pub url : Bytes
  pub headers : Headers
  pub body : Bytes

pub record UpResponse : Type 0 where
  pub status : ℕ
  pub headers : Headers
  pub reads : List ReadResult

-- `client.Do`: the text of the error, or the response.
pub data Sent : Type 0 where
  failed : String → Sent
  answered : UpResponse → Sent

-- The part of a chat or completion body that `extractCacheKey` decodes.
pub record Message : Type 0 where
  pub role : Bytes
  pub content : Bytes

pub record PromptBody : Type 0 where
  pub messages : List Message
  pub prompt : Bytes

pub data ReplyHeader : Type 0 where
  content_type_json : ReplyHeader
  retry_after : ℤ → ReplyHeader
  request_id : Bytes → ReplyHeader
  copied : Bytes → List Bytes → ReplyHeader

pub data ReplyBody : Type 0 where
  no_body : ReplyBody
  error_json : String → ReplyBody
  stream : Bytes → ReplyBody

pub record Reply : Type 0 where
  pub code : ℕ
  pub headers : List ReplyHeader
  pub body : ReplyBody

pub record InferenceEvent : Type 0 where
  pub key_id : Bytes
  pub deployment_id : Bytes
  pub request_id : Bytes
  pub usage : Usage

-- What the proxy does to its surroundings, in order.
pub data Effect : Type 0 where
  validated : Bytes → Bytes → Effect
  limit_asked : Bytes → ℤ → ℤ → Effect
  sent : UpRequest → Effect
  tokens_recorded : Bytes → ℤ → Effect
  event_written : InferenceEvent → Effect
  invites_asked : Bytes → Bytes → Effect
  online_asked : Bytes → Effect
  peer_forwarded : Bytes → Bytes → Bytes → Effect

-- The answer to one request and the effects on the way.
pub record Run : Type 0 where
  pub reply : Reply
  pub effects : List Effect

-- What the proxy is configured with and calls: the key validator, the limiter, the router, the
-- JSON decoders, the HTTP client, the peer relay and the database.
pub record Services : Type 0 where
  pub validate : Bytes → Bytes → Option KeyInfo
  pub allow : Bytes → ℤ → ℤ → AllowResult
  pub prefix_resolve : Bytes → Bytes → Option Bytes
  pub decode_model : Bytes → Option Bytes
  pub decode_prompt : Bytes → Option PromptBody
  pub decode_usage : Bytes → Option Usage
  pub request_builds : Bytes → Bytes → Bool
  pub send : UpRequest → Sent
  pub random_bytes : Option Bytes
  pub unix_nano : ℕ
  pub peer_relay_url : Bytes
  pub has_db : Bool
  pub invite_count : Bytes → Bytes → Option ℕ
  pub relay_online : Bytes → Option Bool
  pub relay_forward : Bytes → Bytes → Bytes → Sent
