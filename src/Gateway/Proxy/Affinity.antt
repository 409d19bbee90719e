-- ===== src/Gateway/Proxy/Affinity.antt =====
-- About `extractCacheKey` of apps/gateway/internal/proxy/proxy.go and the pod that a request is
-- routed to.
use openserve.Prelude.{[], Bytes, take, some, ◌≡◌, bytes_eq, false, true}
use openserve.Gateway.Proxy.Types.{HttpRequest, PromptBody, Services}
use openserve.Gateway.Proxy.CacheKey.{
  first_bytes, extract_cache_key, system_content, body_key, prefix_limit, hash_prefix, is_zero,
}

-- The decoded body of the request, which is read whole, has this first system message.
pub record HasSystemPrompt (services : Services) (r : HttpRequest) (content : Bytes) : Type 0 where
  pub parsed : PromptBody
  pub present : r.has_body ≡ true
  pub sized : is_zero r.content_length ≡ false
  pub nonempty : bytes_eq (first_bytes r) [] ≡ false
  pub decodes : services.decode_prompt (first_bytes r) ≡ some parsed
  pub is_first : system_content parsed.messages ≡ some content

extract_cache_key-HasSystemPrompt :
    (services : Services) (r : HttpRequest) (content : Bytes)
    → HasSystemPrompt services r content
    → extract_cache_key services.decode_prompt r ≡ hash_prefix content
unfolding extract_cache_key body_key
extract_cache_key-HasSystemPrompt services r content h =
    rw (h.present, h.sized, h.nonempty, h.decodes, h.is_first)

-- Two requests whose bodies, as far as the first read gives them, decode to first non-empty
-- system messages that agree in their first 512 bytes go to the same upstream of a deployment,
-- whatever else they ask.
pub prefix_resolve-extract_cache_key :
    (services : Services) (r s : HttpRequest) (id a b : Bytes)
    → HasSystemPrompt services r a
    → HasSystemPrompt services s b
    → take prefix_limit a ≡ take prefix_limit b
    → services.prefix_resolve id (extract_cache_key services.decode_prompt r)
      ≡ services.prefix_resolve id (extract_cache_key services.decode_prompt s)
unfolding hash_prefix
prefix_resolve-extract_cache_key services r s id a b h k e = rw (
  extract_cache_key-HasSystemPrompt services r a h,
  extract_cache_key-HasSystemPrompt services s b k,
  e,
)
