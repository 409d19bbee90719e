-- ===== src/Gateway/Proxy/CacheKey.antt =====
-- The routing key of a request: `extractCacheKey` of apps/gateway/internal/proxy/proxy.go.
use Prim.Native.Nat.{min}
use openserve.Prelude.{
  ℕ, ◌==◌, Bytes, codes, bytes_eq, take, Bool, false, ◌&&◌, ◌||◌, not, List, [], ◌∷◌, Option, none,
  some, if◌then◌else◌,
}
use openserve.Prelude.Words.{pos, negsuc, ℤ}
use openserve.Prelude.Hash.{fnv32a, format_hex}
use openserve.Gateway.Proxy.Types.{HttpRequest, Message, PromptBody}

abbrev pub prefix_limit : ℕ
prefix_limit = 512

-- `fmt.Sprintf("%x", h.Sum32())` of the first 512 bytes.
unfoldable pub hash_prefix : Bytes → Bytes
hash_prefix text = format_hex (fnv32a (take prefix_limit text))

-- The content of the first system message that is not empty.
unfoldable pub system_content : List Message → Option Bytes
system_content [] = none
system_content (msg ∷ msgs) =
    if bytes_eq msg.role (codes "system") && not (bytes_eq msg.content [])
    then some msg.content
    else system_content msgs

abbrev prompt_key : Bytes → Bytes
prompt_key [] = []
prompt_key (c ∷ s) = hash_prefix (c ∷ s)

abbrev pub content_key : Option Bytes → Bytes → Bytes
content_key (some content) prompt = hash_prefix content
content_key none prompt = prompt_key prompt

unfoldable pub body_key : Option PromptBody → Bytes
body_key none = []
body_key (some b) = content_key (system_content b.messages) b.prompt

abbrev pub is_zero : ℤ → Bool
is_zero (pos n) = n == 0
is_zero (negsuc n) = false

-- One `Read` into a buffer of 8192 bytes.
abbrev pub first_bytes : HttpRequest → Bytes
first_bytes r = take (min 8192 r.first_read) r.body

-- The bytes that were read are put back, so the request is unchanged.
unfoldable pub extract_cache_key : (Bytes → Option PromptBody) → HttpRequest → Bytes
extract_cache_key decode r =
    let buf = first_bytes r in
    if not r.has_body || is_zero r.content_length
    then []
    else if bytes_eq buf []
    then []
    else body_key (decode buf)
