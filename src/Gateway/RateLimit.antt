-- ===== src/Gateway/RateLimit.antt =====
-- Rate limits per API key over a sliding window of one minute:
-- apps/gateway/internal/ratelimit/redis.go, the Lua script that Redis runs atomically included.
pub mod Redis
pub mod Window
pub mod Laws
pub mod Counting
pub mod Sample
mod Tests
use openserve.Prelude.{
  ℕ, ◌+◌, Bytes, cut, format_nat, scan_digits, Bool, true, false, List, [], ◌∷◌, ◌++◌, Option, none,
  some, ◌==◌, if◌then◌else◌,
}
use openserve.Prelude.Words.{ℤ, pos, negsuc, sub_ℕ, leb_ℤ}
use openserve.Gateway.RateLimit.Redis.{SortedSet, Entry}

-- `window`, in milliseconds.
abbrev pub window : ℕ
window = 60000

-- `string.find(member, ':')` twice and `string.sub` between them, then `tonumber(…) or 0`. The
-- members that the gateway writes hold digits there; `tonumber` is modelled for those.
abbrev number_or_zero : ℕ × Bytes → ℕ
number_or_zero (v, []) = v
number_or_zero (v, c ∷ s) = 0

abbrev before_second : Bytes × Option Bytes → ℕ
before_second (tokens, none) = 0
before_second (tokens, some nonce) = number_or_zero (scan_digits 0 tokens)

abbrev behind_first : Bytes × Option Bytes → ℕ
behind_first (ts, none) = 0
behind_first (ts, some rest) = before_second (cut b':' rest)

unfoldable pub member_tokens : Bytes → ℕ
member_tokens member = behind_first (cut b':' member)

-- `fmt.Sprintf("%d:%d:%d", now, tokens, nonce)`
unfoldable pub token_member : ℕ → ℕ → ℕ → Bytes
token_member now tokens nonce =
    format_nat now ++ b':' ∷ (format_nat tokens ++ b':' ∷ format_nat nonce)

unfoldable pub total_tokens : List Entry → ℕ
total_tokens [] = 0
total_tokens (e ∷ es) = member_tokens e.member + total_tokens es

-- `{0, retryMs}` for the oldest entry, `{0, window}` where there is none.
unfoldable pub retry_ms : ℕ → List Entry → ℤ
retry_ms now [] = pos window
retry_ms now (oldest ∷ es) = sub_ℕ (oldest.score + window) now

-- What the script returns through Redis.
pub data RedisItem : Type 0 where
  integer : ℤ → RedisItem
  bulk : Bytes → RedisItem

pub data AllowResult : Type 0 where
  allowed : AllowResult
  denied : ℤ → AllowResult
  limiter_error : AllowResult

abbrev is_one : ℤ → Bool
is_one (pos n) = n == 1
is_one (negsuc n) = false

-- `Allow` on the reply of `script.Run`; `none` is an error of the call.
unfoldable pub read_reply : Option (List RedisItem) → AllowResult
read_reply (some (integer flag ∷ integer retry ∷ more)) =
    if is_one flag then allowed else denied retry
read_reply _ = limiter_error

-- The two sorted sets of a key. Their expiry is left out: it is set to 65 seconds with each entry
-- that is added, when the entry has left the window for 5 seconds.
pub record KeyWindow (Z : Type 0) : Type 0 where
  pub requests : Z
  pub tokens : Z

module _ (redis : SortedSet) where
  open redis use {Z, zadd, zremrangebyscore, zcard, zrange}

  unfoldable pub clean : ℕ → KeyWindow Z → KeyWindow Z
  clean now w = record {
    requests = zremrangebyscore (sub_ℕ now window) w.requests;
    tokens = zremrangebyscore (sub_ℕ now window) w.tokens;
  }

  -- `luaScript` behind its cleanup.
  unfoldable pub check_limits : ℕ → ℤ → ℤ → KeyWindow Z → List RedisItem × KeyWindow Z
  check_limits now rpm tpm w =
      if leb_ℤ rpm (pos (zcard w.requests))
      then (integer (pos 0) ∷ integer (retry_ms now (zrange w.requests)) ∷ [], w)
      else if leb_ℤ tpm (pos (total_tokens (zrange w.tokens)))
      then (integer (pos 0) ∷ integer (retry_ms now (zrange w.tokens)) ∷ [], w)
      else (
        integer (pos 1) ∷ integer (pos 0) ∷ [],
        record w { requests = zadd now (format_nat now) w.requests },
      )

  unfoldable pub lua_script : ℕ → ℤ → ℤ → KeyWindow Z → List RedisItem × KeyWindow Z
  lua_script now rpm tpm w = check_limits now rpm tpm (clean now w)

  -- `Allow`; `reachable` says whether the call of Redis succeeds.
  unfoldable pub allow : Bool → ℕ → ℤ → ℤ → KeyWindow Z → AllowResult × KeyWindow Z
  allow false now rpm tpm w = (read_reply none, w)
  allow true now rpm tpm w =
      let (reply, w') = lua_script now rpm tpm w in (read_reply (some reply), w')

  -- `RecordTokens` for a `tokens` of type `int32`.
  unfoldable pub record_tokens : ℕ → ℤ → ℕ → KeyWindow Z → KeyWindow Z
  record_tokens now (negsuc n) nonce w = w
  record_tokens now (pos tokens) nonce w =
      if tokens == 0
      then w
      else record w { tokens = zadd now (token_member now tokens nonce) w.tokens }
