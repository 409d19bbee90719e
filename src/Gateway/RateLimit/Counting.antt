-- ===== src/Gateway/RateLimit/Counting.antt =====
-- What a recorded request or token count adds to the window: `RecordTokens` and `luaScript` of
-- apps/gateway/internal/ratelimit/redis.go.
use openserve.Prelude.{
  ℕ, zero, suc, ◌+◌, ◌≤◌, Bytes, bytes_eq, bytes_eq_refl, format_nat, length, select, true, List,
  [], ◌∷◌, ◌≡◌, ◌≢◌, refl, ap, sym, ◌∙◌, arith, if◌then◌else◌,
}
use openserve.Prelude.Words.{ℤ, pos, ◌<ℤ◌}
use openserve.Gateway.RateLimit.Redis.{Entry, SortedSet, without}
use openserve.Gateway.RateLimit.{
  member_tokens, token_member, total_tokens, allowed, KeyWindow, clean, check_limits, lua_script,
  allow, record_tokens,
}
use openserve.Gateway.RateLimit.Window.{
  weigh, weigh-Perm, weigh-select, weigh_ext, weigh_mono, weigh_add, weigh_one, weigh_tokens,
  is_recent, recent, recent-recent, weigh-without,
}
use openserve.Gateway.RateLimit.Laws.{
  member_tokens-token_member, requests_in_window, tokens_in_window, clean-requests, clean-tokens,
  allow_iff,
}

-- The weight of an entry in the window.
abbrev recent_one : ℕ → Entry → ℕ
recent_one now e = if is_recent now e then 1 else 0

abbrev recent_tokens : ℕ → Entry → ℕ
recent_tokens now e = if is_recent now e then member_tokens e.member else 0

-- The weight of an entry in the window with another member than `m`.
abbrev other_one : ℕ → Bytes → Entry → ℕ
other_one now m e = if bytes_eq e.member m then 0 else recent_one now e

abbrev same_one : Bytes → Entry → ℕ
same_one m e = if bytes_eq e.member m then 1 else 0

length-recent : (now : ℕ) (es : List Entry) → length (recent now es) ≡ weigh (recent_one now) es
length-recent now es = sym (weigh_one (recent now es)) ∙ weigh-select (λ e. 1) (is_recent now) es

tokens-recent :
    (now : ℕ) (es : List Entry) → total_tokens (recent now es) ≡ weigh (recent_tokens now) es
tokens-recent now es =
    sym (weigh_tokens (recent now es))
    ∙ weigh-select (λ e. member_tokens e.member) (is_recent now) es

module _ (redis : SortedSet) where
  open redis use {Z, zadd, zremrangebyscore, zcard, zrange, zrange-zadd, zcard_lem, zrange_unique}

  -- A token record with a member that the set does not hold yet adds exactly its tokens to those
  -- that count at that time.
  pub record_tokens-total :
      (now tokens nonce : ℕ) (w : KeyWindow Z)
      → tokens ≢ 0
      → weigh (same_one (token_member now tokens nonce)) (zrange w.tokens) ≡ 0
      → tokens_in_window redis now (record_tokens redis now (pos tokens) nonce w)
        ≡ tokens_in_window redis now w + tokens
  unfolding record_tokens
  record_tokens-total now tokens nonce w h fresh =
      let m = token_member now tokens nonce in
      let z = zadd now m w.tokens in
      let p = weigh-Perm (recent_tokens now) (zrange-zadd now m w.tokens) in
      let keeps = absent-without m (recent_tokens now) (zrange w.tokens) fresh in
      let written : record_tokens redis now (pos tokens) nonce w ≡ record w { tokens = z } =
        ground arith in
      rw written (
        omega (
          arith,
          tokens-recent now (zrange z),
          tokens-recent now (zrange w.tokens),
          p,
          keeps,
          member_tokens-token_member now tokens nonce,
          recent_now now m,
        ))
    where
      absent-without :
          (m : Bytes) (f : Entry → ℕ) (es : List Entry)
          → weigh (same_one m) es ≡ 0
          → weigh f (without m es) ≡ weigh f es
      absent-without m f [] h = refl
      absent-without m f (e ∷ es) h = ground (arith, absent-without m f es)

      recent_now :
          (now : ℕ) (m : Bytes)
          → recent_tokens now (record { member = m; score = now }) ≡ member_tokens m
      recent_now now m = ground arith

module _ (redis : SortedSet) (now : ℕ) where
  open redis use {Z, zadd, zrange, zrange-zadd, zrange_unique}

  -- The requests in the window that are dated otherwise than `now`.
  others : KeyWindow Z → ℕ
  others w = weigh (other_one now (format_nat now)) (zrange w.requests)

  requests-le-others : (w : KeyWindow Z) → requests_in_window redis now w ≤ others w + 1
  unfolding others
  requests-le-others w =
      let m = format_nat now in
      let es = zrange w.requests in
      omega (
        arith,
        length-recent now es,
        weigh_mono (recent_one now) (λ e. other_one now m e + same_one m e) es (λ e. ground arith),
        weigh_add (other_one now m) (same_one m) es,
        weigh_one (select (λ e. bytes_eq e.member m) es),
        weigh-select (λ (e : Entry). 1) (λ (e : Entry). bytes_eq e.member m) es,
        zrange_unique m w.requests,
      )

  others-le-requests : (w : KeyWindow Z) → others w ≤ requests_in_window redis now w
  unfolding others
  others-le-requests w =
      let es = zrange w.requests in
      omega (
        arith,
        length-recent now es,
        weigh_mono (other_one now (format_nat now)) (recent_one now) es (λ e. ground arith),
      )

  others-clean : (w : KeyWindow Z) → others (clean redis now w) ≡ others w
  unfolding others
  others-clean w =
      let m = format_nat now in
      ap (weigh (other_one now m)) (clean-requests redis now w)
      ∙ weigh-select (other_one now m) (is_recent now) (zrange w.requests)
      ∙ weigh_ext (λ e. if is_recent now e then other_one now m e else 0) (other_one now m)
          (zrange w.requests) (λ e. ground arith)

  others-zadd :
      (w : KeyWindow Z)
      → others (record w { requests = zadd now (format_nat now) w.requests }) ≡ others w
  unfolding others
  others-zadd w =
      let m = format_nat now in
      let zero_at : other_one now m (record { member = m; score = now }) ≡ 0 =
        ground (arith, bytes_eq_refl m) in
      omega (
        arith,
        weigh-Perm (other_one now m) (zrange-zadd now m w.requests),
        zero_at,
        weigh-without (other_one now m) m (zrange w.requests) (λ e h. ground arith),
      )

  module _ (rpm tpm : ℤ) where
    allow-others : (w : KeyWindow Z) → others (allow redis true now rpm tpm w).1 ≡ others w
    unfolding allow lua_script check_limits
    allow-others w = ground (arith, others-clean w, others-zadd (clean redis now w))

    allow-tokens :
        (w : KeyWindow Z)
        → tokens_in_window redis now (allow redis true now rpm tpm w).1
          ≡ tokens_in_window redis now w
    unfolding allow lua_script check_limits
    allow-tokens w =
        let kept : tokens_in_window redis now (clean redis now w) ≡ tokens_in_window redis now w =
          ap (λ es. total_tokens (recent now es)) (clean-tokens redis now w)
          ∙ ap total_tokens (recent-recent now (zrange w.tokens)) in
        ground (arith, kept)

    -- The state after a number of requests at the time `now`.
    pub after : ℕ → KeyWindow Z → KeyWindow Z
    after zero w = w
    after (suc k) w = (allow redis true now rpm tpm (after k w)).1

    after-keeps :
        (k : ℕ) (w : KeyWindow Z)
        → (others (after k w) ≡ others w)
          × (tokens_in_window redis now (after k w) ≡ tokens_in_window redis now w)
    unfolding after
    after-keeps zero w = (refl, refl)
    after-keeps (suc k) w =
        let (o, t) = after-keeps k w in (allow-others (after k w) ∙ o, allow-tokens (after k w) ∙ t)

    -- Requests of one millisecond count as one: with room for two requests, any number of requests
    -- at that time is admitted, whatever the limit per minute.
    pub allow_burst :
        (k : ℕ) (w : KeyWindow Z)
        → pos (requests_in_window redis now w + 1) <ℤ rpm
        → pos (tokens_in_window redis now w) <ℤ tpm
        → (allow redis true now rpm tpm (after k w)).0 ≡ allowed
    allow_burst k w room tokens =
        let (o, t) = after-keeps k w in
        (allow_iff redis now rpm tpm (after k w)).1
          (omega (arith, o, requests-le-others (after k w), others-le-requests w), omega (arith, t))
