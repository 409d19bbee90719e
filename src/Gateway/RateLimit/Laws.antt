-- ===== src/Gateway/RateLimit/Laws.antt =====
-- About `Allow` and `RecordTokens` of apps/gateway/internal/ratelimit/redis.go: admission, waiting
-- times and the size of the window.
use openserve.Prelude.{
  ℕ, ◌+◌, ◌≤◌, Bytes, bytes_eq, format_nat, format_nat-Lacks, scan_digits-format_nat, cut-append,
  length, select, length-select-le, All, Bool, true, false, not, List, [], ◌∷◌, append-nil, ◌≡◌,
  ◌↔◌, ◌⊎◌, refl, ap, ◌∙◌, arith, Bool-cases, inl, inr,
}
use openserve.Prelude.Words.{ℤ, pos, negsuc, sub_ℕ, ◌<ℤ◌, ◌≤ℤ◌}
use openserve.Gateway.RateLimit.Redis.{Entry, SortedSet, without}
use openserve.Gateway.RateLimit.{
  window, member_tokens, token_member, total_tokens, retry_ms, allowed, denied, read_reply,
  KeyWindow, clean, check_limits, lua_script, allow, record_tokens,
}
use openserve.Gateway.RateLimit.Window.{weigh-Perm, weigh_one, is_recent, recent, above-eq-recent}

-- What `RecordTokens` writes is what the script reads back, whatever the time and the nonce.
pub member_tokens-token_member :
    (now tokens nonce : ℕ) → member_tokens (token_member now tokens nonce) ≡ tokens
unfolding member_tokens token_member
member_tokens-token_member now tokens nonce =
    rw
      (
        cut-append b':' (format_nat now) _ (format_nat-Lacks b':' now refl),
        cut-append b':' (format_nat tokens) _ (format_nat-Lacks b':' tokens refl),
      )
      (rw (rw (append-nil (format_nat tokens)) at (scan_digits-format_nat tokens [] tt)))

module _ (redis : SortedSet) where
  open redis use {
    Z, zadd, zremrangebyscore, zcard, zrange, zrange-zadd, zrange-zremrangebyscore, zcard_lem,
    zrange-IsSorted, zrange_unique,
  }

  -- The entries of the request set that count at the time `now`, and the tokens in those of the other.
  abbrev pub requests_in_window : ℕ → KeyWindow Z → ℕ
  requests_in_window now w = length (recent now (zrange w.requests))

  abbrev pub tokens_in_window : ℕ → KeyWindow Z → ℕ
  tokens_in_window now w = total_tokens (recent now (zrange w.tokens))

  pub clean-requests :
      (now : ℕ) (w : KeyWindow Z)
      → zrange (clean redis now w).requests ≡ recent now (zrange w.requests)
  unfolding clean
  clean-requests now w =
      zrange-zremrangebyscore (sub_ℕ now window) w.requests
      ∙ above-eq-recent now (zrange w.requests)

  pub clean-tokens :
      (now : ℕ) (w : KeyWindow Z) → zrange (clean redis now w).tokens ≡ recent now (zrange w.tokens)
  unfolding clean
  clean-tokens now w =
      zrange-zremrangebyscore (sub_ℕ now window) w.tokens ∙ above-eq-recent now (zrange w.tokens)

  pub clean-zcard :
      (now : ℕ) (w : KeyWindow Z) → zcard (clean redis now w).requests ≡ requests_in_window now w
  clean-zcard now w = zcard_lem (clean redis now w).requests ∙ ap length (clean-requests now w)

  -- With Redis reachable, a request is admitted exactly when the set of the key's requests has fewer
  -- entries of the last minute than the request limit, and the tokens in the entries of the last
  -- minute of its token set are below the token limit. Entries are not requests: those of one
  -- millisecond share one.
  pub allow_iff :
      (now : ℕ) (rpm tpm : ℤ) (w : KeyWindow Z)
      → ((allow redis true now rpm tpm w).0 ≡ allowed)
        ↔ ((pos (requests_in_window now w) <ℤ rpm) × (pos (tokens_in_window now w) <ℤ tpm))
  unfolding allow lua_script check_limits read_reply
  allow_iff now rpm tpm w =
      let r = clean-zcard now w in
      let t = ap total_tokens (clean-tokens now w) in
      (λ h. ground (arith, r, t), λ h. ground (arith, r, t))

  retry_bounds :
      (now : ℕ) (es : List Entry)
      → All (λ e. e.score ≤ now) es
      → (pos 0 <ℤ retry_ms now (recent now es)) × (retry_ms now (recent now es) ≤ℤ pos window)
  unfolding retry_ms
  retry_bounds now [] _ = omega arith
  retry_bounds now (e ∷ es) (h, k) = elim (Bool-cases (is_recent now e)) [
    | inl recent_one ↦ rw (recent_one, select) (ground arith)
    | inr old ↦ rw (old, select) (retry_bounds now es k)
  ]

  denied-retry_ms :
      (now : ℕ) (rpm tpm retry : ℤ) (w : KeyWindow Z)
      → (allow redis true now rpm tpm w).0 ≡ denied retry
      → (retry ≡ retry_ms now (zrange (clean redis now w).requests))
        ⊎ (retry ≡ retry_ms now (zrange (clean redis now w).tokens))
  unfolding allow lua_script check_limits read_reply
  denied-retry_ms now rpm tpm retry w e = ground arith

  -- A refused request is told to wait more than nothing and at most the window, if no entry is
  -- dated later than the request.
  pub allow-denied_bounds :
      (now : ℕ) (rpm tpm retry : ℤ) (w : KeyWindow Z)
      → All (λ e. e.score ≤ now) (zrange w.requests)
      → All (λ e. e.score ≤ now) (zrange w.tokens)
      → (allow redis true now rpm tpm w).0 ≡ denied retry
      → (pos 0 <ℤ retry) × (retry ≤ℤ pos window)
  allow-denied_bounds now rpm tpm retry w hr ht e = elim (denied-retry_ms now rpm tpm retry w e) [
    | inl r ↦
        rw (r ∙ ap (retry_ms now) (clean-requests now w)) (retry_bounds now (zrange w.requests) hr)
    | inr t ↦
        rw (t ∙ ap (retry_ms now) (clean-tokens now w)) (retry_bounds now (zrange w.tokens) ht)
  ]

  pub length-zadd-le : (score : ℕ) (m : Bytes) (z : Z) → zcard (zadd score m z) ≤ zcard z + 1
  length-zadd-le score m z =
      let p = weigh-Perm (λ e. 1) (zrange-zadd score m z) in
      omega (
        arith,
        p,
        weigh_one (zrange (zadd score m z)),
        weigh_one (without m (zrange z)),
        length-select-le (λ e. not (bytes_eq e.member m)) (zrange z),
        zcard_lem z,
        zcard_lem (zadd score m z),
      )

  -- One operation on a key whose limits are `rpm` and `tpm`, at any time.
  pub data Step (rpm tpm : ℤ) (w : KeyWindow Z) : KeyWindow Z → Type 0 where
    request : (up : Bool) (now : ℕ) → Step rpm tpm w (allow redis up now rpm tpm w).1
    tokens_used :
        (now : ℕ) (tokens : ℤ) (nonce : ℕ) → Step rpm tpm w (record_tokens redis now tokens nonce w)

  pub data Reach (rpm tpm : ℤ) (w : KeyWindow Z) : KeyWindow Z → Type 0 where
    here : Reach rpm tpm w w
    next : {v u : KeyWindow Z} → Reach rpm tpm w v → Step rpm tpm v u → Reach rpm tpm w u

  clean-zcard-le :
      (now : ℕ) (w : KeyWindow Z) → zcard (clean redis now w).requests ≤ zcard w.requests
  clean-zcard-le now w = omega (
    arith,
    clean-zcard now w,
    zcard_lem w.requests,
    length-select-le (is_recent now) (zrange w.requests),
  )

  Step-zcard-le :
      {rpm tpm : ℤ} {v u : KeyWindow Z}
      → pos (zcard v.requests) ≤ℤ rpm
      → Step rpm tpm v u
      → pos (zcard u.requests) ≤ℤ rpm
  unfolding allow lua_script check_limits record_tokens
  Step-zcard-le {v} h (request false now) = h
  Step-zcard-le {v} h (request true now) = ground (
    arith,
    clean-zcard-le now v,
    length-zadd-le now (format_nat now) (clean redis now v).requests,
  )
  Step-zcard-le {v} h (tokens_used now (pos tokens) nonce) = ground arith
  Step-zcard-le {v} h (tokens_used now (negsuc n) nonce) = h

  -- Whatever requests and token records come, at whatever times, the limiter never holds more
  -- request entries for a key than its limit per minute, if it started with no more.
  pub Reach-zcard-le :
      {rpm tpm : ℤ} {w u : KeyWindow Z}
      → pos (zcard w.requests) ≤ℤ rpm
      → Reach rpm tpm w u
      → pos (zcard u.requests) ≤ℤ rpm
  Reach-zcard-le h here = h
  Reach-zcard-le h (next r s) = Step-zcard-le (Reach-zcard-le h r) s
