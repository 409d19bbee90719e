-- ===== src/Gateway/RateLimit/Tests.antt =====
-- Tests and examples of the rate limiter.
use openserve.Prelude.{bytes_eq, format_nat, scan_digits, cut, true, false, ◌≡◌, ◌↔◌, refl, arith}
use openserve.Prelude.Words.{pos, ◌<ℤ◌, ◌≤ℤ◌}
use openserve.Gateway.RateLimit.{
  window, member_tokens, token_member, total_tokens, retry_ms, allowed, denied, limiter_error,
  KeyWindow, clean, check_limits, lua_script, read_reply, allow, record_tokens,
}
use openserve.Gateway.RateLimit.Laws.{
  requests_in_window, tokens_in_window, allow_iff, allow-denied_bounds, request, tokens_used, here,
  next, Reach-zcard-le,
}
use openserve.Gateway.RateLimit.Sample.{Listed, listed_set}

limiter : Unit {0}
unfolding allow lua_script check_limits clean read_reply record_tokens retry_ms total_tokens
    member_tokens token_member format_nat scan_digits cut bytes_eq
limiter = tt

abbrev idle : KeyWindow Listed
idle = record { requests = listed_set.empty; tokens = listed_set.empty }

abbrev one_request : KeyWindow Listed
one_request = (allow listed_set true 100000 (pos 2) (pos 50) idle).1

abbrev two_requests : KeyWindow Listed
two_requests = (allow listed_set true 100500 (pos 2) (pos 50) one_request).1

abbrev spent : KeyWindow Listed
spent = record_tokens listed_set 100001 (pos 50) 7 one_request

limit_tests :
    ((allow listed_set true 100500 (pos 2) (pos 50) one_request).0 ≡ allowed)
    × ((allow listed_set true 101000 (pos 2) (pos 50) two_requests).0 ≡ denied (pos 59000))
    × ((allow listed_set true 160000 (pos 2) (pos 50) two_requests).0 ≡ allowed)
    × ((allow listed_set true 100002 (pos 2) (pos 50) spent).0 ≡ denied (pos 59999))
    × ((allow listed_set false 100002 (pos 2) (pos 50) spent).0 ≡ limiter_error)
    × ((allow listed_set true 100002 (pos 0) (pos 50) idle).0 ≡ denied (pos 60000))
unfolding limiter
limit_tests = (refl, refl, refl, refl, refl, refl)

allow_iff_example : ((allow listed_set true 101000 (pos 2) (pos 50) two_requests).0 ≡ allowed) ↔ (
    (pos (requests_in_window listed_set 101000 two_requests) <ℤ pos 2)
    × (pos (tokens_in_window listed_set 101000 two_requests) <ℤ pos 50))
allow_iff_example = allow_iff listed_set 101000 (pos 2) (pos 50) two_requests

allow-denied_bounds_example : (pos 0 <ℤ pos 59000) × (pos 59000 ≤ℤ pos window)
unfolding limiter
allow-denied_bounds_example =
    allow-denied_bounds listed_set 101000 (pos 2) (pos 50) (pos 59000) two_requests (omega arith)
      (omega arith) limit_tests.1

Reach-zcard-le_example : pos (listed_set.zcard spent.requests) ≤ℤ pos 2
Reach-zcard-le_example =
    Reach-zcard-le listed_set {rpm = pos 2} {tpm = pos 50} {w = idle} {u = spent} (omega arith)
      (next (next here (request true 100000)) (tokens_used 100001 (pos 50) 7))
