-- ===== src/Gateway/RateLimit/Redis.antt =====
-- The sorted sets of Redis, as far as the gateway uses them: what the documentation of ZADD,
-- ZREMRANGEBYSCORE, ZCARD and ZRANGE says of a key's members and scores.
use mathlib.Core.List.{Perm}
use openserve.Prelude.{ℕ, ◌≤◌, Bytes, bytes_eq, not, length, select, List, [], ◌∷◌, ◌≡◌, All}
use openserve.Prelude.Words.{ℤ, pos, ltb_ℤ}

pub record Entry : Type 0 where
  pub member : Bytes
  pub score : ℕ

abbrev pub without : Bytes → List Entry → List Entry
without m = select (λ e. not (bytes_eq e.member m))

-- The scores that lie above a bound.
abbrev pub above : ℤ → List Entry → List Entry
above bound = select (λ e. ltb_ℤ bound (pos e.score))

abbrev pub IsSorted : List Entry → Type 0
IsSorted [] = Unit
IsSorted (e ∷ es) = All (λ f. e.score ≤ f.score) es × IsSorted es

pub record SortedSet : Type 1 where
  pub Z : Type 0
  pub empty : Z
  pub zadd : ℕ → Bytes → Z → Z
  -- ZREMRANGEBYSCORE key -inf bound
  pub zremrangebyscore : ℤ → Z → Z
  pub zcard : Z → ℕ
  -- ZRANGE key 0 -1 WITHSCORES
  pub zrange : Z → List Entry
  pub zrange-empty : zrange empty ≡ []
  pub zrange-zadd :
      (score : ℕ) (m : Bytes) (z : Z)
      → Perm (zrange (zadd score m z)) (record { member = m; score = score } ∷ without m (zrange z))
  pub zrange-zremrangebyscore :
      (bound : ℤ) (z : Z) → zrange (zremrangebyscore bound z) ≡ above bound (zrange z)
  pub zcard_lem : (z : Z) → zcard z ≡ length (zrange z)
  pub zrange-IsSorted : (z : Z) → IsSorted (zrange z)
  -- A member occurs once.
  pub zrange_unique :
      (m : Bytes) (z : Z) → length (select (λ e. bytes_eq e.member m) (zrange z)) ≤ 1
