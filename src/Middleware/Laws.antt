-- ===== src/Middleware/Laws.antt =====
-- About `RateLimit` and `RealIP` of apps/control-api/internal/middleware/middleware.go.
use openserve.Prelude.{
  Option, none, some, Option-cases, ℕ, ◌≤◌, length, Bytes, bytes_eq, bytes_eq_iff, lookup, insert,
  lookup-insert, select, Bool, true, false, List, [], ◌∷◌, ◌++◌, ◌≡◌, ◌⊎◌, inl, inr, refl, arith,
  Bool-cases, if◌then◌else◌,
}
use openserve.Prelude.Words.{ℤ, pos, leb_ℤ, ◌≤ℤ◌, ◌<ℤ◌}
use openserve.Middleware.{
  IpKind, Origin, is_private_ip, public_ip, or_else, first_forwarded, real_ip_header, Store,
  is_recent, entry, rate_limit,
}

-- What is recent at a later time is recent before; selecting twice selects by the later time.
select_later :
    (now later : ℕ) (ts : List ℕ)
    → now ≤ later
    → length (select (is_recent later) (select (is_recent now) ts))
      ≡ length (select (is_recent later) ts)
select_later now later [] h = refl
select_later now later (t ∷ ts) h = ground (arith, select_later now later ts h)

length-select_later :
    (now later : ℕ) (ts : List ℕ)
    → now ≤ later
    → length (select (is_recent later) ts) ≤ length (select (is_recent now) ts)
length-select_later now later [] h = omega arith
length-select_later now later (t ∷ ts) h = ground (arith, length-select_later now later ts h)

length-select-append :
    (now t : ℕ) (ts : List ℕ)
    → length (select (is_recent now) (ts ++ t ∷ [])) ≡ length (select (is_recent now) (t ∷ ts))
length-select-append now t [] = refl
length-select-append now t (s ∷ ts) = ground (arith, length-select-append now t ts)

-- The times of an address among the requests that passed.
unfoldable pub times_of : Bytes → List (Bytes × ℕ) → List ℕ
times_of ip [] = []
times_of ip ((p, t) ∷ passed) =
    let rest = times_of ip passed in if bytes_eq p ip then t ∷ rest else rest

abbrev pub passed_with : Bool → Bytes → ℕ → List (Bytes × ℕ) → List (Bytes × ℕ)
passed_with true ip now passed = (ip, now) ∷ passed
passed_with false ip now passed = passed

-- The stores that requests at times that do not go back lead to, with the last time and the
-- requests that passed.
pub data Reach (limit : ℤ) : ℕ → Store → List (Bytes × ℕ) → Type 0 where
  start : Reach limit 0 [] []
  request :
      {last : ℕ}
      → {store : Store} → {passed : List (Bytes × ℕ)} → Reach limit last store passed
      → (now : ℕ) → last ≤ now
      → (ip : Bytes)
      → Reach limit now
          (rate_limit limit now ip store).1
          (passed_with (rate_limit limit now ip store).0 ip now passed)

entry-insert :
    (ip other : Bytes) (ts : List ℕ) (store : Store)
    → entry other (insert ip ts store) ≡ (if bytes_eq ip other then ts else entry other store)
unfolding entry
entry-insert ip other ts store = ground (arith, lookup-insert ip other ts store)

-- The requests of an address that the store still counts at a time.
abbrev counted : ℕ → Bytes → Store → List ℕ
counted now ip store = select (is_recent now) (entry ip store)

rate_limit-cases :
    (limit : ℤ) (now : ℕ) (ip : Bytes) (store : Store)
    → ((limit ≤ℤ pos (length (counted now ip store)))
        × (rate_limit limit now ip store ≡ (false, insert ip (counted now ip store) store)))
      ⊎ ((pos (length (counted now ip store)) <ℤ limit)
          × (rate_limit limit now ip store
              ≡ (true, insert ip (counted now ip store ++ now ∷ []) store)))
unfolding rate_limit
rate_limit-cases limit now ip store =
    elim (Bool-cases (leb_ℤ limit (pos (length (counted now ip store))))) [
      | inl full ↦ inl (ground arith, rw full)
      | inr free ↦ inr (ground arith, rw free)
    ]

times_of_passed :
    (ip other : Bytes) (now : ℕ) (passed : List (Bytes × ℕ))
    → times_of other ((ip, now) ∷ passed)
      ≡ (if bytes_eq ip other then now ∷ times_of other passed else times_of other passed)
unfolding times_of
times_of_passed ip other now passed = refl

-- From the last time on, the store counts for each address the requests that passed.
Reach-entry :
    {limit : ℤ} {last : ℕ} {store : Store} {passed : List (Bytes × ℕ)}
    → Reach limit last store passed
    → (ip : Bytes) (later : ℕ) → last ≤ later
    → length (counted later ip store) ≡ length (select (is_recent later) (times_of ip passed))
unfolding entry lookup times_of
Reach-entry start ip later h = refl
Reach-entry {limit} (request {last} {store} {passed} r now h ip) other later k =
    let before = Reach-entry r other later (omega arith) in
    elim (rate_limit-cases limit now ip store) [
      | inl (full, e) ↦ rw e (
          ground (
            arith,
            entry-insert ip other (counted now ip store) store,
            select_later now later (entry ip store) k,
            bytes_eq_iff ip other,
          ))
      | inr (free, e) ↦ rw e (
          ground (
            arith,
            entry-insert ip other (counted now ip store ++ now ∷ []) store,
            select_later now later (entry ip store) k,
            length-select-append later now (counted now ip store),
            bytes_eq_iff ip other,
          ))
    ]

-- Whatever requests come from whatever addresses, at times that do not go back: at the time of
-- each of them, the requests of one address that passed within the last minute are at most the
-- limit, if the limit is not negative.
pub Reach-times_of-le :
    {limit : ℤ} {last : ℕ} {store : Store} {passed : List (Bytes × ℕ)}
    → Reach limit last store passed
    → (ip : Bytes) → pos 0 ≤ℤ limit
    → pos (length (select (is_recent last) (times_of ip passed))) ≤ℤ limit
unfolding times_of
Reach-times_of-le start ip z = z
Reach-times_of-le {limit} (request {last} {store} {passed} r now h ip) other z =
    let before = Reach-times_of-le r other z in
    let count = Reach-entry r ip now h in
    elim (rate_limit-cases limit now ip store) [
      | inl (full, e) ↦
          rw e (omega (arith, before, length-select_later last now (times_of other passed) h))
      | inr (free, e) ↦ rw e (
          ground (
            arith,
            before,
            count,
            length-select_later last now (times_of other passed) h,
            bytes_eq_iff ip other,
          ))
    ]

module _ (parse_ip : Bytes → Option IpKind) (split_host : Bytes → Bytes) where
  public_ip-none : (ip out : Bytes) → ¬ (public_ip parse_ip split_host ip none ≡ some out)
  unfolding public_ip
  public_ip-none ip out e = ground arith

  public_ip-some :
      (ip out : Bytes) (kind : IpKind)
      → public_ip parse_ip split_host ip (some kind) ≡ some out
      → (ip ≡ out) × (is_private_ip kind ≡ false)
  unfolding public_ip
  public_ip-some ip out kind e = (ground arith, ground arith)

-- X-Client-IP is set only to a text that parses as an address which is in none of the internal
-- ranges, wherever that text was taken from.
pub real_ip_header_lem :
    (parse_ip : Bytes → Option IpKind) (split_host : Bytes → Bytes) (o : Origin) (ip : Bytes)
    → real_ip_header parse_ip split_host o ≡ some ip
    → (kind : IpKind) × (parse_ip ip ≡ some kind) × (is_private_ip kind ≡ false)
unfolding real_ip_header
real_ip_header_lem parse_ip split_host o ip e =
    let found =
      or_else (or_else (first_forwarded o.forwarded_for) o.real_ip) (split_host o.remote_addr) in
    elim (Option-cases (parse_ip found)) [
      | inl lost ↦ absurd (public_ip-none parse_ip split_host found ip (rw lost at e))
      | inr (kind, parsed) ↦
          let (same, outside) = public_ip-some parse_ip split_host found ip kind (rw parsed at e) in
          (kind, rw same at parsed, outside)
    ]
