-- ===== src/Middleware.antt =====
-- The middleware of the control API: apps/control-api/internal/middleware/middleware.go.
pub mod Laws
mod Tests
use openserve.Prelude.{
  ℕ, ◌+◌, ltb, length, Bytes, codes, bytes_eq, cut, trim_space, lookup, insert, select, Bool, true,
  false, not, ◌||◌, List, [], ◌∷◌, ◌++◌, Option, none, some, if◌then◌else◌,
}
use openserve.Prelude.Words.{ℤ, pos, leb_ℤ}
use openserve.Prelude.Hex.{hex_encode}

-- `RequestID`: the id that the request and the response get, with what `rand.Read` gives.
abbrev generated_id : Option Bytes → Bytes
generated_id none = codes "unknown"
generated_id (some b) = hex_encode b

unfoldable pub request_id : Bytes → Option Bytes → Bytes
request_id header random = if bytes_eq header [] then generated_id random else header

-- What `net.ParseIP` and the tests of `net.IP` say of an address.
pub record IpKind : Type 0 where
  pub loopback : Bool
  pub private : Bool
  pub link_local_unicast : Bool
  pub link_local_multicast : Bool
  pub multicast : Bool

abbrev pub is_private_ip : IpKind → Bool
is_private_ip k =
    k.loopback || k.private || k.link_local_unicast || k.link_local_multicast || k.multicast

-- The fields of the request that name an address.
pub record Origin : Type 0 where
  pub forwarded_for : Bytes
  pub real_ip : Bytes
  pub remote_addr : Bytes

abbrev pub or_else : Bytes → Bytes → Bytes
or_else [] other = other
or_else (c ∷ s) other = c ∷ s

-- The first element of the list; the text in front of the first comma.
abbrev pub first_forwarded : Bytes → Bytes
first_forwarded xff = trim_space (cut b',' xff).0

-- The text in front of the first comma, but the whole text where that is empty.
abbrev real_forwarded : Bytes → Bytes × Option Bytes → Bytes
real_forwarded xff (c ∷ front, some rest) = trim_space (c ∷ front)
real_forwarded xff _ = trim_space xff

-- `parse_ip` is `net.ParseIP`, `split_host` the host of `net.SplitHostPort`, empty on an error.
module _ (parse_ip : Bytes → Option IpKind) (split_host : Bytes → Bytes) where
  unfoldable pub public_ip : Bytes → Option IpKind → Option Bytes
  public_ip ip none = none
  public_ip ip (some kind) = if is_private_ip kind then none else some ip

  -- `RealIP`: the value of X-Client-IP, if it is set.
  unfoldable pub real_ip_header : Origin → Option Bytes
  unfolding public_ip
  real_ip_header o =
      let ip =
        or_else (or_else (first_forwarded o.forwarded_for) o.real_ip) (split_host o.remote_addr) in
      public_ip ip (parse_ip ip)

  -- `getRealIP`
  unfoldable pub get_real_ip : Origin → Bytes
  get_real_ip o =
      if bytes_eq o.forwarded_for []
      then split_host o.remote_addr
      else real_forwarded o.forwarded_for (cut b',' o.forwarded_for)

-- The time stamps of the requests that were let pass, for each address.
abbrev pub Store : Type 0
Store = List (Bytes × List ℕ)

-- One minute, in nanoseconds.
abbrev pub minute : ℕ
minute = 60000000000

-- `t.After(now.Add(-time.Minute))`
abbrev pub is_recent : ℕ → ℕ → Bool
is_recent now t = ltb now (t + minute)

abbrev pub or_empty : Option (List ℕ) → List ℕ
or_empty none = []
or_empty (some ts) = ts

unfoldable pub entry : Bytes → Store → List ℕ
entry ip store = or_empty (lookup ip store)

-- `RateLimit` for one request: whether it passes, and the store behind it.
unfoldable pub rate_limit : ℤ → ℕ → Bytes → Store → Bool × Store
rate_limit requests_per_minute now ip store =
    let filtered = select (is_recent now) (entry ip store) in
    if leb_ℤ requests_per_minute (pos (length filtered))
    then (false, insert ip filtered store)
    else (true, insert ip (filtered ++ now ∷ []) store)
