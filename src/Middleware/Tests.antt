-- ===== src/Middleware/Tests.antt =====
-- Tests and examples of the middleware.
use openserve.Prelude.{
  Bytes, codes, bytes_eq, cut, trim_space, lookup, insert, select, length, true, false, [], ◌∷◌,
  Option, none, some, ◌≡◌, refl, arith, if◌then◌else◌,
}
use openserve.Prelude.Words.{pos, ◌≤ℤ◌}
use openserve.Middleware.{
  IpKind, Origin, public_ip, real_ip_header, get_real_ip, Store, entry, rate_limit, is_recent,
}
use openserve.Middleware.Laws.{times_of, start, request, Reach-times_of-le}

middleware : Unit {0}
unfolding public_ip real_ip_header get_real_ip entry rate_limit times_of bytes_eq cut trim_space
    lookup insert
middleware = tt

abbrev client : Bytes
client = codes "203.0.113.9"

-- Two requests with a limit of one, a second apart.
abbrev first_store : Store
first_store = (rate_limit (pos 1) 1000000000 client []).1

limit_tests :
    ((rate_limit (pos 1) 1000000000 client []).0 ≡ true)
    × ((rate_limit (pos 1) 2000000000 client first_store).0 ≡ false)
    × ((rate_limit (pos 1) 2000000000 (codes "other") first_store).0 ≡ true)
    × ((rate_limit (pos 1) 61000000000 client first_store).0 ≡ true)
unfolding middleware
limit_tests = (refl, refl, refl, refl)

Reach-times_of-le_example :
    pos (length (select (is_recent 2000000000) (times_of client ((client, 1000000000) ∷ []))))
    ≤ℤ pos 1
unfolding middleware
Reach-times_of-le_example =
    Reach-times_of-le {limit = pos 1}
      (request (request start 1000000000 (omega arith) client) 2000000000 (omega arith) client)
      client (omega arith)

abbrev public_kind : IpKind
public_kind = record {
  loopback = false;
  private = false;
  link_local_unicast = false;
  link_local_multicast = false;
  multicast = false;
}

abbrev origin : Origin
origin = record {
  forwarded_for = codes " 203.0.113.9, 10.0.0.1";
  real_ip = [];
  remote_addr = codes "10.0.0.1:80";
}

abbrev parse_sample : Bytes → Option IpKind
parse_sample text = if bytes_eq text client then some public_kind else none
