-- ===== src/Gateway/Routing.antt =====
-- The routing table of the gateway: apps/gateway/internal/routing/router.go.
-- The lock is left out: each operation holds it for its whole access to the table.
pub mod Laws
mod Tests
use openserve.Prelude.{
  ℕ, ◌%◌, Bytes, lookup, length, get_elem?, Bool, true, false, ◌||◌, List, [], ◌∷◌, Option, none,
  some, if◌then◌else◌,
}
use openserve.Prelude.Hash.{fnv32a}

-- `routeConfig`, what the YAML file holds.
pub record RouteConfig : Type 0 where
  pub routes : List (Bytes × Bytes)
  pub pod_routes : List (Bytes × List Bytes)

-- `FileRouter`: the two tables, and whether `done` is closed.
pub record FileRouter : Type 0 where
  pub routes : List (Bytes × Bytes)
  pub pod_routes : List (Bytes × List Bytes)
  pub closed : Bool

pub data ReloadError : Type 0 where
  read_failed parse_failed : ReloadError

-- What `(string, error)` and an index out of range come to.
pub data Resolved : Type 0 where
  address : Bytes → Resolved
  deployment_not_found : Resolved
  out_of_range : Resolved

-- An event that `watchFile` selects. A file event says whether its bits hold Write or Create, and
-- what reading the file gives at that time.
pub data WatchEvent : Type 0 where
  file_event : Bool → Bool → Option Bytes → WatchEvent
  watch_error : WatchEvent
  events_closed : WatchEvent
  done_closed : WatchEvent

abbrev found : Option Bytes → Resolved
found none = deployment_not_found
found (some addr) = address addr

abbrev indexed : Option Bytes → Resolved
indexed none = out_of_range
indexed (some addr) = address addr

unfoldable pub resolve : FileRouter → Bytes → Resolved
resolve fr id = found (lookup id fr.routes)

-- `int` has 64 bits, so `int(h.Sum32())` is not negative.
unfoldable pub pick_pod : List Bytes → Bytes → Resolved
pick_pod pods key = indexed (get_elem? pods (fnv32a key % length pods))

unfoldable pub prefix_resolve : FileRouter → Bytes → Bytes → Resolved
prefix_resolve fr id key = elim (lookup id fr.pod_routes) [
  | none ↦ resolve fr id
  | some [] ↦ resolve fr id
  | some (pod ∷ pods) ↦ pick_pod (pod ∷ pods) key
]

-- `unmarshal` is `yaml.Unmarshal` into a `routeConfig`.
module _ (unmarshal : Bytes → Option RouteConfig) where
  unfoldable pub reload : FileRouter → Option Bytes → FileRouter × Option ReloadError
  reload fr none = (fr, some read_failed)
  reload fr (some file) = elim (unmarshal file) [
    | none ↦ (fr, some parse_failed)
    | some cfg ↦ (record fr { routes = cfg.routes; pod_routes = cfg.pod_routes }, none)
  ]

  -- `NewFileRouter`: an error of the first load is returned.
  unfoldable pub new_file_router : Option Bytes → Option FileRouter
  new_file_router file =
      let (fr, err) = reload (record { routes = []; pod_routes = []; closed = false }) file in
      elim err [ none ↦ some fr | some e ↦ none ]

  -- The loop of `watchFile` over the events that it receives.
  unfoldable pub watch_file : List WatchEvent → FileRouter → FileRouter
  watch_file [] fr = fr
  watch_file (file_event write create file ∷ events) fr =
      watch_file events (if write || create then (reload fr file).0 else fr)
  watch_file (watch_error ∷ events) fr = watch_file events fr
  watch_file (events_closed ∷ events) fr = fr
  watch_file (done_closed ∷ events) fr = fr

unfoldable pub close : FileRouter → FileRouter
close fr = record fr { closed = true }
