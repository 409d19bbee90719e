-- ===== src/Gateway/Routing/Laws.antt =====
-- About `PrefixResolve` and `watchFile` of apps/gateway/internal/routing/router.go.
use mathlib.Core.List.{Memᴰ}
use openserve.Prelude.{
  ◌%◌, Bytes, lookup, length, get_elem?-Mem, ◌≡◌, refl, ap, ◌⊎◌, inl, inr, ◌||◌, List, [], ◌∷◌,
  Option, none, some, Option-cases, arith, if◌then◌else◌,
}
use openserve.Prelude.Hash.{fnv32a}
use openserve.Gateway.Routing.{
  RouteConfig, FileRouter, Resolved, address, deployment_not_found, indexed, WatchEvent, file_event,
  watch_error, events_closed, done_closed, resolve, pick_pod, prefix_resolve, reload, watch_file,
}

pick_pod-Mem :
    (pod : Bytes) (pods : List Bytes) (key : Bytes)
    → (addr : Bytes) × (pick_pod (pod ∷ pods) key ≡ address addr) × Memᴰ addr (pod ∷ pods)
unfolding pick_pod
pick_pod-Mem pod pods key =
    let (addr, e, m) =
      get_elem?-Mem (pod ∷ pods) (fnv32a key % length (pod ∷ pods)) (omega arith) in
    (addr, ap indexed e, m)

-- The specification of a resolution: an address that the table lists for the deployment, among its
-- pods where it has some and else its service; or the error, where it has neither.
pub data Resolves (fr : FileRouter) (id : Bytes) : Resolved → Type 0 where
  to_pod :
      {addr : Bytes} (pods : List Bytes)
      → lookup id fr.pod_routes ≡ some pods
      → Memᴰ addr pods
      → Resolves fr id (address addr)
  to_service :
      {addr : Bytes}
      → (lookup id fr.pod_routes ≡ none) ⊎ (lookup id fr.pod_routes ≡ some [])
      → lookup id fr.routes ≡ some addr
      → Resolves fr id (address addr)
  to_nothing :
      (lookup id fr.pod_routes ≡ none) ⊎ (lookup id fr.pod_routes ≡ some [])
      → lookup id fr.routes ≡ none
      → Resolves fr id deployment_not_found

resolve-Resolves :
    (fr : FileRouter) (id : Bytes)
    → (lookup id fr.pod_routes ≡ none) ⊎ (lookup id fr.pod_routes ≡ some [])
    → Resolves fr id (resolve fr id)
unfolding resolve
resolve-Resolves fr id h = elim (Option-cases (lookup id fr.routes)) [
  | inl e ↦ rw (e, resolve) (to_nothing h e)
  | inr (addr, e) ↦ rw (e, resolve) (to_service h e)
]

prefix_resolve_at :
    (fr : FileRouter) (id key : Bytes) (pods : Option (List Bytes))
    → lookup id fr.pod_routes ≡ pods
    → Resolves fr id (prefix_resolve fr id key)
unfolding prefix_resolve
prefix_resolve_at fr id key none e = rw (e, prefix_resolve) (resolve-Resolves fr id (inl e))
prefix_resolve_at fr id key (some []) e = rw (e, prefix_resolve) (resolve-Resolves fr id (inr e))
prefix_resolve_at fr id key (some (pod ∷ pods)) e =
    let (addr, picked, m) = pick_pod-Mem pod pods key in
    rw (e, prefix_resolve, picked) (to_pod (pod ∷ pods) e m)

-- Whatever the cache key, `PrefixResolve` answers with one of the pods that the table lists for
-- the deployment if it lists any, else with the deployment's service address, and with
-- `ErrDeploymentNotFound` only where the table has neither; the index never leaves the pod list.
pub prefix_resolve-Resolves :
    (fr : FileRouter) (id key : Bytes) → Resolves fr id (prefix_resolve fr id key)
prefix_resolve-Resolves fr id key = prefix_resolve_at fr id key (lookup id fr.pod_routes) refl

abbrev pub with_config : FileRouter → Option RouteConfig → FileRouter
with_config fr none = fr
with_config fr (some cfg) = record fr { routes = cfg.routes; pod_routes = cfg.pod_routes }

-- The configuration that the table must hold after the watched events: that of the last Write or
-- Create event whose file was read and parsed, before the loop ended; else the one before.
module _ (unmarshal : Bytes → Option RouteConfig) where
  abbrev loaded : Option Bytes → Option RouteConfig
  loaded none = none
  loaded (some file) = unmarshal file

  pub last_good : List WatchEvent → Option RouteConfig
  last_good [] = none
  last_good (file_event write create file ∷ events) =
      let later = last_good events in
      elim later [ some cfg ↦ some cfg | none ↦ if write || create then loaded file else none ]
  last_good (watch_error ∷ events) = last_good events
  last_good (events_closed ∷ events) = none
  last_good (done_closed ∷ events) = none

  -- After any sequence of watcher events the table is that of the last file version that was
  -- read and parsed: failed reloads, other events and watcher errors keep the old routes.
  pub watch_file-last_good :
      (events : List WatchEvent) (fr : FileRouter)
      → watch_file unmarshal events fr ≡ with_config fr (last_good events)
  unfolding watch_file last_good reload
  watch_file-last_good [] fr = refl
  watch_file-last_good (file_event write create none ∷ events) fr =
      ground (arith, watch_file-last_good events fr)
  watch_file-last_good (file_event write create (some file) ∷ events) fr = ground (
    arith,
    watch_file-last_good events fr,
    watch_file-last_good events (reload unmarshal fr (some file)).0,
  )
  watch_file-last_good (watch_error ∷ events) fr = watch_file-last_good events fr
  watch_file-last_good (events_closed ∷ events) fr = refl
  watch_file-last_good (done_closed ∷ events) fr = refl
