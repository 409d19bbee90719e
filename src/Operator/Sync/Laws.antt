-- ===== src/Operator/Sync/Laws.antt =====
-- About `syncRoute` of operator/internal/gateway/sync.go: what it leaves in the ConfigMap.
use openserve.Prelude.{
  lookup-insert_same, Bytes, codes, lookup, insert, lookup-insert, lookup-delete, bytes_eq,
  bytes_eq_iff, Bool, true, false, List, Option, none, some, ◌≡◌, refl, ap, ◌∙◌, arith,
  if◌then◌else◌,
}
use openserve.Operator.Sync.{
  Value, mapping, mapping_of, routes_of, Yaml, ConfigMap, Found, found, not_found, get_failed,
  SyncStep, nothing, sync_failed, create, update, config_key, empty_map, file_of, parsed_file,
  changed, written, write_route, sync_route,
}

-- The ConfigMap that a step writes.
abbrev pub map_written : SyncStep → Option ConfigMap
map_written nothing = none
map_written sync_failed = none
map_written (create cm) = some cm
map_written (update cm) = some cm

-- The ConfigMap that a synchronisation starts from.
abbrev pub map_before : Found ConfigMap → ConfigMap
map_before (found cm) = cm
map_before not_found = empty_map
map_before get_failed = empty_map

module _ (yaml : Yaml) where
  open yaml use {Node, text, unmarshal, marshal, marshal-unmarshal}

  -- The file with its routes changed.
  abbrev changed_file : ConfigMap → Bytes → Bytes → Bool → List (Bytes × Value Node)
  changed_file cm id upstream add =
      insert (codes "routes") (mapping (changed yaml id upstream add (routes_of (file_of yaml cm))))
        (file_of yaml cm)

  routes_of-changed_file :
      (cm : ConfigMap) (id upstream : Bytes) (add : Bool)
      → routes_of (changed_file cm id upstream add)
        ≡ changed yaml id upstream add (routes_of (file_of yaml cm))
  unfolding routes_of
  routes_of-changed_file cm id upstream add = ap mapping_of (
      lookup-insert_same (codes "routes")
        (mapping (changed yaml id upstream add (routes_of (file_of yaml cm)))) (file_of yaml cm))

  lookup-changed :
      (id upstream k : Bytes) (add : Bool) (routes : List (Bytes × Node))
      → lookup k (changed yaml id upstream add routes)
        ≡ (if bytes_eq id k then (if add then some (text upstream) else none) else lookup k routes)
  unfolding changed
  lookup-changed id upstream k true routes = lookup-insert id k (text upstream) routes
  lookup-changed id upstream k false routes = lookup-delete id k routes

  written-file :
      (cm cm' : ConfigMap) (file : Option Bytes)
      → map_written (written yaml cm file) ≡ some cm'
      → (out : Bytes) × (file ≡ some out) × (lookup config_key cm'.data_map ≡ some out)
  unfolding written
  written-file cm cm' none e = ground arith
  written-file cm cm' (some out) e =
      let stored = lookup-insert config_key config_key out cm.data_map in
      (out, refl, ground (arith, stored, bytes_eq_iff config_key config_key))

  file_of_read :
      (cm : ConfigMap) (out : Bytes) (back : List (Bytes × Value Node))
      → lookup config_key cm.data_map ≡ some out
      → unmarshal out ≡ some back
      → file_of yaml cm ≡ back
  unfolding file_of parsed_file
  file_of_read cm out back stored parsed = rw (stored, parsed_file, parsed)

  write_route-lookup :
      (cm cm' : ConfigMap) (id upstream : Bytes) (add : Bool) (k : Bytes)
      → map_written (write_route yaml cm id upstream add) ≡ some cm'
      → lookup k (routes_of (file_of yaml cm')) ≡ (
          if bytes_eq id k
          then (if add then some (text upstream) else none)
          else lookup k (routes_of (file_of yaml cm)))
  unfolding write_route
  write_route-lookup cm cm' id upstream add k e =
      let (out, marshaled, stored) = written-file cm cm' _ e in
      let (back, parsed, same) =
        marshal-unmarshal (changed_file cm id upstream add) out marshaled in
      let read = file_of_read cm' out back stored parsed in
      ap (λ file. lookup k (routes_of file)) read
      ∙ same k
      ∙ ap (lookup k) (routes_of-changed_file cm id upstream add)
      ∙ lookup-changed id upstream k add (routes_of (file_of yaml cm))

  -- When a synchronisation writes the ConfigMap, whether it was there or not, then reading it back
  -- gives the deployment its new upstream, or none if the route was to be removed, and every other
  -- deployment the route that it had.
  pub sync_route-lookup :
      (got : Found ConfigMap) (cm' : ConfigMap) (id upstream : Bytes) (add : Bool) (k : Bytes)
      → map_written (sync_route yaml got id upstream add) ≡ some cm'
      → lookup k (routes_of (file_of yaml cm')) ≡ (
          if bytes_eq id k
          then (if add then some (text upstream) else none)
          else lookup k (routes_of (file_of yaml (map_before got))))
  unfolding sync_route
  sync_route-lookup (found cm) cm' id upstream add k e =
      write_route-lookup cm cm' id upstream add k e
  sync_route-lookup not_found cm' id upstream true k e =
      write_route-lookup empty_map cm' id upstream true k e
  sync_route-lookup not_found cm' id upstream false k e = ground arith
  sync_route-lookup get_failed cm' id upstream add k e = ground arith
