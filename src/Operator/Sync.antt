-- ===== src/Operator/Sync.antt =====
-- The gateway's routes in their ConfigMap: operator/internal/gateway/sync.go.
pub mod Laws
use openserve.Prelude.{
  Bytes, codes, lookup, insert, delete, Bool, true, false, List, [], ◌∷◌, ◌++◌, Option, none, some,
  ◌≡◌, if◌then◌else◌, bytes_eq,
}

-- A value of the parsed file: a mapping, whose own values are kept as they are, or something else.
pub data Value (Node : Type 0) : Type 0 where
  mapping : List (Bytes × Node) → Value Node
  other : Node → Value Node

-- `routes["routes"]`, if it is a mapping; else empty.
abbrev pub mapping_of : {Node : Type 0} → Option (Value Node) → List (Bytes × Node)
mapping_of none = []
mapping_of (some (mapping m)) = m
mapping_of (some (other n)) = []

unfoldable pub routes_of : {Node : Type 0} → List (Bytes × Value Node) → List (Bytes × Node)
routes_of file = mapping_of (lookup (codes "routes") file)

-- `yaml.Marshal` and `yaml.Unmarshal`: a file that was written is read with the same routes,
-- though its keys may stand in another order.
pub record Yaml : Type 1 where
  pub Node : Type 0
  pub text : Bytes → Node
  pub unmarshal : Bytes → Option (List (Bytes × Value Node))
  pub marshal : List (Bytes × Value Node) → Option Bytes
  pub marshal-unmarshal :
      (file : List (Bytes × Value Node)) (written : Bytes)
      → marshal file ≡ some written
      → (read : List (Bytes × Value Node)) × (unmarshal written ≡ some read)
        × ((k : Bytes) → lookup k (routes_of read) ≡ lookup k (routes_of file))

pub record ConfigMap : Type 0 where
  pub data_map : List (Bytes × Bytes)
  pub resource_version : Bytes

-- A `Get` of the API server.
pub data Found (A : Type 0) : Type 0 where
  found : A → Found A
  not_found : Found A
  get_failed : Found A

-- What `syncRoute` does: nothing, an error, or a write.
pub data SyncStep : Type 0 where
  nothing : SyncStep
  sync_failed : SyncStep
  create : ConfigMap → SyncStep
  update : ConfigMap → SyncStep

abbrev pub config_key : Bytes
config_key = codes "routing.yaml"

abbrev pub empty_map : ConfigMap
empty_map = record { data_map = []; resource_version = [] }

-- The host that `AddRoute` registers.
abbrev pub upstream_of : Bytes → Bytes → Bytes
upstream_of namespace id =
    codes "vllm-" ++ (id ++ b'.' ∷ (namespace ++ codes ".svc.cluster.local:8000"))

module _ (yaml : Yaml) where
  open yaml use {Node, text, unmarshal, marshal}

  unfoldable pub parsed_file : Option Bytes → List (Bytes × Value Node)
  parsed_file none = []
  parsed_file (some file) = elim (unmarshal file) [ none ↦ [] | some routes ↦ routes ]

  unfoldable pub file_of : ConfigMap → List (Bytes × Value Node)
  unfolding parsed_file
  file_of cm = parsed_file (lookup config_key cm.data_map)

  unfoldable pub changed : Bytes → Bytes → Bool → List (Bytes × Node) → List (Bytes × Node)
  changed id upstream add routes =
      if add then insert id (text upstream) routes else delete id routes

  unfoldable pub written : ConfigMap → Option Bytes → SyncStep
  written cm none = sync_failed
  written cm (some file) =
      let cm' = insert config_key file cm.data_map in
      if bytes_eq cm.resource_version []
      then create (record cm { data_map = cm' })
      else update (record cm { data_map = cm' })

  unfoldable pub write_route : ConfigMap → Bytes → Bytes → Bool → SyncStep
  unfolding changed written
  write_route cm id upstream add =
      let file = file_of cm in
      written cm (
        marshal (insert (codes "routes") (mapping (changed id upstream add (routes_of file))) file))

  unfoldable pub sync_route : Found ConfigMap → Bytes → Bytes → Bool → SyncStep
  sync_route not_found id upstream false = nothing
  sync_route not_found id upstream true = write_route empty_map id upstream true
  sync_route get_failed id upstream add = sync_failed
  sync_route (found cm) id upstream add = write_route cm id upstream add

  unfoldable pub add_route : Bytes → Found ConfigMap → Bytes → SyncStep
  add_route namespace cm id = sync_route cm id (upstream_of namespace id) true

  unfoldable pub remove_route : Found ConfigMap → Bytes → SyncStep
  remove_route cm id = sync_route cm id [] false
