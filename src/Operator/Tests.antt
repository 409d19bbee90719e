-- ===== src/Operator/Tests.antt =====
-- Tests and examples of the operator.
use openserve.Prelude.{
  if◌then◌else◌, ◌++◌, List, Bool, arith, cut, bytes_eq_iff, ap, ◌&&◌, Bytes, codes, bytes_eq,
  format_nat, lookup, insert, delete, true, false, [], ◌∷◌, Option, none, some, ◌≡◌, ◌≢◌, refl,
}
use openserve.Prelude.Words.{pos}
use openserve.Operator.Engine.{sglang, for_type, engine_args}
use openserve.Operator.Sync.{
  ConfigMap, other, Value, mapping, Yaml, routes_of, found, not_found, file_of, write_route,
  sync_route, upstream_of,
}
use openserve.Operator.Sync.Laws.{map_written, sync_route-lookup}
use openserve.Operator.Types.{
  ModelSpec, ModelStatus, ModelDeployment, CatalogModel, Deployment, model_found, status_code, done,
  requeue_minutes,
}
use openserve.Operator.Controller.{
  Cluster, finalizer, contains_string, remove_string, desired_deployment, desired_service,
  desired_scaling,
}
use openserve.Operator.Controller.Reconcile.{
  and_then, reconcile, with_engine, delete_object, ensure_finalizer, check_model, verified, report,
  apply, publish, reconcile_deployment, existing_deployment_step, reconcile_service,
  reconcile_scaling, reconcile_adapters, load_adapters, gcs_path,
}
use openserve.Operator.Controller.Laws.{rolled_out, IsReady, reconcile-IsReady}
use openserve.Operator.Controller.Deletion.{LetGo, reconcile-LetGo}
use openserve.Operator.Address.{service_address, upstream_of-service_address}

operator : Unit {0}
unfolding for_type engine_args routes_of file_of write_route sync_route contains_string
    remove_string desired_deployment desired_service desired_scaling and_then reconcile with_engine
    delete_object ensure_finalizer check_model verified report apply publish reconcile_deployment
    existing_deployment_step reconcile_service reconcile_scaling reconcile_adapters load_adapters
    gcs_path rolled_out bytes_eq lookup insert delete format_nat
operator = tt

abbrev sample_model : CatalogModel
sample_model = record { hf_revision = codes "r1"; weight_digest = codes "abc" }

abbrev sample_spec : ModelSpec
sample_spec = record {
  model_ref = codes "llama";
  gpu_class = codes "l4";
  engine = codes "sglang";
  scale_to_zero = true;
  min_replicas = pos 0;
  max_replicas = pos 3;
  idle_timeout_min = pos 10;
  vllm_args = [];
  lora_adapters = [];
}

abbrev sample_status : ModelStatus
sample_status = record {
  phase = [];
  weight_digest = [];
  model_version = [];
  endpoint = [];
  loaded_adapters = [];
  conditions = [];
}

abbrev sample_object : ModelDeployment
sample_object = record {
  name = codes "chat";
  namespace = codes "team";
  deleting = false;
  finalizers = [];
  spec = sample_spec;
  status = sample_status;
}

abbrev deleted_object : ModelDeployment
deleted_object = record sample_object { deleting = true; finalizers = finalizer ∷ [] }

-- A cluster with the model, in which the weight check gives `message` and no call fails.
abbrev cluster_with : Option Bytes → Cluster
cluster_with message = record {
  get_model = λ ref. model_found sample_model;
  verify_weights = λ model path. message;
  existing_deployment = not_found;
  existing_service = not_found;
  load_adapter = λ url a. status_code 200;
  fails = λ call. false;
  model_cache_bucket = codes "cache";
  gateway_domain = codes "example.org";
}

abbrev sample_cluster : Cluster
sample_cluster = cluster_with none

abbrev sample_deployment : Deployment
sample_deployment = desired_deployment (codes "cache") sample_object sglang

operator_tests :
    (rolled_out (reconcile sample_cluster (found sample_object)).effects ≡ sample_deployment ∷ [])
    × ((reconcile sample_cluster (found sample_object)).result ≡ done)
    × (rolled_out (reconcile (cluster_with (some (codes "bad"))) (found sample_object)).effects
        ≡ [])
    × ((reconcile (cluster_with (some (codes "bad"))) (found sample_object)).result
        ≡ requeue_minutes 2)
unfolding operator
operator_tests = (refl, refl, refl, refl)

reconcile-IsReady_example :
    IsReady sample_cluster
      (found sample_object)
      (reconcile sample_cluster (found sample_object)).effects
reconcile-IsReady_example =
    reconcile-IsReady sample_cluster (found sample_object) sample_deployment [] operator_tests.0

reconcile-LetGo_example :
    LetGo deleted_object (reconcile sample_cluster (found deleted_object)).effects
reconcile-LetGo_example = reconcile-LetGo sample_cluster deleted_object refl

upstream_of-service_address_example :
    upstream_of (codes "team") (codes "chat")
    ≢ service_address (desired_service sample_object sglang)
upstream_of-service_address_example = upstream_of-service_address sample_object sglang

-- Files with one route, written as `deployment:upstream`.
abbrev File : Type 0
File = List (Bytes × Value Bytes)

abbrev one_route : Bytes × Option Bytes → File
one_route (k, none) = []
one_route (k, some v) = (codes "routes", mapping ((k, v) ∷ [])) ∷ []

abbrev is_route : Bytes → Bytes → Bytes × Option Bytes → Bool
is_route k v (k', none) = false
is_route k v (k', some v') = bytes_eq k' k && bytes_eq v' v

abbrev read_file : Bytes → Option File
read_file text = some (one_route (cut b':' text))

write_file : File → Option Bytes
write_file ((name, mapping ((k, v) ∷ [])) ∷ []) =
    let text = k ++ b':' ∷ v in
    if bytes_eq name (codes "routes") && is_route k v (cut b':' text) then some text else none
write_file file = none

is_route-one_route :
    (k v : Bytes) (parts : Bytes × Option Bytes)
    → is_route k v parts ≡ true
    → one_route parts ≡ (codes "routes", mapping ((k, v) ∷ [])) ∷ []
is_route-one_route k v (k', none) e = ground arith
is_route-one_route k v (k', some v') e =
    let same : k' ≡ k = (bytes_eq_iff k' k).0 (ground arith) in
    let same_value : v' ≡ v = (bytes_eq_iff v' v).0 (ground arith) in rw (same, same_value)

write_file-read_file :
    (file : File) (text : Bytes) → write_file file ≡ some text → one_route (cut b':' text) ≡ file
unfolding write_file
write_file-read_file [] text e = ground arith
write_file-read_file ((name, other n) ∷ file) text e = ground arith
write_file-read_file ((name, mapping []) ∷ file) text e = ground arith
write_file-read_file ((name, mapping (x ∷ y ∷ m)) ∷ file) text e = ground arith
write_file-read_file ((name, mapping ((k, v) ∷ [])) ∷ x ∷ file) text e = ground arith
write_file-read_file ((name, mapping ((k, v) ∷ [])) ∷ []) text e =
    let named : name ≡ codes "routes" = (bytes_eq_iff name (codes "routes")).0 (ground arith) in
    let routed : is_route k v (cut b':' (k ++ b':' ∷ v)) ≡ true = ground arith in
    let spelled : k ++ b':' ∷ v ≡ text = ground arith in
    rw (named, ← spelled) (is_route-one_route k v (cut b':' (k ++ b':' ∷ v)) routed)

abbrev sample_yaml : Yaml
sample_yaml = record {
  Node = Bytes;
  text = λ s. s;
  unmarshal = read_file;
  marshal = write_file;
  marshal-unmarshal = λ file text e.
      let same = write_file-read_file file text e in
      (one_route (cut b':' text), refl, λ k. ap (λ f. lookup k (routes_of f)) same);
}

abbrev routed_map : ConfigMap
routed_map = record {
  data_map = (codes "routing.yaml", codes "chat:vllm-chat.team.svc.cluster.local:8000") ∷ [];
  resource_version = [];
}

synced :
    map_written (
      sync_route sample_yaml not_found
        (codes "chat")
        (upstream_of (codes "team") (codes "chat"))
        true)
    ≡ some routed_map
unfolding operator write_file cut
synced = refl

sync_route-lookup_example :
    lookup (codes "chat") (routes_of (file_of sample_yaml routed_map))
    ≡ some (codes "vllm-chat.team.svc.cluster.local:8000")
unfolding bytes_eq
sync_route-lookup_example =
    sync_route-lookup sample_yaml not_found routed_map (codes "chat")
      (upstream_of (codes "team") (codes "chat")) true (codes "chat") synced
