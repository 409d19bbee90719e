-- ===== src/Operator/Controller.antt =====
-- The reconciler of model deployments:
-- operator/internal/controller/modeldeployment_controller.go. `Reconcile` is cut at its early
-- returns into stages, each of which calls the next.
pub mod Reconcile
pub mod Laws
pub mod Deletion
use Prim.Native.Nat.{◌≤◌}
use openserve.Prelude.{
  ℕ, Bytes, codes, bytes_eq, format_nat, lookup, insert, select, length, Bool, true, false, not,
  ◌&&◌, ◌||◌, ◌==◌, List, [], ◌∷◌, ◌++◌, Option, none, some, if◌then◌else◌,
}
use openserve.Prelude.Words.{ℤ, pos, negsuc}
use openserve.Operator.Engine.{
  Engine, for_type, engine_name, container_image, port, readiness_path, metric_name, engine_args,
}
use openserve.Operator.Sync.{Found, found, not_found, get_failed}
use openserve.Operator.Types.{
  LoraAdapter, ModelSpec, Condition, ModelStatus, ModelDeployment, CatalogModel, PodTemplate,
  Deployment, Service, ScaledObjectSpec, CatalogReply, model_found, catalog_error, AdapterReply,
  status_code, call_failed, Call, finalizer_update, catalog_status, verify_status, deployment_owner,
  deployment_create, deployment_update, service_owner, service_create, scaling, routing,
  lora_status, final_status, route_removal, finalizer_removal, lora_request, Effect, object_written,
  status_written, weights_checked, deployment_created, deployment_updated, service_created,
  scaling_applied, route_added, route_removed, adapter_posted, Result, done, requeue_minutes,
  failed, Outcome,
}

-- What the reconciler calls, for the time of one run: the catalog, the weight check (the text of
-- its error), the objects that exist, the adapters' endpoint, and which calls fail.
pub record Cluster : Type 0 where
  pub get_model : Bytes → CatalogReply
  pub verify_weights : CatalogModel → Bytes → Option Bytes
  pub existing_deployment : Found Deployment
  pub existing_service : Found Service
  pub load_adapter : Bytes → LoraAdapter → AdapterReply
  pub fails : Call → Bool
  pub model_cache_bucket : Bytes
  pub gateway_domain : Bytes

abbrev pub finalizer : Bytes
finalizer = codes "openserve.io/cleanup"

abbrev pub weights_verified : Bytes
weights_verified = codes "WeightsVerified"

abbrev pub endpoint_routable : Bytes
endpoint_routable = codes "EndpointRoutable"

unfoldable pub contains_string : List Bytes → Bytes → Bool
contains_string [] s = false
contains_string (v ∷ vs) s = if bytes_eq v s then true else contains_string vs s

unfoldable pub remove_string : List Bytes → Bytes → List Bytes
remove_string vs s = select (λ v. not (bytes_eq v s)) vs

abbrev pub deployment_name : Bytes → Bytes
deployment_name name = codes "vllm-" ++ name

abbrev pub labels_for : Bytes → List (Bytes × Bytes)
labels_for name =
    (codes "app.kubernetes.io/name", codes "vllm")
    ∷ (codes "app.kubernetes.io/instance", name)
    ∷ (codes "app.kubernetes.io/managed-by", codes "openserve-operator")
    ∷ (codes "openserve.io/model-deployment", name)
    ∷ []

-- `gpuNodeSelector` and `gpuResourceName`, empty for an unknown class.
abbrev pub gpu_node_selector : Bytes → List (Bytes × Bytes)
gpu_node_selector gpu_class =
    let key = codes "cloud.google.com/gke-accelerator" in
    if bytes_eq gpu_class (codes "l4")
    then (key, codes "nvidia-l4") ∷ []
    else if bytes_eq gpu_class (codes "a100-40g")
    then (key, codes "nvidia-tesla-a100") ∷ []
    else if bytes_eq gpu_class (codes "a100-80g")
    then (key, codes "nvidia-a100-80gb") ∷ []
    else []

abbrev pub gpu_resource_name : Bytes → Bytes
gpu_resource_name gpu_class =
    if bytes_eq gpu_class (codes "l4")
      || bytes_eq gpu_class (codes "a100-40g")
      || bytes_eq gpu_class (codes "a100-80g")
    then codes "nvidia.com/gpu"
    else []

abbrev pub set_condition : Bytes → Bool → Bytes → Bytes → ModelStatus → ModelStatus
set_condition kind status reason message s = record s {
  conditions =
      insert kind (record { status = status; reason = reason; message = message }) s.conditions;
}

abbrev pub weights_already_verified : ModelDeployment → CatalogModel → Bool
weights_already_verified md model = bytes_eq md.status.weight_digest model.weight_digest

-- The whole run is an outcome without effects, or an effect in front of one.
abbrev pub stop : Result → Outcome
stop result = record { result = result; effects = [] }

abbrev pub note : Effect → Outcome → Outcome
note e o = record o { effects = e ∷ o.effects }

abbrev is_zero : ℤ → Bool
is_zero (pos n) = n == 0
is_zero (negsuc n) = false

abbrev pub initial_replicas : ModelSpec → ℕ
initial_replicas spec = if spec.scale_to_zero && is_zero spec.min_replicas then 0 else 1

abbrev catalog_args : ModelSpec → Engine → List Bytes
catalog_args spec eng =
    if not (bytes_eq spec.model_ref []) && bytes_eq (engine_name eng) (codes "vllm")
    then codes "--max-num-seqs" ∷ codes "256" ∷ []
    else []

unfoldable pub desired_deployment : Bytes → ModelDeployment → Engine → Deployment
desired_deployment bucket md eng = record {
  name = deployment_name md.name;
  namespace = md.namespace;
  labels = labels_for md.name;
  replicas = initial_replicas md.spec;
  template = record {
    labels = labels_for md.name;
    node_selector = gpu_node_selector md.spec.gpu_class;
    gpu_resource = gpu_resource_name md.spec.gpu_class;
    container = engine_name eng;
    image = container_image eng;
    args =
        engine_args eng (codes "/model-cache/" ++ md.spec.model_ref) (catalog_args md.spec eng)
          md.spec.vllm_args;
    container_port = port eng;
    probe_path = readiness_path eng;
    bucket = bucket;
  };
}

unfoldable pub desired_service : ModelDeployment → Engine → Service
desired_service md eng = record {
  name = md.name;
  namespace = md.namespace;
  selector = labels_for md.name;
  service_port = port eng;
}

unfoldable pub desired_scaling : ModelDeployment → Engine → ScaledObjectSpec
desired_scaling md eng = record {
  deployment_name = deployment_name md.name;
  namespace = md.namespace;
  min_replicas = pos 0;
  max_replicas = md.spec.max_replicas;
  idle_timeout_min = md.spec.idle_timeout_min;
  metric = metric_name eng;
}
