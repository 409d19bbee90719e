-- ===== src/Operator/Types.antt =====
-- The objects that the operator reads and writes, the fields that it uses.
use openserve.Prelude.{ℕ, Bytes, Bool, List}
use openserve.Prelude.Words.{ℤ}

pub record LoraAdapter : Type 0 where
  pub name : Bytes
  pub path : Bytes

pub record ModelSpec : Type 0 where
  pub model_ref : Bytes
  pub gpu_class : Bytes
  pub engine : Bytes
  pub scale_to_zero : Bool
  pub min_replicas : ℤ
  pub max_replicas : ℤ
  pub idle_timeout_min : ℤ
  pub vllm_args : List Bytes
  pub lora_adapters : List LoraAdapter

pub record Condition : Type 0 where
  pub status : Bool
  pub reason : Bytes
  pub message : Bytes

pub record ModelStatus : Type 0 where
  pub phase : Bytes
  pub weight_digest : Bytes
  pub model_version : Bytes
  pub endpoint : Bytes
  pub loaded_adapters : List Bytes
  pub conditions : List (Bytes × Condition)

-- `deleting` says whether the deletion timestamp is set.
pub record ModelDeployment : Type 0 where
  pub name : Bytes
  pub namespace : Bytes
  pub deleting : Bool
  pub finalizers : List Bytes
  pub spec : ModelSpec
  pub status : ModelStatus

pub record CatalogModel : Type 0 where
  pub hf_revision : Bytes
  pub weight_digest : Bytes

-- What a pod template holds that is not a constant.
pub record PodTemplate : Type 0 where
  pub labels : List (Bytes × Bytes)
  pub node_selector : List (Bytes × Bytes)
  pub gpu_resource : Bytes
  pub container : Bytes
  pub image : Bytes
  pub args : List Bytes
  pub container_port : ℕ
  pub probe_path : Bytes
  pub bucket : Bytes

pub record Deployment : Type 0 where
  pub name : Bytes
  pub namespace : Bytes
  pub labels : List (Bytes × Bytes)
  pub replicas : ℕ
  pub template : PodTemplate

pub record Service : Type 0 where
  pub name : Bytes
  pub namespace : Bytes
  pub selector : List (Bytes × Bytes)
  pub service_port : ℕ

-- `ScaledObjectSpec`, without the owner.
pub record ScaledObjectSpec : Type 0 where
  pub deployment_name : Bytes
  pub namespace : Bytes
  pub min_replicas : ℤ
  pub max_replicas : ℤ
  pub idle_timeout_min : ℤ
  pub metric : Bytes

pub data CatalogReply : Type 0 where
  model_found : CatalogModel → CatalogReply
  catalog_error : Bytes → CatalogReply

-- The answer to `load_lora_adapter`.
pub data AdapterReply : Type 0 where
  status_code : ℕ → AdapterReply
  call_failed : AdapterReply

-- The calls that can fail, one name for each place in the code.
pub data Call : Type 0 where
  finalizer_update catalog_status verify_status deployment_owner deployment_create : Call
  deployment_update service_owner service_create scaling routing lora_status final_status : Call
  route_removal finalizer_removal lora_request : Call

-- What happened to the cluster, in order; a call that failed leaves nothing.
pub data Effect : Type 0 where
  object_written : ModelDeployment → Effect
  status_written : ModelStatus → Effect
  weights_checked : CatalogModel → Bytes → Effect
  deployment_created : Deployment → Effect
  deployment_updated : Deployment → Effect
  service_created : Service → Effect
  scaling_applied : ScaledObjectSpec → Effect
  route_added : Bytes → Effect
  route_removed : Bytes → Effect
  adapter_posted : Bytes → LoraAdapter → Effect

pub data Result : Type 0 where
  done : Result
  requeue_minutes : ℕ → Result
  failed : Result

pub record Outcome : Type 0 where
  pub result : Result
  pub effects : List Effect
