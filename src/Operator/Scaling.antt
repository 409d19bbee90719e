-- ===== src/Operator/Scaling.antt =====
-- The KEDA objects of the operator: operator/internal/scaling/keda.go.
pub mod Laws
use openserve.Prelude.{
  ℕ, ◌+◌, ◌*◌, Bytes, codes, bytes_eq, Bool, true, false, List, [], ◌∷◌, ◌++◌, if◌then◌else◌,
}
use openserve.Prelude.Words.{ℤ, pos, negsuc, to_int32}
use openserve.Operator.Types.{ScaledObjectSpec}

-- The spec of a ScaledObject, without its constants.
pub record ScaledSpec : Type 0 where
  pub target : Bytes
  pub min_replica_count : ℤ
  pub max_replica_count : ℤ
  pub cooldown_period : ℤ
  pub metric_name : Bytes
  pub query : Bytes

pub record ScaledObject : Type 0 where
  pub name : Bytes
  pub namespace : Bytes
  pub owner : Bytes
  pub spec : ScaledSpec

-- `int32` multiplication by 60.
unfoldable pub in_seconds : ℤ → ℤ
unfolding to_int32
in_seconds (pos n) = to_int32 (pos (n * 60))
in_seconds (negsuc n) = to_int32 (negsuc (n * 60 + 59))

abbrev pub metric_or_default : Bytes → Bytes
metric_or_default metric = if bytes_eq metric [] then codes "vllm_num_requests_running" else metric

unfoldable pub desired_object : Bytes → ScaledObjectSpec → ScaledObject
unfolding in_seconds
desired_object owner s =
    let metric = metric_or_default s.metric in
    record {
      name = codes "keda-" ++ s.deployment_name;
      namespace = s.namespace;
      owner = owner;
      spec = record {
        target = s.deployment_name;
        min_replica_count = s.min_replicas;
        max_replica_count = s.max_replicas;
        cooldown_period = in_seconds s.idle_timeout_min;
        metric_name = metric;
        query = metric ++ (codes "{deployment=\"" ++ (s.deployment_name ++ codes "\"}"));
      };
    }

-- What `Get` gives for the name and namespace.
pub data Got : Type 0 where
  existing : ScaledObject → Got
  absent get_error : Got

-- Whether it gives no error, and the objects that it writes; `creates` and `updates` say whether the
-- write succeeds.
unfoldable pub reconcile_object :
    (owner : Bytes) → ScaledObjectSpec → (creates updates : Bool) → Got → Bool × List ScaledObject
unfolding desired_object
reconcile_object owner s creates updates absent =
    if creates then (true, desired_object owner s ∷ []) else (false, [])
reconcile_object owner s creates updates get_error = (false, [])
reconcile_object owner s creates updates (existing o) =
    if updates then (true, record o { spec = (desired_object owner s).spec } ∷ []) else (false, [])

-- The answer to the deletion of `keda-<name>`.
pub data DeleteReply : Type 0 where
  deleted not_there delete_error : DeleteReply

-- Whether `Delete` gives no error.
unfoldable pub delete_object_of : DeleteReply → Bool
delete_object_of deleted = true
delete_object_of not_there = true
delete_object_of delete_error = false
