-- ===== src/Operator/Address.antt =====
-- The address in the gateway's route against that of the Service: operator/internal/gateway/sync.go
-- and `reconcileService` of operator/internal/controller/modeldeployment_controller.go.
use openserve.Prelude.{
  ◌+◌, ◌<◌, Bytes, codes, format_nat, length, length-append, ◌∷◌, ◌++◌, ◌≡◌, ◌≢◌, ap, arith,
}
use openserve.Operator.Engine.{Engine, vllm, sglang, port}
use openserve.Operator.Sync.{upstream_of}
use openserve.Operator.Types.{ModelDeployment, Service}
use openserve.Operator.Controller.{desired_service}

-- The name under which the cluster's DNS knows a Service, with its port.
unfoldable pub service_address : Service → Bytes
service_address s =
    s.name ++ b'.' ∷ (s.namespace ++ (codes ".svc.cluster.local:" ++ format_nat s.service_port))

length-upstream_of :
    (namespace id : Bytes) → length (upstream_of namespace id) ≡ length id + length namespace + 29
length-upstream_of namespace id = omega (
  arith,
  length-append id (b'.' ∷ (namespace ++ codes ".svc.cluster.local:8000")),
  length-append namespace (codes ".svc.cluster.local:8000"),
)

length-service_address :
    (md : ModelDeployment) (eng : Engine)
    → length (service_address (desired_service md eng))
      ≡ length md.name + length md.namespace + 20 + length (format_nat (port eng))
unfolding service_address desired_service
length-service_address md eng = omega (
  arith,
  length-append md.name
      (b'.' ∷ (md.namespace ++ (codes ".svc.cluster.local:" ++ format_nat (port eng)))),
  length-append md.namespace (codes ".svc.cluster.local:" ++ format_nat (port eng)),
  length-append (codes ".svc.cluster.local:") (format_nat (port eng)),
)

port_digits : (eng : Engine) → length (format_nat (port eng)) < 6
unfolding format_nat
port_digits vllm = omega arith
port_digits sglang = omega arith

-- For every model deployment and engine, the upstream that the operator registers with the gateway
-- is not the address of the Service that it creates for it in the same namespace.
pub upstream_of-service_address :
    (md : ModelDeployment) (eng : Engine)
    → upstream_of md.namespace md.name ≢ service_address (desired_service md eng)
upstream_of-service_address md eng e = omega (
  arith,
  ap length e,
  length-upstream_of md.namespace md.name,
  length-service_address md eng,
  port_digits eng,
)
