-- ===== src/Operator/Engine.antt =====
-- The inference engines: operator/internal/engine.
use openserve.Prelude.{
  ℕ, Bytes, codes, bytes_eq, ◌||◌, List, [], ◌∷◌, ◌++◌, Option, none, some, if◌then◌else◌,
}

pub data Engine : Type 0 where
  vllm sglang : Engine

-- `ForType`
unfoldable pub for_type : Bytes → Option Engine
for_type engine_type =
    if bytes_eq engine_type (codes "vllm") || bytes_eq engine_type []
    then some vllm
    else if bytes_eq engine_type (codes "sglang")
    then some sglang
    else none

abbrev pub engine_name : Engine → Bytes
engine_name vllm = codes "vllm"
engine_name sglang = codes "sglang"

abbrev pub container_image : Engine → Bytes
container_image vllm = codes "vllm/vllm-openai:v0.4.2"
container_image sglang = codes "lmsysorg/sglang:v0.3.6-cu121"

abbrev pub port : Engine → ℕ
port vllm = 8000
port sglang = 30000

abbrev pub readiness_path : Engine → Bytes
readiness_path vllm = codes "/health"
readiness_path sglang = codes "/health"

abbrev pub metric_name : Engine → Bytes
metric_name vllm = codes "vllm_num_requests_running"
metric_name sglang = codes "sglang:num_running_reqs"

-- The arguments of the catalog are left out for SGLang.
unfoldable pub engine_args : Engine → Bytes → List Bytes → List Bytes → List Bytes
engine_args vllm model_ref catalog_args extra_args =
    (codes "--model"
      ∷ model_ref
      ∷ codes "--port"
      ∷ codes "8000"
      ∷ codes "--served-model-name"
      ∷ model_ref
      ∷ [])
    ++ (catalog_args ++ extra_args)
engine_args sglang model_ref catalog_args extra_args =
    (codes "python"
      ∷ codes "-m"
      ∷ codes "sglang.launch_server"
      ∷ codes "--model-path"
      ∷ model_ref
      ∷ codes "--port"
      ∷ codes "30000"
      ∷ codes "--host"
      ∷ codes "0.0.0.0"
      ∷ [])
    ++ extra_args
