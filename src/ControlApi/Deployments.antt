-- ===== src/ControlApi/Deployments.antt =====
-- Deployments: slugify and the deployment handlers of
-- apps/control-api/internal/handler/handler.go, and the calls of
-- apps/control-api/internal/k8s/client.go that they make.
mod Slugs
pub mod Names
use openserve.Prelude.{
  ℕ, ◌+◌, ◌-◌, Bytes, codes, bytes_eq, map, select, take, length, leb, ltb, if◌then◌else◌, ◌==◌,
  Bool, true, false, ◌&&◌, ◌||◌, List, [], ◌∷◌, ◌++◌, Option, none, some,
}
use mathlib.Core.List.{reverse}
use openserve.Prelude.Hex.{hex_encode}
use openserve.Prelude.Words.{ℤ}
use openserve.Gateway.Proxy.Forward.{lower}
use openserve.ControlApi.Tables.{
  Db, Member, CachedDeployment, Fields, Value, text, texts, integer, flag, number, null, find, any,
  update_where, delete_where, optional_text, optional_time, order_desc, member_of, member_org,
  has_org,
}
use openserve.ControlApi.Database.{
  Action, Outcome, State, Response, respond, nothing, array, http_error, write_json, json_status,
  no_content, Change, changed, Found, found, no_rows, query_failed, unique_violation, violation,
  give, stop, fetch_or, query_row, query_rows, or_empty, exec, must, some_or, check, signed_in,
  write_audit_log, ◌>>=◌, ◌>>◌,
}
unfoldable pub use Slugs.*

abbrev deployment_fields : CachedDeployment → Fields
deployment_fields c =
    (codes "id", text c.id)
    ∷ (codes "modelRef", text c.model_ref)
    ∷ (codes "gpuClass", text c.gpu_class)
    ∷ (codes "phase", text c.phase)
    ∷ (codes "endpoint", optional_text c.endpoint)
    ∷ (codes "todayUsdSpend", number c.today_usd_spend)
    ∷ (codes "budgetPausedAt", optional_time c.budget_paused_at)
    ∷ (codes "updatedAt", number c.updated_at)
    ∷ (codes "webSearchEnabled", flag c.web_search_enabled)
    ∷ []

abbrev pub no_org : Response
no_org = http_error 500 (codes "failed to get org")

abbrev pub deployment_missing : Response
deployment_missing = http_error 404 (codes "deployment not found")

abbrev pub is_deployment : Bytes → CachedDeployment → Bool
is_deployment id c = bytes_eq c.id id

unfoldable pub deployment_of : Bytes → Db → Option CachedDeployment
unfolding find
deployment_of id d = find (is_deployment id) d.deployment_cache

deployments_of : Bytes → Db → List CachedDeployment
unfolding order_desc
deployments_of org_id d =
    order_desc (λ (c : CachedDeployment). c.updated_at)
      (select (λ (c : CachedDeployment). bytes_eq c.org_id org_id) d.deployment_cache)

-- The error of `Query` is dropped, the empty list is an empty array.
unfoldable pub list_deployments : Option Bytes → Action Response
unfolding deployments_of member_org
list_deployments caller = do
  subject ← signed_in caller
  org_id ← fetch_or no_org (member_org subject)
  rows ← query_rows (deployments_of org_id)
  give (respond 200 (array (map deployment_fields (or_empty rows))))

-- What `rows.Scan` leaves in the variables when it fails.
abbrev zero_deployment : Bytes → CachedDeployment
zero_deployment id = record {
  id = id;
  org_id = [];
  model_ref = [];
  gpu_class = [];
  phase = [];
  endpoint = none;
  today_usd_spend = 0;
  budget_paused_at = none;
  updated_at = 0;
  web_search_enabled = false;
}

-- Only `pgx.ErrNoRows` is tested for.
unfoldable pub unless_missing : Bytes → Found CachedDeployment → Action Response
unless_missing id (found c) = give (write_json 200 (deployment_fields (record c { id = id })))
unless_missing id no_rows = stop (http_error 404 (codes "not found"))
unless_missing id query_failed = give (write_json 200 (deployment_fields (zero_deployment id)))

unfoldable pub get_deployment : Option Bytes → Bytes → Action Response
unfolding unless_missing deployment_of
get_deployment caller id = do
  subject ← signed_in caller
  row ← query_row (deployment_of id)
  unless_missing id row

pub record CreateDeployment : Type 0 where
  pub model_ref : Bytes
  pub gpu_class : Bytes
  pub scale_to_zero : Bool
  pub idle_timeout_min : ℤ
  pub min_replicas : ℤ
  pub max_replicas : ℤ
  pub daily_budget_usd : Bytes
  pub max_input_tokens : ℤ
  pub max_output_tokens : ℤ
  pub vllm_args : List Bytes
  pub description : Bytes
  pub web_search_enabled : Bool

-- The request as the audit log keeps it.
abbrev request_fields : CreateDeployment → Fields
request_fields r =
    (codes "modelRef", text r.model_ref)
    ∷ (codes "gpuClass", text r.gpu_class)
    ∷ (codes "scaleToZero", flag r.scale_to_zero)
    ∷ (codes "idleTimeoutMin", integer r.idle_timeout_min)
    ∷ (codes "minReplicas", integer r.min_replicas)
    ∷ (codes "maxReplicas", integer r.max_replicas)
    ∷ (codes "dailyBudgetUSD", text r.daily_budget_usd)
    ∷ (codes "maxInputTokens", integer r.max_input_tokens)
    ∷ (codes "maxOutputTokens", integer r.max_output_tokens)
    ∷ (codes "vllmArgs", texts r.vllm_args)
    ∷ (codes "description", text r.description)
    ∷ (codes "webSearchEnabled", flag r.web_search_enabled)
    ∷ []

-- `k8s.CreateDeploymentRequest`
pub record K8sRequest : Type 0 where
  pub name : Bytes
  pub spec : CreateDeployment
  pub org_id : Bytes
  pub created_by_email : Bytes

-- The cluster's answers: the phase of a new object or an error, and whether a delete and a resume
-- are carried out; `none` where the handler has no client, so that the call panics.
pub record K8sClient : Type 0 where
  pub create_model_deployment : K8sRequest → Option Bytes
  pub delete_model_deployment : Bytes → Bool
  pub resume_model_deployment : Bytes → Bool

-- `middleware.Recoverer` answers a panic.
abbrev pub recovered : Response
recovered = respond 500 nothing

-- `PRIMARY KEY(id, org_id)`
unfoldable pub insert_deployment : CachedDeployment → Db → Change (Unit {0})
unfolding any has_org
insert_deployment c d =
    elim (any (λ (x : CachedDeployment). is_deployment c.id x && bytes_eq x.org_id c.org_id)
      d.deployment_cache) [
        | true ↦ unique_violation
        | false ↦ elim (has_org c.org_id d) [
          | true ↦ changed tt (record d { deployment_cache = d.deployment_cache ++ c ∷ [] })
          | false ↦ violation
        ]
      ]

unfoldable pub create_deployment :
    Option K8sClient → Option Bytes → Option CreateDeployment → Option Bytes → ℕ → Action Response
unfolding deployment_name insert_deployment member_of
create_deployment k8s caller body random now = do
  subject ← signed_in caller
  req ← some_or (http_error 400 (codes "invalid request")) body
  m ← fetch_or no_org (member_of subject)
  let id = deployment_name req.model_ref random
  client ← some_or recovered k8s
  phase ← some_or (http_error 500 (codes "failed to create deployment")) (
      client.create_model_deployment
        (record { name = id; spec = req; org_id = m.org_id; created_by_email = m.email }))
  exec (
      insert_deployment (record {
        id = id;
        org_id = m.org_id;
        model_ref = req.model_ref;
        gpu_class = req.gpu_class;
        phase = codes "Pending";
        endpoint = none;
        today_usd_spend = 0;
        budget_paused_at = none;
        updated_at = now;
        web_search_enabled = req.web_search_enabled;
      }))
  write_audit_log m.org_id subject (codes "create") (codes "deployment") id
      (some (request_fields req))
  give (
      write_json 201 (
        (codes "id", text id)
        ∷ (codes "modelRef", text req.model_ref)
        ∷ (codes "gpuClass", text req.gpu_class)
        ∷ (codes "phase", text phase)
        ∷ (codes "endpoint", null)
        ∷ (codes "createdAt", number now)
        ∷ []))

unfoldable pub delete_deployment_rows : Bytes → Db → Change (Unit {0})
unfolding delete_where
delete_deployment_rows id d =
    changed tt (record d { deployment_cache = delete_where (is_deployment id) d.deployment_cache })

unfoldable pub delete_deployment : Option K8sClient → Option Bytes → Bytes → Action Response
unfolding delete_deployment_rows deployment_of
delete_deployment k8s caller id = do
  subject ← signed_in caller
  c ← fetch_or deployment_missing (deployment_of id)
  client ← some_or recovered k8s
  check (client.delete_model_deployment id) (http_error 500 (codes "failed to delete deployment"))
  exec (delete_deployment_rows id)
  write_audit_log c.org_id subject (codes "delete") (codes "deployment") id none
  give no_content

unfoldable pub set_pending : Bytes → Db → Change (Unit {0})
unfolding update_where
set_pending id d = changed tt (record d {
  deployment_cache =
      update_where (is_deployment id)
        (λ c. record c { phase = codes "Pending"; budget_paused_at = none }) d.deployment_cache;
})

unfoldable pub resume_deployment : Option K8sClient → Option Bytes → Bytes → Action Response
unfolding set_pending deployment_of
resume_deployment k8s caller id = do
  subject ← signed_in caller
  c ← fetch_or deployment_missing (deployment_of id)
  client ← some_or recovered k8s
  check (client.resume_model_deployment id) (http_error 500 (codes "failed to resume deployment"))
  exec (set_pending id)
  write_audit_log c.org_id subject (codes "resume") (codes "deployment") id none
  give (json_status 200 (codes "resumed"))
