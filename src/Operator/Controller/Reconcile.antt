-- ===== src/Operator/Controller/Reconcile.antt =====
-- `Reconcile` and the steps that it calls, in
-- operator/internal/controller/modeldeployment_controller.go.
use openserve.Prelude.{
  ℕ, Bytes, codes, bytes_eq, format_nat, Bool, true, false, not, ◌||◌, ◌==◌, List, [], ◌∷◌, ◌++◌,
  Option, none, some, if◌then◌else◌,
}
use openserve.Operator.Engine.{Engine, for_type, engine_name, port}
use openserve.Operator.Sync.{Found, found, not_found, get_failed}
use openserve.Operator.Types.{
  LoraAdapter, ModelStatus, ModelDeployment, CatalogModel, Deployment, Service, CatalogReply,
  model_found, catalog_error, AdapterReply, status_code, call_failed, Call, finalizer_update,
  catalog_status, verify_status, deployment_owner, deployment_create, deployment_update,
  service_owner, service_create, scaling, routing, lora_status, final_status, route_removal,
  finalizer_removal, lora_request, Effect, object_written, status_written, weights_checked,
  deployment_created, deployment_updated, service_created, scaling_applied, route_added,
  route_removed, adapter_posted, done, requeue_minutes, failed, Outcome,
}
use openserve.Operator.Controller.{
  Cluster, finalizer, weights_verified, endpoint_routable, contains_string, remove_string,
  set_condition, weights_already_verified, stop, note, desired_deployment, desired_service,
  desired_scaling,
}

-- A step that can fail, and a step of which a failure ends the run.
pub record Applied : Type 0 where
  pub succeeds : Bool
  pub effects : List Effect

abbrev pub attempt : Bool → Effect → Applied
attempt fails e =
    if fails
    then record { succeeds = false; effects = [] }
    else record { succeeds = true; effects = e ∷ [] }

abbrev pub refused : Applied
refused = record { succeeds = false; effects = [] }

abbrev pub skipped : Applied
skipped = record { succeeds = true; effects = [] }

unfoldable pub and_then : Applied → Outcome → Outcome
and_then step next =
    let rest = record next { effects = step.effects ++ next.effects } in
    if step.succeeds then rest else record { result = failed; effects = step.effects }

abbrev with_status : ModelDeployment → ModelStatus → ModelDeployment
with_status md s = record md { status = s }

-- The loop over the adapters: the names that were loaded, or none if a request cannot be built.
pub record Loading : Type 0 where
  pub loaded : Option (List Bytes)
  pub effects : List Effect

abbrev pub nothing_loaded : Loading
nothing_loaded = record { loaded = some []; effects = [] }

abbrev is_loaded : AdapterReply → Bool
is_loaded (status_code n) = n == 200 || n == 204
is_loaded call_failed = false

abbrev with_name : Bool → Bytes → Option (List Bytes) → Option (List Bytes)
with_name ok name none = none
with_name ok name (some names) = if ok then some (name ∷ names) else some names

module _ (cluster : Cluster) where
  unfoldable pub existing_deployment_step : Deployment → Found Deployment → Applied
  existing_deployment_step d not_found =
      attempt (cluster.fails deployment_create) (deployment_created d)
  existing_deployment_step d get_failed = refused
  existing_deployment_step d (found old) =
      attempt (cluster.fails deployment_update)
        (deployment_updated (record old { template = d.template }))

  unfoldable pub reconcile_deployment : ModelDeployment → Engine → Applied
  unfolding existing_deployment_step
  reconcile_deployment md eng =
      if cluster.fails deployment_owner
      then refused
      else existing_deployment_step (desired_deployment cluster.model_cache_bucket md eng)
          cluster.existing_deployment

  existing_service_step : Service → Found Service → Applied
  existing_service_step s not_found = attempt (cluster.fails service_create) (service_created s)
  existing_service_step s get_failed = refused
  existing_service_step s (found old) = skipped

  unfoldable pub reconcile_service : ModelDeployment → Engine → Applied
  unfolding existing_service_step
  reconcile_service md eng =
      if cluster.fails service_owner
      then refused
      else existing_service_step (desired_service md eng) cluster.existing_service

  unfoldable pub reconcile_scaling : ModelDeployment → Engine → Applied
  reconcile_scaling md eng =
      if md.spec.scale_to_zero
      then attempt (cluster.fails scaling) (scaling_applied (desired_scaling md eng))
      else skipped

  -- `url` is the endpoint, `old` the adapters loaded before.
  unfoldable pub load_adapters : Bytes → List Bytes → List LoraAdapter → Loading
  load_adapters url old [] = nothing_loaded
  load_adapters url old (a ∷ adapters) =
      let rest = load_adapters url old adapters in
      let ok = is_loaded (cluster.load_adapter url a) in
      if contains_string old a.name
      then rest
      else if cluster.fails lora_request
      then record { loaded = none; effects = [] }
      else record {
        loaded = with_name ok a.name rest.loaded;
        effects = adapter_posted url a ∷ rest.effects;
      }

  abbrev adapter_url : ModelDeployment → Engine → Bytes
  adapter_url md eng =
      codes "http://"
      ++ (engine_name eng
          ++ b'-'
            ∷ (md.name
                ++ (codes ".openserve-inference.svc.cluster.local:"
                    ++ (format_nat (port eng) ++ codes "/v1/load_lora_adapter"))))

  -- The status that is kept, and what was done; errors are logged only.
  adapters_loaded : ModelDeployment → Loading → ModelDeployment × List Effect
  adapters_loaded md loading = elim loading.loaded [
    | none ↦ (md, loading.effects)
    | some [] ↦ (md, loading.effects)
    | some (n ∷ names) ↦
        let status = record (md.status) {
          loaded_adapters = md.status.loaded_adapters ++ n ∷ names;
        } in
        (
          with_status md status,
          loading.effects ++ (attempt (cluster.fails lora_status) (status_written status)).effects,
        )
  ]

  unfoldable pub reconcile_adapters : ModelDeployment → Engine → ModelDeployment × List Effect
  unfolding adapters_loaded
  reconcile_adapters md eng =
      if not (bytes_eq md.status.phase (codes "Running"))
        || not (bytes_eq (engine_name eng) (codes "vllm"))
      then (md, [])
      else adapters_loaded md
          (load_adapters (adapter_url md eng) md.status.loaded_adapters md.spec.lora_adapters)

  abbrev finish_status : Bool → ModelStatus → Outcome
  finish_status fails s = and_then (attempt fails (status_written s)) (stop done)

  -- The route, the adapters and the final status.
  unfoldable pub publish : ModelDeployment → Engine → Outcome
  publish md eng =
      let route = (attempt (cluster.fails routing) (route_added md.name)).effects in
      let routable =
        with_status md
          (set_condition endpoint_routable true (codes "RouteRegistered") [] md.status) in
      let (loaded, posted) = reconcile_adapters routable eng in
      let status = record (loaded.status) {
        endpoint = codes "https://" ++ (cluster.gateway_domain ++ (codes "/inference/" ++ md.name));
      } in
      and_then (record { succeeds = true; effects = route ++ posted })
        (finish_status (cluster.fails final_status) status)

  unfoldable pub apply : ModelDeployment → Engine → Outcome
  apply md eng =
      and_then (reconcile_deployment md eng)
        (and_then (reconcile_service md eng) (and_then (reconcile_scaling md eng) (publish md eng)))

  -- A status that reports a failure, and another run after some minutes.
  unfoldable pub report : Call → ℕ → ModelStatus → Outcome
  report call minutes s =
      and_then (attempt (cluster.fails call) (status_written s)) (stop (requeue_minutes minutes))

  unfoldable pub verified : ModelDeployment → Engine → CatalogModel → Option Bytes → Outcome
  unfolding apply
  verified md eng model (some msg) =
      report verify_status 2
        (set_condition weights_verified false (codes "VerificationFailed") msg md.status)
  verified md eng model none =
      apply
        (with_status md
          (record (set_condition weights_verified true (codes "Verified")
            (codes "SHA256 matches catalog manifest") md.status) {
              weight_digest = model.weight_digest;
              model_version = model.hf_revision;
            }))
        eng

  unfoldable pub gcs_path : ModelDeployment → CatalogModel → Bytes
  gcs_path md model =
      codes "gs://"
      ++ (cluster.model_cache_bucket
          ++ b'/' ∷ (md.spec.model_ref ++ b'/' ∷ (model.hf_revision ++ codes "/weights.tar")))

  unfoldable pub check_model : ModelDeployment → Engine → CatalogReply → Outcome
  unfolding verified
  check_model md eng (catalog_error msg) =
      report catalog_status 5
        (set_condition weights_verified false (codes "ModelNotInCatalog") msg md.status)
  check_model md eng (model_found model) =
      if weights_already_verified md model
      then apply md eng
      else note (weights_checked model (gcs_path md model))
          (verified md eng model (cluster.verify_weights model (gcs_path md model)))

  unfoldable pub ensure_finalizer : ModelDeployment → Engine → Outcome
  ensure_finalizer md eng =
      let kept = record md { finalizers = md.finalizers ++ finalizer ∷ [] } in
      if contains_string md.finalizers finalizer
      then check_model md eng (cluster.get_model md.spec.model_ref)
      else and_then (attempt (cluster.fails finalizer_update) (object_written kept))
          (check_model kept eng (cluster.get_model md.spec.model_ref))

  unfoldable pub delete_object : ModelDeployment → Outcome
  delete_object md =
      let left = record md { finalizers = remove_string md.finalizers finalizer } in
      if contains_string md.finalizers finalizer
      then and_then (attempt (cluster.fails route_removal) (route_removed md.name))
          (and_then (attempt (cluster.fails finalizer_removal) (object_written left)) (stop done))
      else stop done

  unfoldable pub with_engine : ModelDeployment → Option Engine → Outcome
  unfolding delete_object ensure_finalizer
  with_engine md none = stop failed
  with_engine md (some eng) = if md.deleting then delete_object md else ensure_finalizer md eng

  unfoldable pub reconcile : Found ModelDeployment → Outcome
  unfolding with_engine
  reconcile not_found = stop done
  reconcile get_failed = stop failed
  reconcile (found md) = with_engine md (for_type md.spec.engine)
