-- ===== src/Operator/Controller/Deletion.antt =====
-- About deletion and `reconcileDeployment` in
-- operator/internal/controller/modeldeployment_controller.go.
use openserve.Prelude.{
  subst, Bytes, bytes_eq, bytes_eq_iff, true, false, List, [], ◌∷◌, ◌≡◌, ◌⊎◌, inl, inr, refl, arith,
  Bool-cases, Option-cases, if◌then◌else◌,
}
use openserve.Operator.Engine.{Engine, for_type}
use openserve.Operator.Sync.{Found, found, not_found, get_failed}
use openserve.Operator.Types.{
  ModelDeployment, Deployment, route_removal, finalizer_removal, Effect, object_written,
  route_removed, deployment_updated, deployment_created,
}
use openserve.Operator.Controller.{
  Cluster, finalizer, contains_string, remove_string, desired_deployment,
}
use openserve.Operator.Controller.Reconcile.{
  and_then, delete_object, with_engine, reconcile, reconcile_deployment, existing_deployment_step,
}

contains_string-remove_string :
    (vs : List Bytes) (s t : Bytes)
    → contains_string (remove_string vs s) t
      ≡ (if bytes_eq s t then false else contains_string vs t)
unfolding contains_string remove_string
contains_string-remove_string [] s t = ground arith
contains_string-remove_string (v ∷ vs) s t = ground (
  arith,
  bytes_eq_iff s t,
  bytes_eq_iff v s,
  bytes_eq_iff v t,
  contains_string-remove_string vs s t,
)

-- What the run did in the cluster: nothing, or the route was removed, or the route was removed and
-- then the object written without the finalizer and with every other one.
abbrev pub LetGo : ModelDeployment → List Effect → Type 0
LetGo md effects =
    (effects ≡ [])
    ⊎ ((effects ≡ route_removed md.name ∷ [])
        ⊎ ((left : ModelDeployment) × (effects ≡ route_removed md.name ∷ object_written left ∷ [])
            × ((s : Bytes)
                → contains_string left.finalizers s
                  ≡ (if bytes_eq finalizer s then false else contains_string md.finalizers s))))

Found-cases :
    {A : Type 0} (f : Found A) → ((a : A) × (f ≡ found a)) ⊎ ((f ≡ not_found) ⊎ (f ≡ get_failed))
Found-cases (found a) = inl (a, refl)
Found-cases not_found = inr (inl refl)
Found-cases get_failed = inr (inr refl)

module _ (cluster : Cluster) where
  delete_object-LetGo : (md : ModelDeployment) → LetGo md (delete_object cluster md).effects
  unfolding delete_object and_then
  delete_object-LetGo md = elim (Bool-cases (contains_string md.finalizers finalizer)) [
    | inl there ↦ elim (Bool-cases (cluster.fails route_removal)) [
      | inl stuck ↦ inl (ground arith)
      | inr gone ↦ elim (Bool-cases (cluster.fails finalizer_removal)) [
        | inl stuck ↦ inr (inl (ground arith))
        | inr free ↦ inr (
            inr (
              record md { finalizers = remove_string md.finalizers finalizer },
              ground arith,
              contains_string-remove_string md.finalizers finalizer,
            ))
      ]
    ]
    | inr missing ↦ inl (ground arith)
  ]

  -- For an object that is being deleted, whatever calls fail: the finalizer is taken off only
  -- behind the removal of the gateway's route, and no other finalizer with it; before that the
  -- run changes nothing else.
  pub reconcile-LetGo :
      (md : ModelDeployment) → md.deleting ≡ true → LetGo md (reconcile cluster (found md)).effects
  unfolding reconcile with_engine
  reconcile-LetGo md deleting = elim (Option-cases (for_type md.spec.engine)) [
    | inl lost ↦ inl (ground arith)
    | inr (engine, known) ↦ subst (λ es. LetGo md es) (ground arith) (delete_object-LetGo md)
  ]

  -- An update of a deployment that exists replaces its pod template by the desired one and keeps
  -- everything else, its number of replicas above all; where it does not exist the desired one is
  -- created.
  pub reconcile_deployment_lem :
      (md : ModelDeployment) (eng : Engine) (e : Effect) (es : List Effect)
      → (reconcile_deployment cluster md eng).effects ≡ e ∷ es
      → ((old : Deployment) × (cluster.existing_deployment ≡ found old)
          × (e
              ≡ deployment_updated (record old {
                template = (desired_deployment cluster.model_cache_bucket md eng).template;
              })))
        ⊎ ((cluster.existing_deployment ≡ not_found)
            × (e ≡ deployment_created (desired_deployment cluster.model_cache_bucket md eng)))
  unfolding reconcile_deployment existing_deployment_step
  reconcile_deployment_lem md eng e es h = elim (Found-cases cluster.existing_deployment) [
    | inl (old, there) ↦ inl (old, there, ground arith)
    | inr (inl missing) ↦ inr (missing, ground arith)
    | inr (inr lost) ↦ ground arith
  ]
