-- ===== src/Operator/Controller/Laws.antt =====
-- What must hold before a run of `Reconcile` in
-- operator/internal/controller/modeldeployment_controller.go touches a deployment.
use openserve.Prelude.{
  ℕ, bytes_eq_iff, true, false, List, [], ◌∷◌, ◌++◌, Option, none, some, ◌≡◌, ◌⊎◌, inl, inr, refl,
  arith, Bool-cases, Option-cases, subst, sym,
}
use openserve.Operator.Engine.{Engine, for_type}
use openserve.Operator.Sync.{Found, found, not_found, get_failed}
use openserve.Operator.Types.{
  ModelStatus, ModelDeployment, CatalogModel, Deployment, CatalogReply, model_found, catalog_error,
  Call, finalizer_update, catalog_status, verify_status, Effect, object_written, status_written,
  weights_checked, deployment_created, deployment_updated, service_created, scaling_applied,
  route_added, route_removed, adapter_posted, Outcome,
}
use openserve.Operator.Controller.{Cluster, finalizer, contains_string, weights_already_verified}
use openserve.Operator.Controller.Reconcile.{
  and_then, report, check_model, verified, gcs_path, ensure_finalizer, delete_object, with_engine,
  reconcile,
}

-- The deployments that a run creates or updates, and the objects that it writes.
unfoldable pub rolled_out : List Effect → List Deployment
rolled_out [] = []
rolled_out (deployment_created d ∷ es) = d ∷ rolled_out es
rolled_out (deployment_updated d ∷ es) = d ∷ rolled_out es
rolled_out (object_written md ∷ es) = rolled_out es
rolled_out (status_written s ∷ es) = rolled_out es
rolled_out (weights_checked model path ∷ es) = rolled_out es
rolled_out (service_created s ∷ es) = rolled_out es
rolled_out (scaling_applied s ∷ es) = rolled_out es
rolled_out (route_added n ∷ es) = rolled_out es
rolled_out (route_removed n ∷ es) = rolled_out es
rolled_out (adapter_posted u a ∷ es) = rolled_out es

nothing_rolled_out : (ds es : List Deployment) (d : Deployment) → ds ≡ [] → ¬ (ds ≡ d ∷ es)
nothing_rolled_out ds es d h e = ground arith

module _ (cluster : Cluster) where
  -- The weights of the model were checked before, or in this run.
  abbrev pub IsVerified : ModelDeployment → CatalogModel → Type 0
  IsVerified md model =
      (md.status.weight_digest ≡ model.weight_digest)
      ⊎ (cluster.verify_weights model (gcs_path cluster md model) ≡ none)

  -- The first effect of the run is the object, written with the finalizer behind its others.
  abbrev pub WritesFinalizer : ModelDeployment → List Effect → Type 0
  WritesFinalizer md es =
      (later : List Effect) × (es
        ≡ object_written (record md { finalizers = md.finalizers ++ finalizer ∷ [] }) ∷ later)

  -- What holds of the object when a run with these effects touches its deployment.
  pub record IsReady (got : Found ModelDeployment) (es : List Effect) : Type 0 where
    pub md : ModelDeployment
    pub engine : Engine
    pub model : CatalogModel
    pub present : got ≡ found md
    pub known : for_type md.spec.engine ≡ some engine
    pub kept : md.deleting ≡ false
    pub guarded : (contains_string md.finalizers finalizer ≡ true) ⊎ WritesFinalizer md es
    pub in_catalog : cluster.get_model md.spec.model_ref ≡ model_found model
    pub checked : IsVerified md model

  report-rolled_out :
      (call : Call) (minutes : ℕ) (s : ModelStatus)
      → rolled_out (report cluster call minutes s).effects ≡ []
  unfolding report and_then rolled_out
  report-rolled_out call minutes s = ground arith

  check_model-rolled_out :
      (md : ModelDeployment) (eng : Engine) (reply : CatalogReply) (d : Deployment)
      (ds : List Deployment)
      → rolled_out (check_model cluster md eng reply).effects ≡ d ∷ ds
      → (model : CatalogModel) × (reply ≡ model_found model) × IsVerified md model
  unfolding check_model verified rolled_out
  check_model-rolled_out md eng (catalog_error msg) d ds e =
      absurd (nothing_rolled_out _ ds d (report-rolled_out catalog_status 5 _) e)
  check_model-rolled_out md eng (model_found model) d ds e =
      elim (Bool-cases (weights_already_verified md model)) [
        | inl same ↦
            (model, refl, inl ((bytes_eq_iff md.status.weight_digest model.weight_digest).0 same))
        | inr fresh ↦
            elim (Option-cases (cluster.verify_weights model (gcs_path cluster md model))) [
              | inl fine ↦ (model, refl, inr fine)
              | inr (msg, bad) ↦ absurd (
                  nothing_rolled_out _ ds d (report-rolled_out verify_status 2 _)
                    (rw (fresh, bad) at e))
            ]
      ]

  ensure_finalizer-rolled_out :
      (md : ModelDeployment) (eng : Engine) (d : Deployment) (ds : List Deployment)
      → rolled_out (ensure_finalizer cluster md eng).effects ≡ d ∷ ds
      → ((contains_string md.finalizers finalizer ≡ true)
          ⊎ WritesFinalizer md (ensure_finalizer cluster md eng).effects)
        × (model : CatalogModel) × (cluster.get_model md.spec.model_ref ≡ model_found model)
        × IsVerified md model
  unfolding ensure_finalizer and_then rolled_out gcs_path
  ensure_finalizer-rolled_out md eng d ds e =
      let kept = record md { finalizers = md.finalizers ++ finalizer ∷ [] } in
      let reply = cluster.get_model md.spec.model_ref in
      elim (Bool-cases (contains_string md.finalizers finalizer)) [
        | inl there ↦
            let (model, in_catalog, checked) =
              check_model-rolled_out md eng reply d ds (rw there at e) in
            (inl there, model, in_catalog, checked)
        | inr missing ↦ elim (Bool-cases (cluster.fails finalizer_update)) [
          | inl fails ↦ ground arith
          | inr works ↦
              let (model, in_catalog, checked) =
                check_model-rolled_out kept eng reply d ds (rw (missing, works) at e) in
              (
                inr ((check_model cluster kept eng reply).effects, rw (missing, works)),
                model,
                in_catalog,
                checked,
              )
        ]
      ]

  delete_object-rolled_out :
      (md : ModelDeployment) → rolled_out (delete_object cluster md).effects ≡ []
  unfolding delete_object and_then rolled_out
  delete_object-rolled_out md = ground arith

  with_engine-rolled_out :
      (md : ModelDeployment) (eng : Option Engine) (d : Deployment) (ds : List Deployment)
      → rolled_out (with_engine cluster md eng).effects ≡ d ∷ ds
      → (engine : Engine) × (eng ≡ some engine)
        × (md.deleting ≡ false)
        × (with_engine cluster md eng ≡ ensure_finalizer cluster md engine)
        × (rolled_out (ensure_finalizer cluster md engine).effects ≡ d ∷ ds)
  unfolding with_engine rolled_out
  with_engine-rolled_out md none d ds e = ground arith
  with_engine-rolled_out md (some engine) d ds e = elim (Bool-cases md.deleting) [
    | inl deleting ↦ ground (arith, delete_object-rolled_out md)
    | inr kept ↦ (engine, refl, kept, rw kept, ground arith)
  ]

  -- When a run creates or updates a deployment, the object is there and not being deleted, its
  -- engine is known, its finalizer was there or the run's first effect is the object written with the
  -- finalizer behind its others, the catalog has its model,
  -- and the model's weights have the digest in the object's status or passed the check in this run.
  pub reconcile-IsReady :
      (got : Found ModelDeployment) (d : Deployment) (ds : List Deployment)
      → rolled_out (reconcile cluster got).effects ≡ d ∷ ds
      → IsReady got (reconcile cluster got).effects
  unfolding reconcile rolled_out
  reconcile-IsReady not_found d ds e = ground arith
  reconcile-IsReady get_failed d ds e = ground arith
  reconcile-IsReady (found md) d ds e =
      let (engine, known, kept, same, e1) =
        with_engine-rolled_out md (for_type md.spec.engine) d ds e in
      let (guarded, model, in_catalog, checked) = ensure_finalizer-rolled_out md engine d ds e1 in
      record {
        md = md;
        engine = engine;
        model = model;
        present = refl;
        known = known;
        kept = kept;
        guarded =
            subst
              (λ (o : Outcome).
                (contains_string md.finalizers finalizer ≡ true) ⊎ WritesFinalizer md o.effects)
              (sym same) guarded;
        in_catalog = in_catalog;
        checked = checked;
      }
