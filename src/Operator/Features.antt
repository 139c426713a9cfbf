-- ===== src/Operator/Features.antt =====
-- The controller of features: Reconcile of internal/operator/feature_controller.go. The clients of the cluster and
-- the runtime are parameters.
use natun.Prelude.{Bool, true, false, List, [], ◌∷◌, ◌++◌, none, some, if◌then◌else◌}
use natun.Prelude.Text.{Text}
use natun.Api.Errors.{Result, ok, err, panicked, ◌>>=◌}
use natun.Api.Descriptor.{Manifest, ResourceReference, is_empty, feature_fqn}
use natun.Api.Selector.{parse_selector}
use natun.Operator.Controllers.{
  other_error, ignore_not_found, SourceObject, ObjectClient, Reconciled, finished, add_to_source,
  delete_from_source,
}

-- A Feature of the cluster, with the fields of its status.
pub record FeatureObject : Type 0 where
  pub manifest : Manifest
  pub deleting : Bool
  pub finalizer : Bool
  pub status_fqn : Text
  pub ready : Bool
  pub status_dependencies : List ResourceReference

-- The references of the dependencies of a program, in the namespace of the feature where they name none.
unfoldable pub dependency_references : Text → List Text → Result (List ResourceReference)
dependency_references namespace [] = ok []
dependency_references namespace (dep ∷ deps) = do
  s ← parse_selector dep
  rest ← dependency_references namespace deps
  ok (
      record { name = s.name; namespace = if is_empty s.namespace then namespace else s.namespace }
      ∷ rest)

module _ {W : Type 0} (features : ObjectClient FeatureObject W)
    (sources : ObjectClient SourceObject W)
    (load_program : Text → Text → Text → List Text → Result (List Text)) where
  -- A feature that is being deleted
  unfoldable pub release_feature : ResourceReference → FeatureObject → W → Reconciled × W
  release_feature name f w =
      if f.finalizer
      then (let (e, w') = delete_from_source sources f.manifest w in
          elim e [
            | some x ↦ (finished (some x), w')
            | none ↦
                let (e', w'') = features.update name (record f { finalizer = false }) w' in
                (finished e', w'')
          ])
      else (finished none, w)

  -- The end of Reconcile, with the references of the program's dependencies, which are appended to those of
  -- the status.
  unfoldable pub finish_feature :
      ResourceReference
      → FeatureObject
      → Result (List ResourceReference)
      → W
      → Result Reconciled × W
  finish_feature name f panicked w = (panicked, w)
  finish_feature name f (err e) w = (ok (finished (some (other_error e))), w)
  finish_feature name f (ok refs) w =
      let (e, w') =
        features.update_status name
          (record f {
            status_dependencies = f.status_dependencies ++ refs;
            status_fqn = feature_fqn f.manifest;
            ready = true;
          })
          w in
      (ok (finished e), w')

  -- A feature with its finalizer: its data source, its program, its status. A data source that is not found
  -- is tried again after two seconds.
  unfoldable pub settle_feature : ResourceReference → FeatureObject → W → Result Reconciled × W
  settle_feature name f w =
      let (e, w') = add_to_source sources f.manifest w in
      let refs =
        (load_program f.manifest.runtime (feature_fqn f.manifest) f.manifest.code
            f.manifest.packages
          >>= λ deps. dependency_references f.manifest.namespace deps) in
      elim e [
        | some x ↦
            (ok (record { requeue_after = 2_000_000_000; error = ignore_not_found (some x) }), w')
        | none ↦ finish_feature name f refs w'
      ]

  -- FeatureReconciler.Reconcile for an object that is there
  unfoldable pub reconcile_feature : ResourceReference → FeatureObject → W → Result Reconciled × W
  reconcile_feature name f w =
      if f.deleting
      then (let (r, w') = release_feature name f w in (ok r, w'))
      else if f.finalizer
      then settle_feature name f w
      else (let (e, w') = features.update name (record f { finalizer = true }) w in
          elim e [
            | some x ↦ (ok (finished (some x)), w')
            | none ↦ settle_feature name (record f { finalizer = true }) w'
          ])
