-- ===== src/Operator/Controllers.antt =====
-- The features of a data source and its controller: addToSource and deleteFromSource of
-- internal/operator/feature_controller.go, and Reconcile of datasource_controller.go. The client of the cluster,
-- over a cluster of type W, is a parameter, and so is the reconciler of a kind of data source.
pub mod Deletion
use natun.Prelude.{
  ℕ, ◌≡◌, Bool, true, false, not, ◌||◌, List, [], ◌∷◌, ◌++◌, Option, none, some, if◌then◌else◌,
}
use natun.Prelude.Text.{Text, text_eq}
use natun.Api.Errors.{Error, Result, ok, err, panicked, ◌>>=◌}
use natun.Api.Descriptor.{Manifest, ResourceReference, object_key, is_empty, feature_fqn}
use natun.Api.Selector.{parse_selector}

-- An error of the client: apierrors.IsNotFound, or another one.
pub data ClusterError : Type 0 where
  not_found_error : ClusterError
  other_error : Error → ClusterError

-- client.IgnoreNotFound
unfoldable pub ignore_not_found : Option ClusterError → Option ClusterError
ignore_not_found none = none
ignore_not_found (some not_found_error) = none
ignore_not_found (some (other_error e)) = some (other_error e)

-- A DataSource of the cluster as far as the controllers read it: whether it is being deleted, whether it has
-- the finalizer, its kind and the features of its status.
pub record SourceObject : Type 0 where
  pub deleting : Bool
  pub finalizer : Bool
  pub kind : Text
  pub features : List ResourceReference

pub data ObjectAnswer (R : Type 0) : Type 0 where
  got_object : R → ObjectAnswer R
  get_failed : ClusterError → ObjectAnswer R

-- Get, Update and Status().Update, each for the object of a name.
pub record ObjectClient (O W : Type 0) : Type 0 where
  pub get : ResourceReference → W → ObjectAnswer O
  pub update : ResourceReference → O → W → Option ClusterError × W
  pub update_status : ResourceReference → O → W → Option ClusterError × W

-- ctrl.Result with the error; the time is in nanoseconds.
pub record Reconciled : Type 0 where
  pub requeue_after : ℕ
  pub error : Option ClusterError

abbrev pub finished : Option ClusterError → Reconciled
finished e = record { requeue_after = 0; error = e }

-- feature.ResourceReference()
abbrev pub own_reference : Manifest → ResourceReference
own_reference m = record { name = m.name; namespace = m.namespace }

-- The key of a data source; without a namespace it is in that of the feature.
unfoldable pub source_reference : Manifest → ResourceReference → ResourceReference
source_reference m r =
    object_key (if is_empty r.namespace then record r { namespace = m.namespace } else r)

-- The loop that looks for the name of a feature.
unfoldable pub lists_name : Text → List ResourceReference → Bool
lists_name name [] = false
lists_name name (f ∷ fs) = text_eq f.name name || lists_name name fs

-- The loop that keeps the features of other names.
unfoldable pub without_name : Text → List ResourceReference → List ResourceReference
without_name name [] = []
without_name name (f ∷ fs) =
    let rest = without_name name fs in if text_eq f.name name then rest else f ∷ rest

module _ {W : Type 0} (sources : ObjectClient SourceObject W) where
  -- addToSource
  unfoldable pub add_to_source : Manifest → W → Option ClusterError × W
  add_to_source m w = elim m.data_source [
    | none ↦ (none, w)
    | some r ↦ elim (sources.get (source_reference m r) w) [
      | get_failed e ↦ (some e, w)
      | got_object src ↦
          if lists_name m.name src.features
          then (none, w)
          else sources.update_status (source_reference m r)
              (record src { features = src.features ++ (own_reference m ∷ []) }) w
    ]
  ]

  -- deleteFromSource
  unfoldable pub delete_from_source : Manifest → W → Option ClusterError × W
  delete_from_source m w = elim m.data_source [
    | none ↦ (none, w)
    | some r ↦ elim (sources.get (source_reference m r) w) [
      | get_failed e ↦ (ignore_not_found (some e), w)
      | got_object src ↦
          if is_empty src.features
          then (none, w)
          else sources.update_status (source_reference m r)
              (record src { features = without_name m.name src.features }) w
    ]
  ]

  -- What follows the finalizer of a data source that is not being deleted; `reconcile` is the reconciler of a
  -- kind, which tells whether it has changed something.
  unfoldable pub reconcile_kind :
      (Text → Option (SourceObject → W → Result Bool × W))
      → SourceObject
      → W
      → Result Reconciled × W
  reconcile_kind reconcile src w = elim (reconcile src.kind) [
    | none ↦ (ok (finished none), w)
    | some run ↦
        let (r, w') = run src w in
        (
          elim r [
            | panicked ↦ panicked
            | err e ↦ ok (finished (some (other_error e)))
            | ok changed ↦ ok (
                if changed
                then record { requeue_after = 60_000_000_000; error = none }
                else finished none)
          ],
          w',
        )
  ]

  -- A data source that is being deleted and has the finalizer.
  unfoldable pub release_source :
      Error → ResourceReference → SourceObject → W → Result Reconciled × W
  release_source has_features name src w =
      if not (is_empty src.features)
      then (ok (finished (some (other_error has_features))), w)
      else (let (e, w') = sources.update name (record src { finalizer = false }) w in
          (ok (finished e), w'))

  -- The finalizer of a data source that is not being deleted.
  unfoldable pub keep_source : ResourceReference → SourceObject → W → Option ClusterError × W
  keep_source name src w =
      if src.finalizer then (none, w) else sources.update name (record src { finalizer = true }) w

  -- DataSourceReconciler.Reconcile for an object that is there
  unfoldable pub reconcile_source :
      (Text → Option (SourceObject → W → Result Bool × W))
      → Error
      → ResourceReference
      → SourceObject
      → W
      → Result Reconciled × W
  reconcile_source reconcile has_features name src w =
      if src.deleting
      then (if src.finalizer
          then release_source has_features name src w
          else (ok (finished none), w))
      else (let (e, w') = keep_source name src w in
          elim e [
            | some x ↦ (ok (finished (some x)), w')
            | none ↦ reconcile_kind reconcile (record src { finalizer = true }) w'
          ])
