-- ===== src/Operator/Webhook.antt =====
-- The admission of features: internal/operator/feature_webhook.go, with the engine of internal/engine/dummy.go.
-- The client of the cluster and the reading of a DataSource from its manifest are parameters.
pub mod Admission
use natun.Prelude.{
  ℕ, ◌/◌, ◌≡◌, Bool, true, false, not, ◌&&◌, List, [], ◌∷◌, Option, none, some, ltb, if◌then◌else◌,
}
use natun.Prelude.Int.{ℤ, pos}
use natun.Prelude.Text.{Text, codes}
use natun.Api.Errors.{
  Error, Result, ok, err, panicked, ◌>>=◌, data_source_not_found, feature_immutable, model_exists,
}
use natun.Api.Descriptor.{
  Manifest, ResourceReference, object_key, is_empty, descriptor_from_manifest,
}
use natun.Engine.Priority.{FeaturePipeliner}
use natun.Engine.Registry.{DataSource, Registry, Plugins, feature_with_engine}

-- The answer of the cluster to a Get.
pub data Lookup (R : Type 0) : Type 0 where
  found : R → Lookup R
  missing : Lookup R
  failed : Error → Lookup R

-- The client, for the manifests of data sources D and for models, of which only the presence counts;
-- api.DataSourceFromManifest; and equality.Semantic.DeepEqual of two specifications.
pub record ClusterOps (D C : Type 0) : Type 0 where
  pub get_data_source : ResourceReference → Lookup D
  pub get_model : Text → Text → Lookup (Unit {0})
  pub data_source_from_manifest : D → Result (DataSource C)
  pub same_spec : Manifest → Manifest → Bool

-- `ok && ar.DryRun == nil || ok && !*ar.DryRun` for the admission request in the context.
unfoldable pub is_live : Option (Option Bool) → Bool
is_live none = false
is_live (some none) = true
is_live (some (some dry_run)) = not dry_run

-- The data source that a manifest refers to, as the cluster has it.
unfoldable pub fetch_data_source :
    {D C : Type 0} → ClusterOps D C → ResourceReference → Result (DataSource C)
fetch_data_source cluster r = elim (cluster.get_data_source (object_key r)) [
  | missing ↦ err data_source_not_found
  | failed e ↦ err e
  | found d ↦ cluster.data_source_from_manifest d
]

-- The first step of Default: a data source without a namespace is in that of the feature.
unfoldable pub default_namespace : Manifest → Manifest
default_namespace m = elim m.data_source [
  | none ↦ m
  | some r ↦
      if is_empty r.namespace
      then record m { data_source = some (record r { namespace = m.namespace }) }
      else m
]

-- Where the granularity of the aggregation sets the freshness.
unfoldable pub default_freshness : Manifest → Manifest
default_freshness m =
    if ltb 0 (m.aggr_granularity / 1_000_000) && not (is_empty m.aggr)
    then record m { freshness = m.aggr_granularity }
    else m

module _ {M D C : Type 0} (plugins : Plugins M C) (cluster : ClusterOps D C) where
  -- The kind of builder that a kind of data source is mapped to.
  unfoldable pub mapped_kind : Text → Text
  mapped_kind kind = elim (plugins.applier kind) [ none ↦ [] | some applier ↦ kind ]

  -- The kind of builder of a manifest that has none.
  unfoldable pub default_kind : Option (Option Bool) → Manifest → Result Text
  default_kind request m = elim m.data_source [
    | none ↦ ok []
    | some r ↦
        if is_live request
        then (fetch_data_source cluster r >>= λ src. ok (mapped_kind src.kind))
        else ok []
  ]

  -- Default
  unfoldable pub default : Option (Option Bool) → Manifest → Result Manifest
  default request m =
      let m' = default_namespace m in
      if is_empty m'.kind
      then (default_kind request m' >>= λ kind. ok (
          default_freshness
            (record m' { kind = if is_empty kind then codes "sourceless" else kind })))
      else ok m'

  -- engine.Dummy: GetDataSource gives its data source for any name, so also for the one that is asked for.
  unfoldable pub dummy_engine : Text → DataSource C → Registry M C
  dummy_engine name src = record {
    features = [];
    data_sources = (name, src) ∷ [];
    feature_gauge = pos 0;
  }

  module _ (zero_config : C) where
    -- The data source of the dummy engine, at its zero value where it is not read.
    unfoldable pub dummy_source : Option (Option Bool) → Manifest → Result (DataSource C)
    dummy_source request m =
        let zero_source : DataSource C = record { fqn = []; kind = []; config = zero_config } in
        elim m.data_source [
          | none ↦ ok zero_source
          | some r ↦ if is_live request then fetch_data_source cluster r else ok zero_source
        ]

    -- Validate
    unfoldable pub validate : Option (Option Bool) → Manifest → Result (Unit {0})
    validate request m = do
      src ← dummy_source request m
      fd ← (descriptor_from_manifest m).0
      f ← feature_with_engine plugins m (dummy_engine fd.data_source src)
      ok tt

    -- The lookup of a model with the name of the feature: an error other than a missing one refuses.
    unfoldable pub check_model : Option (Option Bool) → Manifest → Result (Unit {0})
    check_model request m =
        if is_live request
        then elim (cluster.get_model m.namespace m.name) [
          | found _ ↦ ok tt
          | missing ↦ ok tt
          | failed e ↦ err model_exists
        ]
        else ok tt

    -- ValidateCreate
    unfoldable pub validate_create : Option (Option Bool) → Manifest → Result (Unit {0})
    validate_create request m = check_model request m >>= λ _. validate request m

    -- ValidateUpdate
    unfoldable pub validate_update :
        Bool → Option (Option Bool) → Manifest → Manifest → Result (Unit {0})
    validate_update updates_allowed request old m =
        if not (cluster.same_spec old m) && not updates_allowed
        then err feature_immutable
        else validate request m

    -- ValidateDelete
    unfoldable pub validate_delete : Manifest → Result (Unit {0})
    validate_delete m = ok tt
