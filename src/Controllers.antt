-- ===== src/Controllers.antt =====
-- The controllers that bind the features, the models and the data sources of the cluster to the engine of a core
-- or to a historian: internal/engine/controllers. What the Kubernetes API answers is a parameter.
pub mod Synced
pub mod Gone
use natun.Prelude.{ℕ, Bool, true, false, not, ◌&&◌, List, [], Option, none, some, if◌then◌else◌}
use natun.Prelude.Text.{Text, codes}
use natun.Api.Errors.{Error, Result, ok, err, panicked, ◌>>=◌}
use natun.Api.Primitive
use natun.Api.Primitive.{to_text}
use natun.Api.Descriptor.{Manifest, ResourceReference, feature_fqn, reference_fqn}
use natun.Engine.Registry
use natun.Engine.Registry.{Registry, Plugins, DataSource}
use natun.Historian.Server
use natun.Historian.Server.{Historian, HistoricalWriter}
use natun.Builders.Model.{ModelDescriptor}
use natun.Operator.Controllers.{
  ClusterError, not_found_error, other_error, ignore_not_found, ObjectAnswer, got_object,
  get_failed, Reconciled, finished,
}

-- The methods of api.FeatureManager that the controllers call, over its state S.
pub record FeatureManager (S : Type 0) : Type 0 where
  pub has : Text → S → Bool
  pub unbind : Text → S → Option Error × S
  pub bind : Manifest → S → Result (Unit {0}) × S

-- The engine as a FeatureManager.
abbrev pub engine_manager : {M C : Type 0} → Plugins M C → FeatureManager (Registry M C)
engine_manager p = record {
  has = Registry.has_feature;
  unbind = Registry.unbind_feature;
  bind = Registry.bind_feature p;
}

-- The historian as a FeatureManager; its UnbindFeature returns nil.
abbrev pub historian_manager :
    {F M H C : Type 0}
    → HistoricalWriter F M H
    → (Manifest → Result M)
    → FeatureManager (Historian F H C)
historian_manager writer read_model = record {
  has = Server.has_feature;
  unbind = λ fqn h. (none, Server.unbind_feature fqn h);
  bind = Server.bind_feature writer read_model;
}

-- A Feature of the cluster, and whether it has a time of deletion.
pub record FeatureObject : Type 0 where
  pub manifest : Manifest
  pub deleting : Bool

abbrev pub ten_seconds : ℕ
ten_seconds = 10_000_000_000

abbrev pub engine_error : Option Error → Option ClusterError
engine_error none = none
engine_error (some e) = some (other_error e)

module _ {S : Type 0} (mgr : FeatureManager S) where
  -- The end of both reconcilers: a bind that fails is tried again later.
  unfoldable pub bound_or_later : Result (Unit {0}) × S → Result Reconciled × S
  bound_or_later (panicked, s) = (panicked, s)
  bound_or_later (err e, s) = (ok (record { requeue_after = ten_seconds; error = none }), s)
  bound_or_later (ok _, s) = (ok (finished none), s)

  -- What follows an unbind in front of a bind.
  unfoldable pub bind_after : Manifest → Option Error × S → Result Reconciled × S
  bind_after m (some e, s) = (ok (finished (some (other_error e))), s)
  bind_after m (none, s) = bound_or_later (mgr.bind m s)

  -- An object that is being deleted
  unfoldable pub release_feature : Text → S → Result Reconciled × S
  release_feature fqn s = let (e, s') = mgr.unbind fqn s in (ok (finished (engine_error e)), s')

  -- FeatureReconciler.Reconcile for an object that is there and is not being deleted
  unfoldable pub sync_feature : Bool → Manifest → S → Result Reconciled × S
  sync_feature updates_allowed m s =
      if mgr.has (feature_fqn m) s
      then (if updates_allowed
          then bind_after m (mgr.unbind (feature_fqn m) s)
          else (ok (finished none), s))
      else bound_or_later (mgr.bind m s)

  -- FeatureReconciler.Reconcile
  unfoldable pub reconcile_feature : Bool → ObjectAnswer FeatureObject → S → Result Reconciled × S
  reconcile_feature updates_allowed (get_failed e) s =
      (ok (finished (ignore_not_found (some e))), s)
  reconcile_feature updates_allowed (got_object o) s =
      if o.deleting
      then release_feature (feature_fqn o.manifest) s
      else sync_feature updates_allowed o.manifest s

-- A Model of the cluster as far as the controller reads it.
pub record ModelObject : Type 0 where
  pub name : Text
  pub namespace : Text
  pub freshness : ℕ
  pub staleness : ℕ
  pub timeout : ℕ
  pub keys : List Text
  pub features : List Text
  pub key_feature : Text
  pub model_framework : Text
  pub model_server : Text
  pub deleting : Bool

-- The Feature that stands for a model, with its raw builder
unfoldable pub feature_of_model : ModelObject → Text → Manifest
feature_of_model o raw = record {
  namespace = o.namespace;
  name = o.name;
  primitive = to_text Primitive.float;
  freshness = o.freshness;
  staleness = o.staleness;
  timeout = o.timeout;
  keep_previous = none;
  keys = o.keys;
  data_source = none;
  kind = codes "model";
  aggr = [];
  aggr_granularity = 0;
  runtime = [];
  code = [];
  packages = [];
  dependencies = [];
  raw = raw;
}

unfoldable pub model_descriptor : {I : Type 0} → ModelObject → I → ModelDescriptor I
model_descriptor o config = record {
  features = o.features;
  key_feature = o.key_feature;
  keys = o.keys;
  model_framework = o.model_framework;
  model_server = o.model_server;
  inference_config = config;
}

module _ {S I : Type 0} (mgr : FeatureManager S) (parse_config : ModelObject → Result I)
    (marshal : ModelDescriptor I → Result Text) where
  -- The raw builder: ParseInferenceConfig and json.Marshal
  unfoldable pub raw_builder : ModelObject → Result Text
  raw_builder o = parse_config o >>= λ config. marshal (model_descriptor o config)

  -- ModelReconciler.Reconcile for an object whose builder is known
  unfoldable pub sync_model : ModelObject → Result Text → S → Result Reconciled × S
  sync_model o panicked s = (panicked, s)
  sync_model o (err e) s = (ok (finished (some (other_error e))), s)
  sync_model o (ok raw) s =
      if o.deleting
      then release_feature mgr (feature_fqn (feature_of_model o raw)) s
      else sync_feature mgr true (feature_of_model o raw) s

  -- ModelReconciler.Reconcile
  unfoldable pub reconcile_model : ObjectAnswer ModelObject → S → Result Reconciled × S
  reconcile_model (get_failed e) s = (ok (finished (ignore_not_found (some e))), s)
  reconcile_model (got_object o) s = sync_model o (raw_builder o) s

-- A DataSource of the cluster as far as the controller reads it.
pub record SourceManifest : Type 0 where
  pub reference : ResourceReference
  pub kind : Text
  pub deleting : Bool

-- DataSourceFromManifest
unfoldable pub data_source_from_manifest :
    {C : Type 0} → (SourceManifest → Result C) → SourceManifest → Result (DataSource C)
data_source_from_manifest parse_config o = parse_config o >>= λ config.
    ok (record { fqn = reference_fqn o.reference; kind = o.kind; config = config })

module _ {M C : Type 0} (parse_config : SourceManifest → Result C) where
  -- BindDataSource; where it fails, the controller gives both a time and the error.
  unfoldable pub bind_source :
      Result (DataSource C) → Registry M C → Result Reconciled × Registry M C
  bind_source panicked e = (panicked, e)
  bind_source (err x) e = (ok (finished (some (other_error x))), e)
  bind_source (ok d) e =
      let (x, e') = Registry.bind_data_source d e in
      (
        ok (elim x [
          | none ↦ finished none
          | some y ↦ record { requeue_after = ten_seconds; error = some (other_error y) }
        ]),
        e',
      )

  -- DataSourceReconciler.Reconcile for an object that is not being deleted
  unfoldable pub sync_source : SourceManifest → Registry M C → Result Reconciled × Registry M C
  sync_source o e =
      if Registry.has_data_source (reference_fqn o.reference) e
      then (let (x, e') = Registry.unbind_data_source (reference_fqn o.reference) e in
          elim x [
            | some y ↦ (ok (finished (some (other_error y))), e')
            | none ↦ bind_source (data_source_from_manifest parse_config o) e'
          ])
      else bind_source (data_source_from_manifest parse_config o) e

  -- DataSourceReconciler.Reconcile
  unfoldable pub reconcile_data_source :
      ObjectAnswer SourceManifest → Registry M C → Result Reconciled × Registry M C
  reconcile_data_source (get_failed e) r = (ok (finished (ignore_not_found (some e))), r)
  reconcile_data_source (got_object o) r =
      if o.deleting
      then (let (x, r') = Registry.unbind_data_source (reference_fqn o.reference) r in
          (ok (finished (engine_error x)), r'))
      else sync_source o r
