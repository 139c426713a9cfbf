-- ===== src/Engine/Registry.antt =====
-- The features and data sources of the engine: internal/engine/engine_bind.go.
pub mod Bind
use natun.Prelude.{
  ℕ, ◌≡◌, refl, Bool, true, false, not, List, [], ◌∷◌, Option, none, some, arith, lookup, insert,
  delete, if◌then◌else◌,
}
use natun.Prelude.Int.{ℤ, pos, negsuc, ◌+ℤ◌}
use natun.Prelude.Text.{Text, codes, text_eq}
use natun.Api.Errors.{
  Error, Result, ok, err, panicked, ◌>>=◌, feature_already_exists, data_source_not_found,
  primitive_mismatch, no_builder,
}
use natun.Api.Primitive.{PrimitiveType, primitive_eq}
use natun.Api.Descriptor.{FeatureDescriptor, Manifest, is_empty, descriptor_from_manifest}
use natun.Engine.Priority.{FeaturePipeliner}

-- api.DataSource; the configuration is of a type that the builders choose.
pub record DataSource (C : Type 0) : Type 0 where
  pub fqn : Text
  pub kind : Text
  pub config : C

-- The maps of the engine, and the gauge of package internal/stats.
pub record Registry (M C : Type 0) : Type 0 where
  pub features : List (Text × FeaturePipeliner M)
  pub data_sources : List (Text × DataSource C)
  pub feature_gauge : ℤ

-- What the engine calls of the runtime (a server for Python programs) and of the table of builders.
pub record Plugins (M C : Type 0) : Type 0 where
  -- RuntimeManager.LoadProgram(env, fqn, code, packages), the primitive of the program
  pub load_program : Text → Text → Text → List Text → Result PrimitiveType
  -- plugins.FeatureAppliers.Get(builder), and the call of it
  pub applier :
      Text
      → Option (
          FeatureDescriptor
          → Manifest
          → List (Text × DataSource C)
          → FeaturePipeliner M
          → Result (FeaturePipeliner M))

-- &FeaturePipeliner{FeatureDescriptor: *fd}
abbrev pub new_pipeliner : {M : Type 0} → FeatureDescriptor → FeaturePipeliner M
new_pipeliner fd = record {
  descriptor = fd;
  pre_get = [];
  post_get = [];
  pre_set = [];
  post_set = [];
}

module _ {M C : Type 0} where
  unfoldable pub has_feature : Text → Registry M C → Bool
  has_feature fqn e = elim (lookup fqn e.features) [ none ↦ false | some f ↦ true ]

  -- The deferred IncNumberOfFeatures and DecNumberOfFeatures
  abbrev count : ℤ → Registry M C → Registry M C
  count n e = record e { feature_gauge = e.feature_gauge +ℤ n }

  -- bindFeature; the gauge is incremented on every return.
  unfoldable pub bind_pipeliner : FeaturePipeliner M → Registry M C → Option Error × Registry M C
  bind_pipeliner f e =
      if has_feature f.descriptor.fqn e
      then (some feature_already_exists, count (pos 1) e)
      else (none, count (pos 1) (record e { features = insert f.descriptor.fqn f e.features }))

  unfoldable pub unbind_feature : Text → Registry M C → Option Error × Registry M C
  unbind_feature fqn e = (none, count (negsuc 0) (record e { features = delete fqn e.features }))

  unfoldable pub bind_data_source : DataSource C → Registry M C → Option Error × Registry M C
  bind_data_source d e = (none, record e { data_sources = insert d.fqn d e.data_sources })

  unfoldable pub unbind_data_source : Text → Registry M C → Option Error × Registry M C
  unbind_data_source fqn e = (none, record e { data_sources = delete fqn e.data_sources })

  unfoldable pub has_data_source : Text → Registry M C → Bool
  has_data_source fqn e = elim (lookup fqn e.data_sources) [ none ↦ false | some d ↦ true ]

  unfoldable pub get_data_source : Text → Registry M C → Result (DataSource C)
  get_data_source fqn e = elim (lookup fqn e.data_sources) [
    | none ↦ err data_source_not_found
    | some d ↦ ok d
  ]

  -- The three stages of FeatureWithEngine behind the descriptor.
  unfoldable pub check_data_source : FeatureDescriptor → Registry M C → Result (Unit {0})
  check_data_source fd e =
      if is_empty fd.data_source then ok tt else (get_data_source fd.data_source e >>= λ d. ok tt)

  unfoldable pub check_program : Plugins M C → FeatureDescriptor → Manifest → Result (Unit {0})
  check_program p fd m =
      if text_eq fd.builder (codes "model")
      then ok tt
      else (p.load_program fd.runtime_env fd.fqn m.code m.packages >>= λ prim.
          if primitive_eq prim fd.primitive then ok tt else err primitive_mismatch)

  unfoldable pub apply_builder :
      Plugins M C → FeatureDescriptor → Manifest → Registry M C → Result (FeaturePipeliner M)
  apply_builder p fd m e = elim (p.applier fd.builder) [
    | none ↦ err no_builder
    | some f ↦ f fd m e.data_sources (new_pipeliner fd)
  ]

  -- FeatureWithEngine
  unfoldable pub feature_with_engine :
      Plugins M C → Manifest → Registry M C → Result (FeaturePipeliner M)
  feature_with_engine p m e = do
    fd ← (descriptor_from_manifest m).0
    _ ← check_data_source fd e
    _ ← check_program p fd m
    apply_builder p fd m e

  -- BindFeature
  unfoldable pub bind_result :
      Result (FeaturePipeliner M) → Registry M C → Result (Unit {0}) × Registry M C
  bind_result panicked e = (panicked, e)
  bind_result (err x) e = (err x, e)
  bind_result (ok f) e =
      let (x, e') = bind_pipeliner f e in (elim x [ none ↦ ok tt | some y ↦ err y ], e')

  unfoldable pub bind_feature :
      Plugins M C → Manifest → Registry M C → Result (Unit {0}) × Registry M C
  bind_feature p m e = bind_result (feature_with_engine p m e) e
