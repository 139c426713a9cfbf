-- ===== src/Operator/Webhook/Admission.antt =====
-- What the admission of a feature (internal/operator/feature_webhook.go) means for the engine
-- (internal/engine/engine_bind.go).
use natun.Prelude.{
  ◌≡◌, refl, sym, ◌∙◌, Bool, true, false, List, Option, none, some, lookup, if◌then◌else◌,
  Option-cases, inl, inr,
}
use natun.Prelude.Text.{Text, text_eq_refl}
use natun.Api.Errors.{Error, Result, ok, err, >>=-eq-ok, feature_already_exists}
use natun.Api.Descriptor.{FeatureDescriptor, Manifest, descriptor_from_manifest}
use natun.Engine.Priority.{FeaturePipeliner}
use natun.Engine.Registry.{
  DataSource, Registry, Plugins, new_pipeliner, get_data_source, check_data_source, apply_builder,
  feature_with_engine, has_feature, bind_pipeliner, bind_result, bind_feature,
}
use natun.Operator.Webhook.{ClusterOps, dummy_engine, dummy_source, validate}

-- An applier asks the engine for the feature's own data source only.
abbrev pub AsksOwnSource : {M C : Type 0} → Plugins M C → Type 0
AsksOwnSource {M = M} {C = C} plugins =
    (kind : Text)
    (apply : FeatureDescriptor
      → Manifest
      → List (Text × DataSource C)
      → FeaturePipeliner M
      → Result (FeaturePipeliner M))
    → plugins.applier kind ≡ some apply
    → (fd : FeatureDescriptor) (m : Manifest) (sources sources' : List (Text × DataSource C))
      (f : FeaturePipeliner M)
    → lookup fd.data_source sources ≡ lookup fd.data_source sources'
    → apply fd m sources f ≡ apply fd m sources' f

module _ {M C : Type 0} (plugins : Plugins M C) (own : AsksOwnSource plugins) where
  apply_builder-same :
      (fd : FeatureDescriptor) (m : Manifest) (e e' : Registry M C)
      → lookup fd.data_source e.data_sources ≡ lookup fd.data_source e'.data_sources
      → apply_builder plugins fd m e ≡ apply_builder plugins fd m e'
  unfolding apply_builder
  apply_builder-same fd m e e' h = elim (Option-cases (plugins.applier fd.builder)) [
    | inl none_there ↦ rw (none_there, apply_builder) refl
    | inr (apply, there) ↦
        rw (there, apply_builder)
          (own fd.builder apply there fd m e.data_sources e'.data_sources (new_pipeliner fd) h)
  ]

  check_data_source-same :
      (fd : FeatureDescriptor) (e e' : Registry M C)
      → lookup fd.data_source e.data_sources ≡ lookup fd.data_source e'.data_sources
      → check_data_source fd e ≡ check_data_source fd e'
  unfolding check_data_source get_data_source
  check_data_source-same fd e e' h = rw (h, get_data_source) refl

  feature_with_engine-same :
      (m : Manifest) (fd : FeatureDescriptor) (e e' : Registry M C)
      → (descriptor_from_manifest m).0 ≡ ok fd
      → lookup fd.data_source e.data_sources ≡ lookup fd.data_source e'.data_sources
      → feature_with_engine plugins m e ≡ feature_with_engine plugins m e'
  unfolding feature_with_engine
  feature_with_engine-same m fd e e' parsed h =
      rw parsed (rw (check_data_source-same fd e e' h) (rw (apply_builder-same fd m e e' h) refl))

  failed_if :
      (b : Bool) (e e' : Registry M C)
      → (let p : Option Error × Registry M C =
            if b then (some feature_already_exists, e) else (none, e') in
          elim p.0 as (λ _. Result (Unit {0})) [ none ↦ ok tt | some y ↦ err y ])
        ≡ (if b then err feature_already_exists else ok tt)
  failed_if true e e' = refl
  failed_if false e e' = refl

  bind_result-eq :
      (f : FeaturePipeliner M) (e : Registry M C)
      → (bind_result (ok f) e).0
        ≡ (if has_feature f.descriptor.fqn e then err feature_already_exists else ok tt)
  unfolding bind_result bind_pipeliner
  bind_result-eq f e = failed_if (has_feature f.descriptor.fqn e) _ _

  -- A manifest that the webhook validates can be bound to every engine that has, under the name of the
  -- feature's data source, the one that the webhook has read, if the builders ask the engine for that data
  -- source only: the engine makes a feature of the manifest, and refuses to bind it only if the name of that
  -- feature is taken.
  pub validate-bind_feature :
      {D : Type 0} (cluster : ClusterOps D C) (zero_config : C) (request : Option (Option Bool))
      (m : Manifest) (fd : FeatureDescriptor) (src : DataSource C) (e : Registry M C)
      → validate plugins cluster zero_config request m ≡ ok tt
      → (descriptor_from_manifest m).0 ≡ ok fd
      → dummy_source plugins cluster zero_config request m ≡ ok src
      → lookup fd.data_source e.data_sources ≡ some src
      → (f : FeaturePipeliner M) × (feature_with_engine plugins m e ≡ ok f)
        × ((bind_feature plugins m e).0
            ≡ (if has_feature f.descriptor.fqn e then err feature_already_exists else ok tt))
  unfolding validate dummy_engine bind_feature lookup
  validate-bind_feature cluster zero_config request m fd src e valid parsed read there =
      let (f, made, _) =
        >>=-eq-ok (feature_with_engine plugins m (dummy_engine plugins cluster fd.data_source src))
          _ (rw parsed at (rw read at valid)) in
      let same =
        feature_with_engine-same m fd (dummy_engine plugins cluster fd.data_source src) e parsed
          (rw (text_eq_refl fd.data_source) (sym there)) in
      let made' : feature_with_engine plugins m e ≡ ok f = sym same ∙ made in
      (f, made', rw made' (bind_result-eq f e))
