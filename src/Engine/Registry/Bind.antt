-- ===== src/Engine/Registry/Bind.antt =====
-- Binding and unbinding features (internal/engine/engine_bind.go).
use natun.Prelude.{
  ◌≡◌, refl, not, ◌&&◌, none, some, arith, lookup, lookup-insert, lookup-delete, if◌then◌else◌,
  Bool-cases, inl, inr,
}
use natun.Prelude.Text.{Text, text_eq}
use natun.Api.Errors.{feature_already_exists}
use natun.Engine.Priority.{FeaturePipeliner}
use natun.Engine.Registry.{Registry, has_feature, bind_pipeliner, unbind_feature}

module _ {M C : Type 0} where
  -- A feature can be bound exactly if its name is free. A bind that succeeds makes the feature the
  -- one of its name and leaves all other names alone; one that fails changes no feature.
  pub bind_pipeliner-lookup :
      (f : FeaturePipeliner M) (e : Registry M C) (fqn : Text)
      → let (failed, e') = bind_pipeliner f e in
        let taken = has_feature f.descriptor.fqn e in
        (failed ≡ (if taken then some feature_already_exists else none))
        × (lookup fqn e'.features
            ≡ (if not taken && text_eq f.descriptor.fqn fqn then some f else lookup fqn e.features))
        × (e'.data_sources ≡ e.data_sources)
  unfolding bind_pipeliner
  bind_pipeliner-lookup f e fqn = elim (Bool-cases (has_feature f.descriptor.fqn e)) [
    | inl taken ↦ rw taken (refl, refl, refl)
    | inr free ↦ rw free (refl, lookup-insert f.descriptor.fqn fqn f e.features, refl)
  ]

  -- After an unbind the name is free, and all other names are as they were.
  pub unbind_feature-has_feature :
      (fqn other : Text) (e : Registry M C)
      → has_feature other (unbind_feature fqn e).1
        ≡ (not (text_eq fqn other) && has_feature other e)
  unfolding unbind_feature has_feature
  unbind_feature-has_feature fqn other e = ground (arith, lookup-delete fqn other e.features)
