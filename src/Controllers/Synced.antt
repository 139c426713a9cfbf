-- ===== src/Controllers/Synced.antt =====
-- What the controllers of features and models make of the engine: Reconcile of
-- internal/engine/controllers/feature_controller.go and model_controller.go.
use natun.Prelude.{
  ◌≡◌, ◌∙◌, refl, subst, ap, Bool, true, false, not, ◌||◌, List, Option, none, some, arith, lookup,
  lookup-insert, lookup-delete, if◌then◌else◌, Bool-cases, Option-cases, inl, inr,
}
use natun.Prelude.Text.{Text, text_eq, text_eq-eq, text_eq_refl}
use natun.Api.Errors.{Result, ok, err, panicked, >>=-eq-ok}
use natun.Api.Descriptor.{FeatureDescriptor, Manifest, feature_fqn, descriptor_from_manifest}
use natun.Api.Descriptor.WellFormed.{descriptor_from_manifest-IsWellFormed}
use natun.Engine.Priority.{FeaturePipeliner}
use natun.Engine.Registry.{
  Registry, Plugins, DataSource, new_pipeliner, has_feature, bind_pipeliner, unbind_feature,
  bind_feature, bind_result, feature_with_engine, check_data_source, check_program, apply_builder,
  get_data_source,
}
use natun.Engine.Registry.Bind.{unbind_feature-has_feature}
use natun.Operator.Controllers.{Reconciled, finished, got_object}
use natun.Controllers.{
  engine_manager, ten_seconds, bound_or_later, bind_after, sync_feature, reconcile_feature,
}

-- The builders keep the descriptor of a feature.
abbrev pub KeepsDescriptor : {M C : Type 0} → Plugins M C → Type 0
KeepsDescriptor {M} {C} p =
    (builder : Text) (fd : FeatureDescriptor) (m : Manifest) (sources : List (Text × DataSource C))
    (new built : FeaturePipeliner M)
    → (apply : FeatureDescriptor
        → Manifest
        → List (Text × DataSource C)
        → FeaturePipeliner M
        → Result (FeaturePipeliner M))
    → p.applier builder ≡ some apply
    → apply fd m sources new ≡ ok built
    → built.descriptor ≡ new.descriptor

-- What a controller answers to the result of a bind, and the feature that it leaves under the name.
abbrev pub answer_of : {M : Type 0} → Result (FeaturePipeliner M) → Result Reconciled
answer_of panicked = panicked
answer_of (err e) = ok (record { requeue_after = ten_seconds; error = none })
answer_of (ok f) = ok (finished none)

abbrev pub feature_of : {M : Type 0} → Result (FeaturePipeliner M) → Option (FeaturePipeliner M)
feature_of (ok f) = some f
feature_of _ = none

-- The answer of a bind under a free name, and the features behind it.
abbrev Leaves :
    {M C : Type 0}
    → Text
    → Result (FeaturePipeliner M)
    → Registry M C
    → Result Reconciled × Registry M C
    → Type 0
Leaves fqn r e a =
    (a.0 ≡ answer_of r)
    × ((other : Text)
        → lookup other a.1.features
          ≡ (if text_eq fqn other then feature_of r else lookup other e.features))

module _ {M C : Type 0} (p : Plugins M C) (m : Manifest) where
  -- The features of an engine play no part in the building of one.
  feature_with_engine-unbind :
      (fqn : Text) (e : Registry M C)
      → feature_with_engine p m (unbind_feature fqn e).1 ≡ feature_with_engine p m e
  unfolding feature_with_engine check_data_source check_program apply_builder get_data_source
      unbind_feature
  feature_with_engine-unbind fqn e = refl

  apply_keeps :
      (e : Registry M C) (fd : FeatureDescriptor) (f : FeaturePipeliner M)
      → KeepsDescriptor p
      → apply_builder p fd m e ≡ ok f
      → f.descriptor ≡ fd
  unfolding apply_builder
  apply_keeps e fd f keeps applied = elim (Option-cases (p.applier fd.builder)) [
    | inl missing ↦ absurd (ground arith)
    | inr (apply, found) ↦
        keeps fd.builder fd m e.data_sources (new_pipeliner fd) f apply found
          (rw (found, apply_builder) at applied)
  ]

  built_fqn :
      (e : Registry M C) (f : FeaturePipeliner M)
      → KeepsDescriptor p
      → feature_with_engine p m e ≡ ok f
      → f.descriptor.fqn ≡ feature_fqn m
  unfolding feature_with_engine
  built_fqn e f keeps built =
      let (fd, described, rest) = >>=-eq-ok (descriptor_from_manifest m).0 _ built in
      let (_, _, rest') = >>=-eq-ok (check_data_source fd e) _ rest in
      let (_, _, applied) = >>=-eq-ok (check_program p fd m) _ rest' in
      ap (λ (d : FeatureDescriptor). d.fqn) (apply_keeps e fd f keeps applied)
      ∙ (descriptor_from_manifest-IsWellFormed m fd described).same_fqn

  kept :
      (e : Registry M C)
      → has_feature (feature_fqn m) e ≡ false
      → (other : Text)
      → lookup other e.features
        ≡ (if text_eq (feature_fqn m) other then none else lookup other e.features)
  unfolding has_feature
  kept e free other = ground (arith, text_eq-eq (feature_fqn m) other)

  bind_ok :
      (f : FeaturePipeliner M) (e : Registry M C)
      → has_feature f.descriptor.fqn e ≡ false
      → Leaves f.descriptor.fqn (ok f) e (bound_or_later (engine_manager p) (bind_result (ok f) e))
  unfolding bound_or_later bind_result bind_pipeliner
  bind_ok f e free = rw free (refl, λ other. lookup-insert f.descriptor.fqn other f e.features)

  bind_result-Leaves :
      (r : Result (FeaturePipeliner M)) (e : Registry M C)
      → has_feature (feature_fqn m) e ≡ false
      → ((f : FeaturePipeliner M) → r ≡ ok f → f.descriptor.fqn ≡ feature_fqn m)
      → Leaves (feature_fqn m) r e (bound_or_later (engine_manager p) (bind_result r e))
  unfolding bound_or_later bind_result bind_pipeliner
  bind_result-Leaves panicked e free same = (refl, kept e free)
  bind_result-Leaves (err x) e free same = (refl, kept e free)
  bind_result-Leaves (ok f) e free same =
      subst (λ fqn. Leaves fqn (ok f) e (bound_or_later (engine_manager p) (bind_result (ok f) e)))
        (same f refl) (bind_ok f e (rw (same f refl) free))

  -- The bind behind an unbind: what it leaves is told from the registry in front of both.
  unbound :
      (r : Result (FeaturePipeliner M)) (e : Registry M C) (a : Result Reconciled × Registry M C)
      → Leaves (feature_fqn m) r (unbind_feature (feature_fqn m) e).1 a
      → Leaves (feature_fqn m) r e a
  unfolding unbind_feature
  unbound r e a h =
      (h.0, λ other. h.1 other ∙ ground (arith, lookup-delete (feature_fqn m) other e.features))

  free_after :
      (e : Registry M C) → has_feature (feature_fqn m) (unbind_feature (feature_fqn m) e).1 ≡ false
  free_after e =
      unbind_feature-has_feature (feature_fqn m) (feature_fqn m) e
      ∙ rw (text_eq_refl (feature_fqn m)) refl

  bind_free :
      (e : Registry M C)
      → KeepsDescriptor p
      → has_feature (feature_fqn m) e ≡ false
      → Leaves
          (feature_fqn m)
          (feature_with_engine p m e)
          e
          (bound_or_later (engine_manager p) (bind_feature p m e))
  unfolding bind_feature
  bind_free e keeps free =
      bind_result-Leaves (feature_with_engine p m e) e free (λ f built. built_fqn e f keeps built)

  bind_taken :
      (e : Registry M C)
      → KeepsDescriptor p
      → Leaves
          (feature_fqn m)
          (feature_with_engine p m e)
          e
          (bind_after (engine_manager p) m (unbind_feature (feature_fqn m) e))
  unfolding bind_after unbind_feature bound_or_later
  bind_taken e keeps =
      let a =
        bound_or_later (engine_manager p) (bind_feature p m (unbind_feature (feature_fqn m) e).1) in
      unbound (feature_with_engine p m e) e a (
        subst (λ r. Leaves (feature_fqn m) r (unbind_feature (feature_fqn m) e).1 a)
          (feature_with_engine-unbind (feature_fqn m) e)
          (bind_free (unbind_feature (feature_fqn m) e).1 keeps (free_after e)))

  -- The reconciler of a feature that is there and not being deleted, where updates are allowed or the engine has
  -- no feature of its name, as long as the builders keep the descriptor. Where the feature can be built, the
  -- engine has it under its name afterwards. Where it cannot, the controller comes back in ten seconds with
  -- no error, and the engine has no feature of this name: the version that it had is gone as well. All
  -- other names are as they were.
  pub reconcile_feature-lookup :
      (updates_allowed : Bool) (e : Registry M C)
      → KeepsDescriptor p
      → (updates_allowed || not (has_feature (feature_fqn m) e)) ≡ true
      → let a =
          reconcile_feature
            (engine_manager p)
            updates_allowed
            (got_object (record { manifest = m; deleting = false }))
            e in
        let built = feature_with_engine p m e in
        (a.0 ≡ answer_of built)
        × ((other : Text)
            → lookup other a.1.features ≡ (
                if text_eq (feature_fqn m) other
                then feature_of built
                else lookup other e.features))
  unfolding reconcile_feature sync_feature
  reconcile_feature-lookup updates_allowed e keeps allowed =
      elim (Bool-cases (has_feature (feature_fqn m) e)) [
        | inl taken ↦
            let updates : updates_allowed ≡ true = ground arith in
            rw (taken, updates) (bind_taken e keeps)
        | inr free ↦ rw free (bind_free e keeps free)
      ]
