-- ===== src/Engine/Request/Writes.antt =====
-- A write of a feature without hooks (engine.write of internal/engine/engine.go).
use natun.Prelude.{ℕ, ◌≡◌, refl, ◌∙◌, Bool, true, false, List, [], ◌∷◌, none, if◌then◌else◌}
use natun.Prelude.Text.{Text}
use natun.Api.Errors.{ok}
use natun.Api.Primitive.{primitive_eq_refl}
use natun.Api.Value.{FloatOps, AnyValue, Value, type_detect}
use natun.Api.Descriptor.{FeatureDescriptor, is_empty}
use natun.Api.Keys.{Keys, encode}
use natun.Engine.Pipeline.{
  Context, pass, returned, Middleware, closed, chain, finish, apply, apply_pipeline,
}
use natun.Engine.Pipeline.Timeout.{apply_with_timeout-closed}
use natun.Engine.Priority.{FeaturePipeliner, middlewares, sort}
use natun.Engine.World.{StateOps, StateMethod, World}
use natun.Engine.Write.{
  run_method, is_retrospective, notify_historian, after_method, write_encoded, write_typed,
  set_decision, set_middleware, write_pipeline,
}
use natun.Engine.Write.Notify.{set_middleware-Forwards}
use natun.Engine.Request.{feature_context, feature_for_request, write, write_feature, write_found}

-- A feature to which no plugin has added a hook on writes.
pub record IsUnhookedOnWrite (F S : Type 0) (f : FeaturePipeliner (Middleware F (World F S)))
    : Type 0 where
  pub no_pre_set : f.pre_set ≡ []
  pub no_post_set : f.post_set ≡ []

either_branch : {A : Type 0} (b : Bool) {x y : A} → x ≡ y → (if b then x else y) ≡ y
either_branch true e = e
either_branch false e = refl

module _ {F S : Type 0} ⦃ops : FloatOps F⦄ (state : StateOps F S) (now : ℕ) where
  abbrev only : StateMethod → List (Middleware F (World F S))
  only method = set_middleware state now method ∷ []

  write_pipeline-unhooked :
      (f : FeaturePipeliner (Middleware F (World F S))) (method : StateMethod)
      → IsUnhookedOnWrite F S f
      → write_pipeline state now f method ≡ only method
  unfolding write_pipeline middlewares sort
  write_pipeline-unhooked f method h = rw (h.no_pre_set, h.no_post_set)

  apply-only :
      (method : StateMethod) (ctx : Context) (fd : FeatureDescriptor) (keys : Keys) (v : Value F)
      (w : World F S)
      → apply_pipeline closed (only method) ctx fd keys v w ≡ apply (only method) ctx fd keys v w
  unfolding apply_pipeline
  apply-only method ctx fd keys v w = either_branch ctx.deadline (
      apply_with_timeout-closed (only method) ctx fd keys v w
        (set_middleware-Forwards state now method, tt))

  -- The value that a pipeline of writes begins with.
  abbrev pub given : AnyValue F → ℕ → Value F
  given val ts = record { value = val; timestamp = ts; fresh = false }

  -- The world behind a write that the state has taken.
  abbrev pub after_write : FeatureDescriptor → Text → Value F → S → World F S → World F S
  after_write fd encoded v s w = notify_historian state now fd encoded v (record w { store = s })

  set_decision-taken :
      (method : StateMethod) (ctx : Context) (fd : FeatureDescriptor) (keys : Keys) (v : Value F)
      (w : World F S) (encoded : Text) (s : S)
      → is_empty fd.data_source ≡ false
      → type_detect v.value ≡ ok fd.primitive
      → encode keys fd ≡ ok encoded
      → is_retrospective state now fd v ≡ false
      → run_method state now method fd keys v w.store ≡ (ok tt, s)
      → set_decision state now method ctx fd keys v w
        ≡ pass ctx keys v (after_write fd encoded v s w)
  unfolding set_decision write_typed write_encoded after_method
  set_decision-taken method ctx fd keys v w encoded s ds td en fresh run =
      rw ds (rw td (rw (primitive_eq_refl fd.primitive) (rw en (rw fresh (rw run refl)))))

  apply-taken :
      (method : StateMethod) (ctx : Context) (fd : FeatureDescriptor) (keys : Keys) (v : Value F)
      (w w' : World F S)
      → set_decision state now method ctx fd keys v w ≡ pass ctx keys v w'
      → apply (only method) ctx fd keys v w ≡ (returned v none, w')
  unfolding apply chain set_middleware finish
  apply-taken method ctx fd keys v w w' e = rw e refl

  -- A write of a feature with a data source and without hooks on writes, of a value of the feature's
  -- type that is not past its staleness, with keys that can be encoded, and whose pipeline ends in
  -- time: if the state takes it, it succeeds, and leaves the new state and one notification.
  pub write-taken :
      (features : List (Text × FeaturePipeliner (Middleware F (World F S))))
      (f : FeaturePipeliner (Middleware F (World F S))) (ctx : Context) (selector : Text)
      (keys : Keys) (val : AnyValue F) (ts : ℕ) (method : StateMethod) (w : World F S)
      (encoded : Text) (s : S)
      → feature_for_request features selector ≡ ok f
      → IsUnhookedOnWrite F S f
      → is_empty f.descriptor.data_source ≡ false
      → type_detect val ≡ ok f.descriptor.primitive
      → encode keys f.descriptor ≡ ok encoded
      → is_retrospective state now f.descriptor (given val ts) ≡ false
      → run_method state now method f.descriptor keys (given val ts) w.store ≡ (ok tt, s)
      → write state now closed features ctx selector keys val ts method w
        ≡ (ok tt, after_write f.descriptor encoded (given val ts) s w)
  unfolding write write_feature write_found
  write-taken features f ctx selector keys val ts method w encoded s found h ds td en fresh run =
      let v = given val ts in
      let fd = f.descriptor in
      let ctx' = feature_context fd selector ctx in
      let taken = set_decision-taken method ctx' fd keys v w encoded s ds td en fresh run in
      let ran : apply_pipeline closed (write_pipeline state now f method) ctx' fd keys v w
          ≡ (returned v none, after_write fd encoded v s w) =
        rw (write_pipeline-unhooked f method h)
          (apply-only method ctx' fd keys v w ∙ apply-taken method ctx' fd keys v w _ taken) in
      rw found (rw en (rw ran refl))
