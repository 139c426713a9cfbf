-- ===== src/Builders/Model/Refusal.antt =====
-- Writes to a model (the preSetMiddleware of internal/plugins/builders/model/model.go behind engine.write of
-- internal/engine/engine.go).
use natun.Prelude.{ℕ, ◌≡◌, refl, List, [], ◌∷◌, some, Bool-cases, inl, inr}
use natun.Prelude.Int.{pos}
use natun.Prelude.Text.{Text}
use natun.Api.Errors.{Result, ok, err, >>=-eq-ok, ok-injective, model_set}
use natun.Api.Value.{FloatOps, AnyValue, Value}
use natun.Api.Descriptor.{FeatureDescriptor, Manifest}
use natun.Api.Keys.{Keys, encode}
use natun.Api.Selector.{parse_selector}
use natun.Engine.Pipeline.{
  Context, Middleware, closed, returned, chain, announced_chain, announce, last_sent, await, apply,
  apply_with_timeout, apply_pipeline,
}
use natun.Engine.Priority.{
  FeaturePipeliner, middlewares, sort, insert_hook, add_pre_set_middleware, add_post_get_middleware,
  add_hook,
}
use natun.Engine.Registry.{DataSource, new_pipeliner}
use natun.Engine.World.{StateOps, World, StateMethod}
use natun.Engine.Write.{write_pipeline}
use natun.Engine.Request.{feature_for_request, write_found, write_feature, write}
use natun.Builders.Model.{
  ModelDescriptor, ModelPlugins, normalize_features, check_size, model_set_middleware, model_apply,
}

-- A model has one hook on writes, and the descriptor that it was made of.
abbrev pub IsModel : {F W : Type 0} → FeatureDescriptor → FeaturePipeliner (Middleware F W) → Type 0
IsModel fd f =
    (f.pre_set ≡ record { fn = model_set_middleware; priority = pos 0 } ∷ []) × (f.descriptor ≡ fd)

module _ {F W I C : Type 0} (plugins : ModelPlugins F W I)
    (read_model : Manifest → Result (ModelDescriptor I)) where
  model_apply-IsModel :
      (fd : FeatureDescriptor) (m : Manifest) (sources : List (Text × DataSource C))
      (f : FeaturePipeliner (Middleware F W))
      → model_apply plugins read_model fd m sources (new_pipeliner fd) ≡ ok f
      → IsModel fd f
  unfolding model_apply add_pre_set_middleware add_post_get_middleware add_hook
  model_apply-IsModel fd m sources f e =
      let (md, _, e1) = >>=-eq-ok (read_model m) _ e in
      let (u, _, e2) = >>=-eq-ok (check_size md) _ e1 in
      let (s, _, e3) = >>=-eq-ok (parse_selector fd.fqn) _ e2 in
      let (fs, _, e4) = >>=-eq-ok (normalize_features s.namespace md.features) _ e3 in
      rw (← ok-injective e4) (refl, refl)

module _ {F S : Type 0} ⦃ops : FloatOps F⦄ (state : StateOps F S) (now : ℕ) where
  refused :
      (f : FeaturePipeliner (Middleware F (World F S))) (fd : FeatureDescriptor)
      (method : StateMethod) (ctx : Context) (keys : Keys) (v : Value F) (w : World F S)
      → IsModel fd f
      → apply_pipeline closed (write_pipeline state now f method) ctx f.descriptor keys v w
        ≡ (returned v (some model_set), w)
  unfolding write_pipeline middlewares sort apply_pipeline apply apply_with_timeout await chain
      announced_chain announce model_set_middleware insert_hook last_sent
  refused f fd method ctx keys v w (hook, _) =
      rw hook (elim (Bool-cases ctx.deadline) [ inl e ↦ rw e refl | inr e ↦ rw e refl ])

-- A feature that the builder of models accepts as a model refuses every write (Set, Append, Incr, Update, and
-- those of the engine itself) with keys that can be encoded: the write returns the error that a model
-- cannot be set, and the state and the queues are as they were. The pipeline ends before its deadline, if
-- it has one.
pub model_apply-write :
    {F S I C : Type 0} ⦃ops : FloatOps F⦄ (plugins : ModelPlugins F (World F S) I)
    (read_model : Manifest → Result (ModelDescriptor I)) (state : StateOps F S) (now : ℕ)
    (fd : FeatureDescriptor) (m : Manifest) (sources : List (Text × DataSource C))
    (f : FeaturePipeliner (Middleware F (World F S)))
    (features : List (Text × FeaturePipeliner (Middleware F (World F S)))) (ctx : Context)
    (selector : Text) (keys : Keys) (val : AnyValue F) (ts : ℕ) (method : StateMethod)
    (w : World F S) (encoded : Text)
    → model_apply plugins read_model fd m sources (new_pipeliner fd) ≡ ok f
    → feature_for_request features selector ≡ ok f
    → encode keys fd ≡ ok encoded
    → write state now closed features ctx selector keys val ts method w ≡ (err model_set, w)
unfolding write write_feature write_found
model_apply-write plugins read_model state now fd m sources f features ctx selector keys val ts
      method w encoded applied found en =
    let is_model = model_apply-IsModel plugins read_model fd m sources f applied in
    let known : encode keys f.descriptor ≡ ok encoded = rw is_model.1 en in
    rw found (rw known (rw (refused state now f fd method _ keys _ w is_model) refl))
