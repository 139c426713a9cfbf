-- ===== src/Engine/Write.antt =====
-- The write path of the engine: setMiddleware and writePipeline of internal/engine/engine_pipeline.go.
pub mod Notify
pub mod Scalars
use natun.Prelude.{
  ℕ, ◌+◌, ◌≡◌, refl, Bool, true, false, not, ◌&&◌, List, [], ◌∷◌, ◌++◌, Option, none, some, arith,
  ltb, if◌then◌else◌,
}
use natun.Prelude.Text.{Text}
use natun.Api.Errors.{Error, Result, ok, err, panicked, value_mismatch}
use natun.Api.Primitive.{PrimitiveType, primitive_eq}
use natun.Api.Value.{AnyValue, Value, type_detect}
use natun.Api.Descriptor.{FeatureDescriptor, is_empty, valid_window}
use natun.Api.Keys.{Keys, encode}
use natun.Api.Bucket.{bucket_name}
use natun.Engine.Pipeline.{Context, Decision, pass, stop, halt, follow, Middleware}
use natun.Engine.Priority.{FeaturePipeliner, middlewares}
use natun.Engine.World.{
  StateOps, StateMethod, method_get, method_set, method_append, method_incr, method_update,
  method_window_add, World, add_write_notification, add_collect_notification,
}

module _ {F S : Type 0} (state : StateOps F S) (now : ℕ) where
  -- The switch over the method; there is no case for a read.
  unfoldable pub run_method :
      StateMethod → FeatureDescriptor → Keys → Value F → S → Result (Unit {0}) × S
  run_method method_set fd keys val s = state.set now fd keys val.value val.timestamp s
  run_method method_append fd keys val s = state.append now fd keys val.value val.timestamp s
  run_method method_incr fd keys val s = state.incr now fd keys val.value val.timestamp s
  run_method method_update fd keys val s = state.update now fd keys val.value val.timestamp s
  run_method method_window_add fd keys val s =
      state.window_add now fd keys val.value val.timestamp s
  run_method method_get fd keys val s = (ok tt, s)

  -- A value of a feature without windows that is past its staleness.
  unfoldable pub is_retrospective : FeatureDescriptor → Value F → Bool
  is_retrospective fd val = not (valid_window fd) && ltb (val.timestamp + fd.staleness) now

  -- The notification behind a write to the state.
  unfoldable pub notify_historian : FeatureDescriptor → Text → Value F → World F S → World F S
  notify_historian fd encoded val w =
      if valid_window fd
      then add_collect_notification fd.fqn encoded (bucket_name val.timestamp fd.freshness) w
      else add_write_notification fd.fqn encoded [] val w

  -- What follows the call of the state.
  unfoldable pub after_method :
      Context
      → FeatureDescriptor
      → Keys
      → Text
      → Value F
      → World F S
      → Result (Unit {0}) × S
      → Decision F (World F S)
  after_method ctx fd keys encoded val w (err e, s) = stop e (record w { store = s })
  after_method ctx fd keys encoded val w (panicked, s) = halt (record w { store = s })
  after_method ctx fd keys encoded val w (ok _, s) =
      pass ctx keys val (notify_historian fd encoded val (record w { store = s }))

  -- What follows the encoding of the keys.
  unfoldable pub write_encoded :
      StateMethod
      → Context
      → FeatureDescriptor
      → Keys
      → Value F
      → World F S
      → Result Text
      → Decision F (World F S)
  write_encoded method ctx fd keys val w panicked = halt w
  write_encoded method ctx fd keys val w (err e) = stop e w
  write_encoded method ctx fd keys val w (ok encoded) =
      if is_retrospective fd val
      then pass ctx keys val (add_write_notification fd.fqn encoded [] val w)
      else after_method ctx fd keys encoded val w (run_method method fd keys val w.store)

  -- What follows the detection of the value's type.
  unfoldable pub write_typed :
      StateMethod
      → Context
      → FeatureDescriptor
      → Keys
      → Value F
      → World F S
      → Result PrimitiveType
      → Decision F (World F S)
  write_typed method ctx fd keys val w panicked = halt w
  write_typed method ctx fd keys val w (err e) = stop e w
  write_typed method ctx fd keys val w (ok p) =
      if primitive_eq p fd.primitive
      then write_encoded method ctx fd keys val w (encode keys fd)
      else stop value_mismatch w

  unfoldable pub set_decision :
      StateMethod
      → Context
      → FeatureDescriptor
      → Keys
      → Value F
      → World F S
      → Decision F (World F S)
  set_decision method ctx fd keys val w =
      if is_empty fd.data_source
      then pass ctx keys val w
      else write_typed method ctx fd keys val w (type_detect val.value)

  -- setMiddleware
  unfoldable pub set_middleware : StateMethod → Middleware F (World F S)
  set_middleware method next ctx fd keys val w =
      follow (set_decision method ctx fd keys val w) next fd val

  -- The middlewares of writePipeline
  unfoldable pub write_pipeline :
      FeaturePipeliner (Middleware F (World F S)) → StateMethod → List (Middleware F (World F S))
  write_pipeline f method =
      middlewares f.pre_set ++ (set_middleware method ∷ middlewares f.post_set)
