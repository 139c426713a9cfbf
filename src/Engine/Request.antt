-- ===== src/Engine/Request.antt =====
-- The requests to the engine: internal/engine/engine.go, and the contexts that feature.go makes.
-- `wait` is how the wait of a pipeline with a deadline ends, `now` the reading of the clock, and the
-- errors are those inside the messages of fmt.Errorf.
pub mod Names
pub mod Reads
pub mod Writes
use natun.Prelude.{
  ℕ, ◌≡◌, refl, Bool, true, false, not, ◌&&◌, ◌||◌, List, [], ◌∷◌, Option, none, some, arith, ltb,
  lookup, if◌then◌else◌,
}
use natun.Prelude.Text.{Text, codes, has_prefix}
use natun.Api.Errors.{
  Error, Result, ok, err, panicked, ◌>>=◌, namespace_required, feature_not_found, deadline_exceeded,
}
use natun.Api.Value.{FloatOps, AnyValue, Value, nil}
use natun.Api.Descriptor.{FeatureDescriptor}
use natun.Api.Keys.{Keys, encode}
use natun.Api.Selector.{normalize_fqn}
use natun.Engine.Pipeline.{Context, Outcome, returned, crashed, Middleware, Wait, apply_pipeline}
use natun.Engine.Priority.{FeaturePipeliner}
use natun.Engine.World.{
  StateOps, StateMethod, World, method_set, method_append, method_incr, method_update,
}
use natun.Engine.Write.{write_pipeline}
use natun.Engine.Read.{read_pipeline, is_nil}

abbrev pub undefined_namespace : Text
undefined_namespace = codes "undefined-namespace"

-- FeaturePipeliner.Context
unfoldable pub feature_context : FeatureDescriptor → Text → Context → Context
feature_context fd selector ctx = record ctx {
  selector = some selector;
  deadline = ctx.deadline || ltb 0 fd.timeout;
}

-- The name that featureForRequest looks a selector up by.
unfoldable pub request_fqn : Text → Result Text
request_fqn selector = normalize_fqn selector undefined_namespace >>= λ fqn.
    if has_prefix fqn undefined_namespace then err namespace_required else ok fqn

-- featureForRequest
unfoldable pub feature_for_request :
    {M : Type 0} → List (Text × FeaturePipeliner M) → Text → Result (FeaturePipeliner M)
feature_for_request features selector = request_fqn selector >>= λ fqn. elim (lookup fqn features) [
  | none ↦ err feature_not_found
  | some f ↦ ok f
]

-- The answer to a Get: the value, the descriptor if the feature was found, and the error.
pub data GetReply (F : Type 0) : Type 0 where
  got : Value F → Option FeatureDescriptor → Option Error → GetReply F
  get_crashed : GetReply F

-- goerrors.Is(err, context.DeadlineExceeded)
unfoldable pub is_deadline : Error → Bool
is_deadline deadline_exceeded = true
is_deadline _ = false

module _ {F S : Type 0} ⦃ops : FloatOps F⦄ (state : StateOps F S) (now : ℕ) where
  -- The result of a write whose pipeline has run.
  abbrev pub write_outcome : Outcome F × World F S → Result (Unit {0}) × World F S
  write_outcome (returned v none, w) = (ok tt, w)
  write_outcome (returned v (some e), w) = (err e, w)
  write_outcome (crashed, w) = (panicked, w)

  -- What follows the encoding of the keys, which is only a check here.
  unfoldable pub write_found :
      Wait (World F S)
      → FeaturePipeliner (Middleware F (World F S))
      → Context
      → Keys
      → Value F
      → StateMethod
      → Result Text
      → World F S
      → Result (Unit {0}) × World F S
  write_found wait f ctx keys v method panicked w = (panicked, w)
  write_found wait f ctx keys v method (err e) w = (err e, w)
  write_found wait f ctx keys v method (ok _) w =
      write_outcome
        (apply_pipeline wait (write_pipeline state now f method) ctx f.descriptor keys v w)

  -- engine.write behind the lookup
  unfoldable pub write_feature :
      Wait (World F S)
      → Context
      → Text
      → Keys
      → AnyValue F
      → ℕ
      → StateMethod
      → World F S
      → Result (FeaturePipeliner (Middleware F (World F S)))
      → Result (Unit {0}) × World F S
  write_feature wait ctx fqn keys val ts method w panicked = (panicked, w)
  write_feature wait ctx fqn keys val ts method w (err e) = (err e, w)
  write_feature wait ctx fqn keys val ts method w (ok f) =
      write_found wait f (feature_context f.descriptor fqn ctx) keys
        (record { value = val; timestamp = ts; fresh = false }) method (encode keys f.descriptor) w

  -- engine.write
  unfoldable pub write :
      Wait (World F S)
      → List (Text × FeaturePipeliner (Middleware F (World F S)))
      → Context
      → Text
      → Keys
      → AnyValue F
      → ℕ
      → StateMethod
      → World F S
      → Result (Unit {0}) × World F S
  write wait features ctx fqn keys val ts method w =
      write_feature wait ctx fqn keys val ts method w (feature_for_request features fqn)

  -- The value and the error that Get returns for the end of its pipeline: a deadline is forgiven if
  -- there is a value that is not fresh.
  unfoldable pub get_outcome : FeatureDescriptor → Outcome F → GetReply F
  get_outcome fd crashed = get_crashed
  get_outcome fd (returned v none) = got v (some fd) none
  get_outcome fd (returned v (some e)) =
      if is_deadline e && not (is_nil v.value) && not v.fresh
      then got v (some fd) none
      else got v (some fd) (some e)

  -- engine.Get behind the lookup; the pipeline begins with nil at the present time.
  unfoldable pub get_feature :
      Wait (World F S)
      → Context
      → Text
      → Keys
      → World F S
      → Result (FeaturePipeliner (Middleware F (World F S)))
      → GetReply F × World F S
  get_feature wait ctx selector keys w panicked = (get_crashed, w)
  get_feature wait ctx selector keys w (err e) =
      (got (record { value = nil; timestamp = now; fresh = false }) none (some e), w)
  get_feature wait ctx selector keys w (ok f) =
      let (o, w') =
        apply_pipeline wait (read_pipeline state now f) (feature_context f.descriptor selector ctx)
          f.descriptor keys (record { value = nil; timestamp = now; fresh = false }) w in
      (get_outcome f.descriptor o, w')

  -- engine.Get
  unfoldable pub get :
      Wait (World F S)
      → List (Text × FeaturePipeliner (Middleware F (World F S)))
      → Context
      → Text
      → Keys
      → World F S
      → GetReply F × World F S
  get wait features ctx selector keys w =
      get_feature wait ctx selector keys w (feature_for_request features selector)

  -- engine.Set, engine.Append, engine.Incr and engine.Update, without the counters of package stats.
  unfoldable pub set :
      Wait (World F S)
      → List (Text × FeaturePipeliner (Middleware F (World F S)))
      → Context
      → Text
      → Keys
      → AnyValue F
      → ℕ
      → World F S
      → Result (Unit {0}) × World F S
  set wait features ctx fqn keys val ts w = write wait features ctx fqn keys val ts method_set w

  unfoldable pub append :
      Wait (World F S)
      → List (Text × FeaturePipeliner (Middleware F (World F S)))
      → Context
      → Text
      → Keys
      → AnyValue F
      → ℕ
      → World F S
      → Result (Unit {0}) × World F S
  append wait features ctx fqn keys val ts w =
      write wait features ctx fqn keys val ts method_append w

  unfoldable pub incr :
      Wait (World F S)
      → List (Text × FeaturePipeliner (Middleware F (World F S)))
      → Context
      → Text
      → Keys
      → AnyValue F
      → ℕ
      → World F S
      → Result (Unit {0}) × World F S
  incr wait features ctx fqn keys val ts w = write wait features ctx fqn keys val ts method_incr w

  unfoldable pub update :
      Wait (World F S)
      → List (Text × FeaturePipeliner (Middleware F (World F S)))
      → Context
      → Text
      → Keys
      → AnyValue F
      → ℕ
      → World F S
      → Result (Unit {0}) × World F S
  update wait features ctx fqn keys val ts w =
      write wait features ctx fqn keys val ts method_update w

-- engine.FeatureDescriptor
unfoldable pub feature_descriptor :
    {M : Type 0} → List (Text × FeaturePipeliner M) → Text → Result FeatureDescriptor
feature_descriptor features selector =
    feature_for_request features selector >>= λ f. ok f.descriptor
