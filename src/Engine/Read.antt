-- ===== src/Engine/Read.antt =====
-- The read path of the engine: getValueMiddleware, cachePostGetMiddleware and readPipeline of
-- internal/engine/engine_pipeline.go.
use natun.Prelude.{
  ℕ, ◌+◌, Bool, true, false, not, ◌&&◌, ◌||◌, List, [], ◌∷◌, ◌++◌, Option, none, some, ltb,
  if◌then◌else◌,
}
use natun.Api.Errors.{
  Error, Result, ok, err, panicked, invalid_pipeline_context, value_mismatch, version_not_kept,
  version_too_old,
}
use natun.Api.Primitive.{PrimitiveType, primitive_eq}
use natun.Api.Aggr.{AggrFn, unknown_fn, aggr_eq}
use natun.Api.Value.{FloatOps, AnyValue, Value, flt, nil, scalar, window, type_detect}
use natun.Api.Descriptor.{FeatureDescriptor, is_empty, valid_window}
use natun.Api.Keys.{Keys}
use natun.Api.Selector.{Selector, parse_selector}
use natun.Engine.Pipeline.{Context, Decision, pass, stop, halt, follow, Middleware}
use natun.Engine.Priority.{FeaturePipeliner, middlewares}
use natun.Engine.World.{StateOps, World}

-- v.Value == nil
abbrev pub is_nil : {F : Type 0} → AnyValue F → Bool
is_nil nil = true
is_nil _ = false

-- The checks of the version in a selector.
unfoldable pub version_error : FeatureDescriptor → ℕ → Option Error
version_error fd ver =
    if ltb 0 ver
    then elim fd.keep_previous [
      | none ↦ some version_not_kept
      | some kp ↦ if ltb kp.versions ver then some version_too_old else none
    ]
    else none

-- A result map at a function; a missing entry reads as 0.
unfoldable pub window_entry :
    {F : Type 0} ⦃ops : FloatOps F⦄ → (AggrFn → Option F) → AggrFn → AnyValue F
window_entry ⦃ops⦄ w f = scalar (flt (elim (w f) [ none ↦ ops.zero_float | some x ↦ x ]))

module _ {F S : Type 0} ⦃ops : FloatOps F⦄ (state : StateOps F S) (now : ℕ) where
  -- time.Now().Add(-fd.Staleness).After(v.Timestamp)
  unfoldable pub is_expired : FeatureDescriptor → Value F → Bool
  is_expired fd v = ltb (v.timestamp + fd.staleness) now

  -- The context behind a value of the state.
  unfoldable pub cache_context : Context → Value F → Context
  cache_context ctx v = record ctx {
    from_cache = some (not (is_nil v.value));
    cache_fresh = some v.fresh;
  }

  -- One function of a windowed feature; ToLowLevelValue panics on another value than a result map.
  unfoldable pub pick_aggr :
      AggrFn → Context → Keys → Value F → AnyValue F → World F S → Decision F (World F S)
  unfolding window_entry
  pick_aggr f ctx keys v (window m) w = pass ctx keys (record v { value = window_entry m f }) w
  pick_aggr f ctx keys v _ w = halt w

  -- What follows the call of the state.
  unfoldable pub use_stored :
      AggrFn
      → Context
      → FeatureDescriptor
      → Keys
      → Value F
      → World F S
      → Result (Option (Value F))
      → Decision F (World F S)
  use_stored f ctx fd keys val w panicked = halt w
  use_stored f ctx fd keys val w (err e) = stop e w
  use_stored f ctx fd keys val w (ok none) = pass ctx keys val w
  use_stored f ctx fd keys val w (ok (some v)) =
      if is_expired fd v
      then pass ctx keys val w
      else if valid_window fd && not (aggr_eq f unknown_fn)
      then pick_aggr f (cache_context ctx v) keys v v.value w
      else pass (cache_context ctx v) keys v w

  -- What follows the parsing of the selector.
  unfoldable pub read_selected :
      Context
      → FeatureDescriptor
      → Keys
      → Value F
      → World F S
      → Result Selector
      → Decision F (World F S)
  read_selected ctx fd keys val w panicked = halt w
  read_selected ctx fd keys val w (err e) = stop e w
  read_selected ctx fd keys val w (ok s) = elim (version_error fd s.version) [
    | some e ↦ stop e w
    | none ↦ use_stored s.aggr_fn ctx fd keys val w (state.get now fd keys s.version w.store)
  ]

  unfoldable pub get_decision :
      Context → FeatureDescriptor → Keys → Value F → World F S → Decision F (World F S)
  get_decision ctx fd keys val w =
      if is_empty fd.data_source then pass ctx keys val w else elim ctx.selector [
        | none ↦ stop invalid_pipeline_context w
        | some s ↦ read_selected ctx fd keys val w (parse_selector s)
      ]

  -- getValueMiddleware
  unfoldable pub get_value_middleware : Middleware F (World F S)
  get_value_middleware next ctx fd keys val w = follow (get_decision ctx fd keys val w) next fd val

  abbrev is_some_of : Bool → Option Bool → Bool
  is_some_of b none = false
  is_some_of true (some c) = c
  is_some_of false (some c) = not c

  -- What follows the detection of the value's type: unless the context forbids it or the value is
  -- fresh, a goroutine is left that writes it.
  unfoldable pub cache_typed :
      Context
      → FeatureDescriptor
      → Keys
      → Value F
      → World F S
      → Result PrimitiveType
      → Decision F (World F S)
  cache_typed ctx fd keys val w panicked = halt w
  cache_typed ctx fd keys val w (err e) = stop e w
  cache_typed ctx fd keys val w (ok p) =
      if not (primitive_eq p fd.primitive)
      then stop value_mismatch w
      else if is_some_of false ctx.cache_post_get
      then pass ctx keys val w
      else if is_some_of true ctx.cache_fresh
      then pass ctx keys val w
      else pass ctx keys val (record w { spawned = w.spawned ++ ((keys, val) ∷ []) })

  unfoldable pub cache_decision :
      Context → FeatureDescriptor → Keys → Value F → World F S → Decision F (World F S)
  cache_decision ctx fd keys val w =
      if is_nil val.value || valid_window fd || is_empty fd.data_source
      then pass ctx keys val w
      else cache_typed ctx fd keys val w (type_detect val.value)

  -- cachePostGetMiddleware
  unfoldable pub cache_post_get_middleware : Middleware F (World F S)
  cache_post_get_middleware next ctx fd keys val w =
      follow (cache_decision ctx fd keys val w) next fd val

  -- The middlewares of readPipeline
  unfoldable pub read_pipeline :
      FeaturePipeliner (Middleware F (World F S)) → List (Middleware F (World F S))
  read_pipeline f =
      (middlewares f.pre_get ++ (get_value_middleware ∷ []))
      ++ (middlewares f.post_get ++ (cache_post_get_middleware ∷ []))
