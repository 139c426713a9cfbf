-- ===== src/Sdk/Service.antt =====
-- pkg/sdk/engine_to_service.go: the gRPC service over an engine. The engine is a parameter, behind the
-- interface api.Engine.
use natun.Prelude.{ℕ, Bool, true, false, List, [], ◌∷◌, ◌++◌, Option, none, some, if◌then◌else◌}
use natun.Prelude.Int.{pos, pos_part}
use natun.Prelude.Text.{Text, codes, has_prefix}
use natun.Api.Errors.{Error, Result, ok, err, panicked, feature_not_found}
use natun.Api.Aggr.{AggrFn, aggr_to_text}
use natun.Api.Value.{FloatOps, AnyValue, Value, Scalar, nil, scalar, flt, window}
use natun.Api.Descriptor.{FeatureDescriptor}
use natun.Api.Keys.{Keys}
use natun.Api.Selector.{normalize_fqn}
use natun.Sdk.Wire.{Durations, Timestamps}
use natun.Sdk.Messages.{
  DescriptorRequest, DescriptorResponse, GetRequest, GetResponse, SetRequest, AppendRequest,
  WriteResponse,
}
use natun.Sdk.Convert.{to_api_value, from_value, from_scalar, to_api_feature_descriptor}

-- api.Engine over a world of type W, with the text of its errors.
pub record EngineOps (F W : Type 0) : Type 0 where
  pub feature_descriptor : Text → W → Result FeatureDescriptor
  pub get : Text → Keys → W → Result (Value F × FeatureDescriptor) × W
  pub set : Text → Keys → AnyValue F → ℕ → W → Result (Unit {0}) × W
  pub append : Text → Keys → AnyValue F → ℕ → W → Result (Unit {0}) × W
  pub incr : Text → Keys → AnyValue F → ℕ → W → Result (Unit {0}) × W
  pub update : Text → Keys → AnyValue F → ℕ → W → Result (Unit {0}) × W
  pub message : Error → Text

-- The codes of google.golang.org/grpc/codes that the service uses.
pub data Code : Type 0 where
  not_found internal invalid_argument : Code

pub record Status : Type 0 where
  pub code : Code
  pub message : Text

-- What a method of the service gives; a panic ends the process.
pub data Answer (R : Type 0) : Type 0 where
  crashed : Answer R
  failed : Status → Answer R
  answered : R → Answer R

-- errors.Is(err, api.ErrFeatureNotFound)
unfoldable pub is_not_found : Error → Bool
is_not_found feature_not_found = true
is_not_found _ = false

-- The status of an error of the engine, with what the method could not do.
unfoldable pub engine_status : {F W : Type 0} → EngineOps F W → Text → Error → Status
engine_status engine failure e =
    if is_not_found e
    then record { code = not_found; message = codes "feature not found" }
    else record { code = internal; message = failure ++ engine.message e }

-- The value that Get answers with: of a window the one of the only function that the request asks for.
-- With no function, the message is made of fd.Aggr[0], out of range.
unfoldable pub requested_value :
    {F : Type 0} → ⦃ops : FloatOps F⦄ → Text → List AggrFn → AnyValue F → Answer (AnyValue F)
requested_value selector [] (window r) = crashed
requested_value ⦃ops = ops⦄ selector (f ∷ []) (window r) =
    answered (scalar (flt (elim (r f) [ none ↦ ops.zero_float | some x ↦ x ])))
requested_value selector (f ∷ g ∷ fs) (window r) = failed (record {
  code = invalid_argument;
  message =
      codes
        "the feature is windowed, but requested window function not found.please use s request with FullyQualifiedName with an aggregator i.e. `"
      ++ selector
      ++ codes "+"
      ++ aggr_to_text f
      ++ codes "`";
})
requested_value selector _ v = answered v

-- The normalized name of the selector, which has to have a namespace.
unfoldable pub requested_fqn : {F W : Type 0} → EngineOps F W → Text → Answer Text
requested_fqn engine selector = elim (normalize_fqn selector (codes "undefined-namespace")) [
  | panicked ↦ crashed
  | err e ↦
      failed (record {
        code = internal;
        message = codes "failed to normalize fqn: " ++ engine.message e;
      })
  | ok fqn ↦
      if has_prefix fqn (codes "undefined-namespace")
      then failed (record {
        code = invalid_argument;
        message =
            codes
              "When requesting a feature using gRPC, you must specify the namespace in the FullyQualifiedName.";
      })
      else answered fqn
]

abbrev pub and_then : {Q R : Type 0} → Answer Q → (Q → Answer R) → Answer R
and_then crashed next = crashed
and_then (failed s) next = failed s
and_then (answered q) next = next q

-- A scalar in an interface, which may be nil
abbrev pub any_of : {F : Type 0} → Option (Scalar F) → AnyValue F
any_of none = nil
any_of (some v) = scalar v

-- A conversion, which panics or gives a result.
abbrev pub converted : {R : Type 0} → Result R → Answer R
converted (ok r) = answered r
converted _ = crashed

-- FeatureDescriptor
unfoldable pub service_feature_descriptor :
    {F W D : Type 0}
    → ⦃durations : Durations D⦄ → EngineOps F W
    → DescriptorRequest
    → W
    → Answer (DescriptorResponse D)
service_feature_descriptor engine req w = elim (engine.feature_descriptor req.selector w) [
  | panicked ↦ crashed
  | err e ↦ failed (engine_status engine (codes "failed to get FeatureDescriptor: ") e)
  | ok fd ↦ answered (record { uuid = req.uuid; feature_descriptor = to_api_feature_descriptor fd })
]

module _ {F W T D : Type 0} ⦃ops : FloatOps F⦄ ⦃times : Timestamps T⦄ ⦃durations : Durations D⦄
    (engine : EngineOps F W) where
  -- The response of Get; the message's `fresh` is left at its zero value.
  unfoldable pub get_response :
      GetRequest → Value F → FeatureDescriptor → Answer (GetResponse F T D)
  get_response req v fd = and_then (requested_value req.selector fd.aggr v.value) (λ val.
      and_then (requested_fqn engine req.selector) (λ fqn.
        and_then (converted (to_api_value val)) (λ m. answered (record {
          uuid = req.uuid;
          value = record {
            fqn = fqn;
            keys = req.keys;
            value = m;
            timestamp = times.new_timestamp (pos v.timestamp);
            fresh = false;
          };
          feature_descriptor = to_api_feature_descriptor fd;
        }))))

  -- Get
  unfoldable pub service_get : GetRequest → W → Answer (GetResponse F T D) × W
  service_get req w =
      let (r, w') = engine.get req.selector req.keys w in
      (
        elim r [
          | panicked ↦ crashed
          | err e ↦ failed (engine_status engine (codes "failed to get value: ") e)
          | ok (v, fd) ↦ get_response req v fd
        ],
        w',
      )

module _ {F W T : Type 0} ⦃times : Timestamps T⦄ (engine : EngineOps F W) (now : ℕ) where
  -- The end of a method that writes
  unfoldable pub write_response : Text → Text → Result (Unit {0}) × W → Answer (WriteResponse T) × W
  write_response uuid failure (panicked, w) = (crashed, w)
  write_response uuid failure (err e, w) = (failed (engine_status engine failure e), w)
  write_response uuid failure (ok _, w) =
      (answered (record { uuid = uuid; timestamp = times.new_timestamp (pos now) }), w)

  -- req.Timestamp.AsTime(), from the epoch on
  abbrev pub instant : T → ℕ
  instant t = pos_part (times.as_time t)

  -- The call of the engine with a value of the request; FromValue panics for an unset one.
  abbrev pub with_value :
      {R : Type 0}
      → Result R
      → W
      → (R → Answer (WriteResponse T) × W)
      → Answer (WriteResponse T) × W
  with_value (ok v) w next = next v
  with_value _ w next = (crashed, w)

  -- Set
  unfoldable pub service_set : SetRequest F T → W → Answer (WriteResponse T) × W
  service_set req w = with_value (from_value req.value) w (λ v.
      write_response req.uuid (codes "failed to set value: ")
        (engine.set req.selector req.keys v (instant req.timestamp) w))

  -- Update
  unfoldable pub service_update : SetRequest F T → W → Answer (WriteResponse T) × W
  service_update req w = with_value (from_value req.value) w (λ v.
      write_response req.uuid (codes "failed to update value: ")
        (engine.update req.selector req.keys v (instant req.timestamp) w))

  -- Append
  unfoldable pub service_append : AppendRequest F T → W → Answer (WriteResponse T) × W
  service_append req w = with_value (from_scalar req.value) w (λ v.
      write_response req.uuid (codes "failed to append value: ")
        (engine.append req.fqn req.keys (any_of v) (instant req.timestamp) w))

  -- Incr
  unfoldable pub service_incr : AppendRequest F T → W → Answer (WriteResponse T) × W
  service_incr req w = with_value (from_scalar req.value) w (λ v.
      write_response req.uuid (codes "failed to incr value: ")
        (engine.incr req.fqn req.keys (any_of v) (instant req.timestamp) w))
