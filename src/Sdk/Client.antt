-- ===== src/Sdk/Client.antt =====
-- pkg/sdk/client_to_engine.go: an engine over a client of the gRPC service. A call of the client is a
-- parameter, and so is the UUID that it is made with.
use natun.Prelude.{ℕ, Bool, true, false, ◌||◌, [], ◌∷◌, ◌++◌, Option, some, if◌then◌else◌}
use natun.Prelude.Int.{pos, pos_part}
use natun.Prelude.Text.{Text, codes, text_eq}
use natun.Api.Errors.{
  Error, ok, err, panicked, feature_not_found, unsupported_primitive, unsupported_aggr,
}
use natun.Api.Value.{AnyValue, Value, Scalar}
use natun.Api.Descriptor.{FeatureDescriptor, is_empty}
use natun.Api.Keys.{Keys}
use natun.Sdk.Wire.{Durations, Timestamps}
use natun.Sdk.Convert.{to_api_value, to_api_scalar, from_value, from_api_feature_descriptor}
use natun.Sdk.Messages.{
  DescriptorRequest, DescriptorResponse, GetRequest, GetResponse, SetRequest, AppendRequest,
  WriteResponse,
}
use natun.Sdk.Service.{
  Code, not_found, internal, invalid_argument, Status, Answer, crashed, failed, answered,
}

-- An error of the API, the status that came back, or a response to another request.
pub data ClientError : Type 0 where
  api_error : Error → ClientError
  status_error : Status → ClientError
  uuid_mismatch : ClientError

pub data Sent (R : Type 0) : Type 0 where
  send_panicked : Sent R
  refused : ClientError → Sent R
  sent : R → Sent R

-- strings.HasSuffix
unfoldable pub has_suffix : Text → Text → Bool
has_suffix [] suffix = is_empty suffix
has_suffix (c ∷ s) suffix = text_eq (c ∷ s) suffix || has_suffix s suffix

unfoldable pub code_name : Code → Text
code_name not_found = codes "NotFound"
code_name internal = codes "Internal"
code_name invalid_argument = codes "InvalidArgument"

-- The text of a status as an error, of google.golang.org/grpc/status
unfoldable pub status_text : Status → Text
status_text s = codes "rpc error: code = " ++ code_name s.code ++ codes " desc = " ++ s.message

-- normalizeError for an error with a status
unfoldable pub is_not_found_code : Code → Bool
is_not_found_code not_found = true
is_not_found_code _ = false

unfoldable pub normalize_error : Status → ClientError
normalize_error s =
    if is_not_found_code s.code
    then api_error feature_not_found
    else if has_suffix (status_text s) (codes "unsupported primitive")
    then api_error unsupported_primitive
    else if has_suffix (status_text s) (codes "unsupported aggr")
    then api_error unsupported_aggr
    else status_error s

-- The end of a method: the response has to be that to the request.
unfoldable pub received : {Q R : Type 0} → Text → (Q → Text) → (Q → Sent R) → Answer Q → Sent R
received uuid of_response next crashed = send_panicked
received uuid of_response next (failed s) = refused (normalize_error s)
received uuid of_response next (answered q) =
    if text_eq (of_response q) uuid then next q else refused uuid_mismatch

-- FeatureDescriptor
unfoldable pub client_feature_descriptor :
    {D W : Type 0}
    → ⦃durations : Durations D⦄ → (DescriptorRequest → W → Answer (DescriptorResponse D))
    → Text
    → Text
    → W
    → Sent FeatureDescriptor
client_feature_descriptor call uuid selector w =
    received uuid (λ q. q.uuid) (λ q. sent (from_api_feature_descriptor q.feature_descriptor))
      (call (record { uuid = uuid; selector = selector }) w)

-- The value of a response; FromValue panics for an unset one.
unfoldable pub got_response :
    {F T D : Type 0}
    → ⦃times : Timestamps T⦄ → ⦃durations : Durations D⦄ → GetResponse F T D
    → Sent (Value F × FeatureDescriptor)
got_response ⦃times = times⦄ q = elim (from_value q.value.value) [
  | panicked ↦ send_panicked
  | err e ↦ send_panicked
  | ok v ↦ sent (
    record {
      value = v;
      timestamp = pos_part (times.as_time q.value.timestamp);
      fresh = q.value.fresh;
    },
    from_api_feature_descriptor q.feature_descriptor,
  )
]

-- The end of a method that writes
abbrev pub done : {W T : Type 0} → Text → Answer (WriteResponse T) × W → Sent (Unit {0}) × W
done uuid (a, w) = (received uuid (λ q. q.uuid) (λ q. sent tt) a, w)

module _ {F W T D : Type 0} ⦃times : Timestamps T⦄ ⦃durations : Durations D⦄ where
  -- Get
  unfoldable pub client_get :
      (GetRequest → W → Answer (GetResponse F T D) × W)
      → Text
      → Text
      → Keys
      → W
      → Sent (Value F × FeatureDescriptor) × W
  client_get call uuid selector keys w =
      let (a, w') = call (record { uuid = uuid; selector = selector; keys = keys }) w in
      (received uuid (λ q. q.uuid) got_response a, w')

module _ {F W T : Type 0} ⦃times : Timestamps T⦄ where
  -- Set, with the call of Set, and Update, with the call of Update
  unfoldable pub client_set :
      (SetRequest F T → W → Answer (WriteResponse T) × W)
      → Text
      → Text
      → Keys
      → AnyValue F
      → ℕ
      → W
      → Sent (Unit {0}) × W
  client_set call uuid fqn keys v ts w = elim (to_api_value v) [
    | panicked ↦ (send_panicked, w)
    | err e ↦ (send_panicked, w)
    | ok m ↦ done uuid (
        call
          (record {
            uuid = uuid;
            selector = fqn;
            keys = keys;
            value = m;
            timestamp = times.new_timestamp (pos ts);
          })
          w)
  ]

  -- Append, with the call of Append, and Incr, with the call of Incr
  unfoldable pub client_append :
      (AppendRequest F T → W → Answer (WriteResponse T) × W)
      → Text
      → Text
      → Keys
      → Option (Scalar F)
      → ℕ
      → W
      → Sent (Unit {0}) × W
  client_append call uuid fqn keys v ts w = elim (to_api_scalar v) [
    | panicked ↦ (send_panicked, w)
    | err e ↦ (send_panicked, w)
    | ok m ↦ done uuid (
        call
          (record {
            uuid = uuid;
            fqn = fqn;
            keys = keys;
            value = some m;
            timestamp = times.new_timestamp (pos ts);
          })
          w)
  ]
