-- ===== src/Sdk/RemoteGet.antt =====
-- A Get over gRPC: the client of pkg/sdk/client_to_engine.go that calls the service of
-- pkg/sdk/engine_to_service.go.
use natun.Prelude.{ℕ, ◌≡◌, refl, false, List, [], ◌∷◌, some}
use natun.Prelude.Int.{pos}
use natun.Prelude.Text.{Text, codes, text_eq_refl, has_prefix}
use natun.Api.Errors.{ok}
use natun.Api.Aggr.{AggrFn}
use natun.Api.Value.{FloatOps, Value, Scalar, scalar}
use natun.Api.Descriptor.{FeatureDescriptor}
use natun.Api.Keys.{Keys}
use natun.Api.Selector.{normalize_fqn}
use natun.Sdk.Wire.{Durations, Timestamps, WireScalar, scalar_value}
use natun.Sdk.Convert.{to_api_value, from_value, from_scalar, to_api_feature_descriptor}
use natun.Sdk.RoundTrip.{
  IsSendable, FitsScalar, scalar_sent, to_api_value-scalar,
  from_api_feature_descriptor-to_api_feature_descriptor,
}
use natun.Sdk.Messages.{GetResponse}
use natun.Sdk.Service.{
  EngineOps, answered, requested_value, requested_fqn, get_response, service_get,
}
use natun.Sdk.Client.{sent, received, got_response, client_get}

requested_value-scalar :
    {F : Type 0} ⦃ops : FloatOps F⦄ (selector : Text) (fs : List AggrFn) (s : Scalar F)
    → requested_value selector fs (scalar s) ≡ answered (scalar s)
unfolding requested_value
requested_value-scalar selector [] s = refl
requested_value-scalar selector (f ∷ []) s = refl
requested_value-scalar selector (f ∷ g ∷ fs) s = refl

module _ {F W : Type 0} (T D : Type 0) ⦃ops : FloatOps F⦄ ⦃times : Timestamps T⦄
    ⦃durations : Durations D⦄ (engine : EngineOps F W) where
  -- The response to a request for a scalar.
  abbrev scalar_response :
      Text → Text → Keys → WireScalar F T → ℕ → FeatureDescriptor → GetResponse F T D
  scalar_response uuid fqn keys m t fd = record {
    uuid = uuid;
    value = record {
      fqn = fqn;
      keys = keys;
      value = some (scalar_value (some m));
      timestamp = times.new_timestamp (pos t);
      fresh = false;
    };
    feature_descriptor = to_api_feature_descriptor fd;
  }

  requested_fqn-known :
      (selector fqn : Text)
      → normalize_fqn selector (codes "undefined-namespace") ≡ ok fqn
      → has_prefix fqn (codes "undefined-namespace") ≡ false
      → requested_fqn engine selector ≡ answered fqn
  unfolding requested_fqn
  requested_fqn-known selector fqn known own = rw (known, requested_fqn) (rw own refl)

  get_response-scalar :
      (uuid selector fqn : Text) (keys : Keys) (v : Value F) (s : Scalar F) (fd : FeatureDescriptor)
      (m : WireScalar F T)
      → v.value ≡ scalar s
      → requested_fqn engine selector ≡ answered fqn
      → to_api_value (scalar s) ≡ ok (some (scalar_value (some m)))
      → get_response engine (record { uuid = uuid; selector = selector; keys = keys }) v fd
        ≡ answered (scalar_response uuid fqn keys m v.timestamp fd)
  unfolding get_response
  get_response-scalar uuid selector fqn keys v s fd m e known out =
      rw e (rw (requested_value-scalar selector fd.aggr s) (rw known (rw out refl)))

  got_response-scalar :
      (uuid fqn : Text) (keys : Keys) (s : Scalar F) (m : WireScalar F T) (t : ℕ)
      (fd : FeatureDescriptor)
      → IsSendable fd
      → from_scalar (some m) ≡ ok (some s)
      → got_response (scalar_response uuid fqn keys m t fd)
        ≡ sent (
          record { value = scalar s; timestamp = t; fresh = false },
          record fd { keys = []; runtime_env = []; dependencies = [] },
        )
  unfolding got_response from_value
  got_response-scalar uuid fqn keys s m t fd sendable back =
      let here : from_value (some (scalar_value (some m))) ≡ ok (scalar s) =
        rw (back, from_value) refl in
      rw (here, got_response)
        (rw (times.as_time-new_timestamp (pos t))
          (rw (from_api_feature_descriptor-to_api_feature_descriptor D fd sendable) refl))

  -- A Get over gRPC for which the engine behind the service finds a scalar (of 32 bits, if it is an integer),
  -- with a selector that names a namespace and a descriptor that can be sent: the caller has the engine's
  -- scalar and its timestamp, never as a fresh value, and the descriptor without its keys, its runtime
  -- environment and its dependencies.
  pub client_get-service_get :
      (uuid selector fqn : Text) (keys : Keys) (v : Value F) (s : Scalar F) (fd : FeatureDescriptor)
      (w w' : W)
      → engine.get selector keys w ≡ (ok (v, fd), w')
      → v.value ≡ scalar s
      → FitsScalar s
      → IsSendable fd
      → normalize_fqn selector (codes "undefined-namespace") ≡ ok fqn
      → has_prefix fqn (codes "undefined-namespace") ≡ false
      → client_get (service_get {T = T} {D = D} engine) uuid selector keys w ≡ (
        sent (
          record { value = scalar s; timestamp = v.timestamp; fresh = false },
          record fd { keys = []; runtime_env = []; dependencies = [] },
        ),
        w',
      )
  unfolding client_get service_get received
  client_get-service_get uuid selector fqn keys v s fd w w' found e fits sendable known own =
      let (m, out, back) = scalar_sent F T s fits in
      let named = requested_fqn-known selector fqn known own in
      rw found (
        rw
          (get_response-scalar uuid selector fqn keys v s fd m e named
            (to_api_value-scalar F T s m out))
          (rw (text_eq_refl uuid)
            (rw (got_response-scalar uuid fqn keys s m v.timestamp fd sendable back) refl)))
