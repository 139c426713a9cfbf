-- ===== src/Sdk/Remote.antt =====
-- An engine behind gRPC: the client of pkg/sdk/client_to_engine.go that calls the service of
-- pkg/sdk/engine_to_service.go. The transport passes messages on as they are.
use natun.Prelude.{
  ℕ, ◌≡◌, ◌≢◌, ◌↔◌, refl, ap, true, false, ◌++◌, Option, some, Bool-cases, inl, inr,
}
use natun.Prelude.Int.{pos, pos_part}
use natun.Prelude.Text.{Text, codes, text_eq_refl}
use natun.Api.Errors.{Error, Result, ok, err, panicked, >>=-eq-ok, feature_not_found}
use natun.Api.Value.{AnyValue, Scalar, scalar, normalize_any}
use natun.Api.Keys.{Keys}
use natun.Sdk.Wire.{Timestamps, WireValue, WireScalar}
use natun.Sdk.Convert.{to_api_value, to_api_scalar, from_value, from_scalar}
use natun.Sdk.RoundTrip.{FitsValue, FitsScalar, from_value-to_api_value, scalar_sent}
use natun.Sdk.Service.{
  EngineOps, internal, Status, is_not_found, engine_status, write_response, service_set,
  service_update, service_append, service_incr,
}
use natun.Sdk.Client.{
  ClientError, api_error, Sent, send_panicked, refused, sent, has_suffix, status_text,
  is_not_found_code, normalize_error, received, done, client_set, client_append,
}

-- What the caller of the client learns of the result of the engine: success, a panic, or an error,
-- which is ErrFeatureNotFound if and only if it was that.
abbrev pub Relays : Result (Unit {0}) → Sent (Unit {0}) → Type 0
Relays panicked r = r ≡ send_panicked
Relays (ok _) r = r ≡ sent tt
Relays (err e) r =
    (x : ClientError) × (r ≡ refused x)
    × ((x ≡ api_error feature_not_found) ↔ (e ≡ feature_not_found))

is_not_found-eq : (e : Error) → is_not_found e ≡ true → e ≡ feature_not_found
unfolding is_not_found
is_not_found-eq feature_not_found h = refl
is_not_found-eq _ h = cc h

-- An internal error does not turn into the error for a missing feature.
normalize_error-internal :
    (m : Text)
    → normalize_error (record { code = internal; message = m }) ≢ api_error feature_not_found
unfolding normalize_error is_not_found_code
normalize_error-internal m h =
    let s : Status = record { code = internal; message = m } in
    elim (Bool-cases (has_suffix (status_text s) (codes "unsupported primitive"))) [
      | inl p ↦ cc (rw p at h)
      | inr p ↦ elim (Bool-cases (has_suffix (status_text s) (codes "unsupported aggr"))) [
        | inl q ↦ cc (rw q at (rw p at h))
        | inr q ↦ cc (rw q at (rw p at h))
      ]
    ]

error_Relays :
    {F W : Type 0} (engine : EngineOps F W) (failure : Text) (e : Error)
    → Relays (err e) (refused (normalize_error (engine_status engine failure e)))
unfolding engine_status is_not_found
error_Relays engine failure e = elim (Bool-cases (is_not_found e)) [
  | inl h ↦ rw h (
    api_error feature_not_found,
    unfold normalize_error is_not_found_code in refl,
    ((λ _. is_not_found-eq e h), (λ _. refl)),
  )
  | inr h ↦ rw h (
    normalize_error (record { code = internal; message = failure ++ engine.message e }),
    refl,
    (
      (λ x. absurd (normalize_error-internal (failure ++ engine.message e) x)),
      (λ x. absurd (found (rw x at h))),
    ),
  )
]
  where
    found : is_not_found feature_not_found ≡ false → ⊥
    found h = cc h

module _ {F W : Type 0} (T : Type 0) ⦃times : Timestamps T⦄ (engine : EngineOps F W) (now : ℕ) where
  relayed :
      (uuid failure : Text) (p : Result (Unit {0}) × W)
      → Relays p.0 (done {T = T} uuid (write_response engine now uuid failure p)).0
        × ((done {T = T} uuid (write_response engine now uuid failure p)).1 ≡ p.1)
  unfolding write_response received
  relayed uuid failure (panicked, w) = (refl, refl)
  relayed uuid failure (err e, w) = (error_Relays engine failure e, refl)
  relayed uuid failure (ok _, w) = rw (text_eq_refl uuid) (refl, refl)

  instant-sent : (ts : ℕ) → pos_part (times.as_time (times.new_timestamp (pos ts))) ≡ ts
  instant-sent ts = ap pos_part (times.as_time-new_timestamp (pos ts))

  set_arrives :
      (uuid selector : Text) (keys : Keys) (v v' : AnyValue F) (ts : ℕ) (w : W)
      (m : Option (WireValue F T))
      → to_api_value v ≡ ok m
      → from_value m ≡ ok v'
      → client_set (service_set {T = T} engine now) uuid selector keys v ts w
        ≡ done {T = T} uuid (
            write_response engine now uuid
              (codes "failed to set value: ")
              (engine.set selector keys v' ts w))
  unfolding client_set service_set
  set_arrives uuid selector keys v v' ts w m out back =
      rw (out, client_set) (rw (back, service_set) (rw (instant-sent ts) refl))

  update_arrives :
      (uuid selector : Text) (keys : Keys) (v v' : AnyValue F) (ts : ℕ) (w : W)
      (m : Option (WireValue F T))
      → to_api_value v ≡ ok m
      → from_value m ≡ ok v'
      → client_set (service_update {T = T} engine now) uuid selector keys v ts w
        ≡ done {T = T} uuid (
            write_response engine now uuid
              (codes "failed to update value: ")
              (engine.update selector keys v' ts w))
  unfolding client_set service_update
  update_arrives uuid selector keys v v' ts w m out back =
      rw (out, client_set) (rw (back, service_update) (rw (instant-sent ts) refl))

  append_arrives :
      (uuid fqn : Text) (keys : Keys) (v : Scalar F) (ts : ℕ) (w : W) (m : WireScalar F T)
      → to_api_scalar (some v) ≡ ok m
      → from_scalar (some m) ≡ ok (some v)
      → client_append (service_append {T = T} engine now) uuid fqn keys (some v) ts w
        ≡ done {T = T} uuid (
            write_response engine now uuid
              (codes "failed to append value: ")
              (engine.append fqn keys (scalar v) ts w))
  unfolding client_append service_append
  append_arrives uuid fqn keys v ts w m out back =
      rw (out, client_append) (rw (back, service_append) (rw (instant-sent ts) refl))

  incr_arrives :
      (uuid fqn : Text) (keys : Keys) (v : Scalar F) (ts : ℕ) (w : W) (m : WireScalar F T)
      → to_api_scalar (some v) ≡ ok m
      → from_scalar (some m) ≡ ok (some v)
      → client_append (service_incr {T = T} engine now) uuid fqn keys (some v) ts w
        ≡ done {T = T} uuid (
            write_response engine now uuid
              (codes "failed to incr value: ")
              (engine.incr fqn keys (scalar v) ts w))
  unfolding client_append service_incr
  incr_arrives uuid fqn keys v ts w m out back =
      rw (out, client_append) (rw (back, service_incr) (rw (instant-sent ts) refl))

  -- A Set over gRPC of a value that can be sent (nil, a scalar, or a slice with an element, its integers
  -- of 32 bits) is a Set of the engine behind the service, for the same keys and at the same time, of
  -- a value that normalizes to it: it leaves the same world behind, and the caller learns of a success,
  -- of a panic or of an error, and of ErrFeatureNotFound if and only if that was the error.
  pub client_set-service_set :
      (uuid selector : Text) (keys : Keys) (v : AnyValue F) (ts : ℕ) (w : W)
      → FitsValue v
      → (v' : AnyValue F) × (normalize_any v' ≡ ok v)
        × (let (r, w') = engine.set selector keys v' ts w in
            let (a, w'') = client_set (service_set {T = T} engine now) uuid selector keys v ts w in
            Relays r a × (w'' ≡ w'))
  client_set-service_set uuid selector keys v ts w fits =
      let (m, out, e) = >>=-eq-ok (to_api_value {S = T} v) _ (from_value-to_api_value F T v fits) in
      let (v', back, normal) = >>=-eq-ok (from_value m) _ e in
      (
        v',
        normal,
        rw (set_arrives uuid selector keys v v' ts w m out back)
            (relayed uuid _ (engine.set selector keys v' ts w)),
      )

  -- The same of an Update.
  pub client_set-service_update :
      (uuid selector : Text) (keys : Keys) (v : AnyValue F) (ts : ℕ) (w : W)
      → FitsValue v
      → (v' : AnyValue F) × (normalize_any v' ≡ ok v)
        × (let (r, w') = engine.update selector keys v' ts w in
            let (a, w'') =
              client_set (service_update {T = T} engine now) uuid selector keys v ts w in
            Relays r a × (w'' ≡ w'))
  client_set-service_update uuid selector keys v ts w fits =
      let (m, out, e) = >>=-eq-ok (to_api_value {S = T} v) _ (from_value-to_api_value F T v fits) in
      let (v', back, normal) = >>=-eq-ok (from_value m) _ e in
      (
        v',
        normal,
        rw (update_arrives uuid selector keys v v' ts w m out back)
            (relayed uuid _ (engine.update selector keys v' ts w)),
      )

  -- An Append or an Incr over gRPC of a scalar (an integer of 32 bits, or another type) is that of the engine
  -- behind the service, with the same scalar, keys and time: it leaves the same world behind, and the caller
  -- learns of a success, of a panic or of an error, and of ErrFeatureNotFound if and only if it was that.
  pub client_append-service_append :
      (uuid fqn : Text) (keys : Keys) (v : Scalar F) (ts : ℕ) (w : W)
      → FitsScalar v
      → (let (r, w') = engine.append fqn keys (scalar v) ts w in
          let (a, w'') =
            client_append (service_append {T = T} engine now) uuid fqn keys (some v) ts w in
          Relays r a × (w'' ≡ w'))
        × (let (r, w') = engine.incr fqn keys (scalar v) ts w in
            let (a, w'') =
              client_append (service_incr {T = T} engine now) uuid fqn keys (some v) ts w in
            Relays r a × (w'' ≡ w'))
  client_append-service_append uuid fqn keys v ts w fits =
      let (m, out, back) = scalar_sent F T v fits in
      (
        rw (append_arrives uuid fqn keys v ts w m out back)
            (relayed uuid _ (engine.append fqn keys (scalar v) ts w)),
        rw (incr_arrives uuid fqn keys v ts w m out back)
            (relayed uuid _ (engine.incr fqn keys (scalar v) ts w)),
      )
