-- ===== src/Sdk/RoundTrip.antt =====
-- What survives the way over gRPC: a value or a descriptor that one side converts to a message
-- (pkg/sdk/to_grpc.go) and the other side converts back (pkg/sdk/from_grpc.go).
use natun.Prelude.{◌<◌, ◌^◌, ◌≡◌, refl, ap, subst, List, [], ◌∷◌, map, Option, none, some, All}
use native.Mathlib.Nat.{mod-eq_of_lt}
use natun.Api.Errors.{ok, ◌>>=◌}
use natun.Api.Primitive
use natun.Api.Primitive.{PrimitiveType, string_to_primitive_type, primitive_eq}
use natun.Api.Aggr.{AggrFn, unknown_fn}
use natun.Api.Value.{
  Scalar, Elem, AnyValue, GoType, str, int, flt, bool, time, go_string, go_int, go_float, go_bool,
  go_time, nil, scalar, slice, anys, window, type_detect, normalize_any, element, elements, go_type,
  type_name, detect_element,
}
use natun.Api.Descriptor.{FeatureDescriptor, KeepPrevious}
use natun.Sdk.Wire.{
  Durations, Timestamps, WireKeepPrevious, WireScalar, WireValue, string_value, int_value,
  float_value, bool_value, timestamp_value, scalar_value, list_value, to_int32, IsInt32,
  to_int32-IsInt32,
}
use natun.Sdk.Convert.{
  to_api_primitive, from_api_primitive, to_api_aggr_fn, from_api_aggr_func, to_api_aggr_fns,
  from_api_aggr_funcs, assert_scalar, boxed, list_items, to_api_scalar, to_api_items, to_api_typed,
  to_api_value, from_scalar, from_items, from_value, to_uint32, to_api_feature_descriptor,
  from_api_feature_descriptor,
}

from_api_primitive-to_api_primitive :
    (p : PrimitiveType) → from_api_primitive (to_api_primitive p) ≡ p
unfolding from_api_primitive to_api_primitive
from_api_primitive-to_api_primitive Primitive.unknown = refl
from_api_primitive-to_api_primitive _ = refl

from_api_aggr_funcs-to_api_aggr_fns :
    (fs : List AggrFn) → from_api_aggr_funcs (to_api_aggr_fns fs) ≡ fs
unfolding from_api_aggr_funcs to_api_aggr_fns from_api_aggr_func to_api_aggr_fn
from_api_aggr_funcs-to_api_aggr_fns [] = refl
from_api_aggr_funcs-to_api_aggr_fns (f ∷ fs) =
    λ i. one f i ∷ from_api_aggr_funcs-to_api_aggr_fns fs i
  where
    one : (g : AggrFn) → from_api_aggr_func (to_api_aggr_fn g) ≡ g
    one unknown_fn = refl
    one _ = refl

-- The durations of a descriptor are values of time.Duration, and its count of versions fits uint32.
pub record IsSendable (fd : FeatureDescriptor) : Type 0 where
  pub freshness : fd.freshness < 2 ^ 63
  pub staleness : fd.staleness < 2 ^ 63
  pub timeout : fd.timeout < 2 ^ 63
  pub kept :
      (kp : KeepPrevious) → fd.keep_previous ≡ some kp → (kp.versions < 2 ^ 32) × (kp.over < 2 ^ 63)

module _ (D : Type 0) ⦃proto : Durations D⦄ where
  -- The conversion of an optional KeepPrevious and back.
  kept_over :
      (k : Option KeepPrevious)
      → ((kp : KeepPrevious) → k ≡ some kp → (kp.versions < 2 ^ 32) × (kp.over < 2 ^ 63))
      → elim (elim k as (λ _. Option (WireKeepPrevious D)) [
        | none ↦ none
        | some kp ↦
            some (record { versions = to_uint32 kp.versions; over = proto.new_duration kp.over })
      ])
          as (λ _. Option KeepPrevious) [
            | none ↦ none
            | some kp ↦ some (record { versions = kp.versions; over = proto.as_duration kp.over })
          ]
        ≡ k
  kept_over none h = refl
  kept_over (some kp) h =
      let (hv, ho) = h kp refl in
      λ i. some (record {
        versions = (mod-eq_of_lt {n = kp.versions} hv) i;
        over = proto.as_duration-new_duration kp.over ho i;
      })

  -- A descriptor whose durations fit time.Duration and whose count of versions fits uint32 loses its
  -- keys, its runtime environment and its dependencies when it is sent; the rest arrives as it was.
  pub from_api_feature_descriptor-to_api_feature_descriptor :
      (fd : FeatureDescriptor)
      → IsSendable fd
      → from_api_feature_descriptor (to_api_feature_descriptor {D = D} fd)
        ≡ record fd { keys = []; runtime_env = []; dependencies = [] }
  unfolding from_api_feature_descriptor to_api_feature_descriptor
  from_api_feature_descriptor-to_api_feature_descriptor fd h = λ i. record fd {
    primitive = from_api_primitive-to_api_primitive fd.primitive i;
    aggr = from_api_aggr_funcs-to_api_aggr_fns fd.aggr i;
    freshness = proto.as_duration-new_duration fd.freshness h.freshness i;
    staleness = proto.as_duration-new_duration fd.staleness h.staleness i;
    timeout = proto.as_duration-new_duration fd.timeout h.timeout i;
    keep_previous = kept_over fd.keep_previous h.kept i;
    keys = [];
    runtime_env = [];
    dependencies = [];
  }

-- A scalar whose integer, if it is one, has 32 bits.
abbrev pub FitsScalar : {F : Type 0} → Scalar F → Type 0
FitsScalar (int n) = IsInt32 n
FitsScalar _ = Unit

-- The values that can be sent: nil, a scalar, and a slice with an element.
abbrev pub FitsValue : {F : Type 0} → AnyValue F → Type 0
FitsValue nil = Unit
FitsValue (scalar v) = FitsScalar v
FitsValue (slice t []) = ⊥
FitsValue (slice t (x ∷ xs)) = FitsScalar (boxed t x) × All (λ y. FitsScalar (boxed t y)) xs
FitsValue _ = ⊥

module _ (F S : Type 0) ⦃proto : Timestamps S⦄ where
  -- One scalar goes out and comes back.
  pub scalar_sent :
      (v : Scalar F)
      → FitsScalar v
      → (w : WireScalar F S) × (to_api_scalar (some v) ≡ ok w)
        × (from_scalar (some w) ≡ ok (some v))
  unfolding to_api_scalar from_scalar assert_scalar detect_element string_to_primitive_type
      type_name go_type
  scalar_sent (str s) h = (string_value s, refl, refl)
  scalar_sent (int n) h =
      (int_value (to_int32 n), refl, ap (λ m. ok (some (int m))) (to_int32-IsInt32 n h))
  scalar_sent (flt x) h = (float_value x, refl, refl)
  scalar_sent (bool b) h = (bool_value b, refl, refl)
  scalar_sent (time t) h = (
    timestamp_value (proto.new_timestamp t),
    refl,
    ap (λ u. ok (some (time u))) (proto.as_time-new_timestamp t),
  )

  element-boxed : (t : GoType) (x : Elem F t) → element t (some (boxed t x)) ≡ ok x
  unfolding element boxed
  element-boxed go_string x = refl
  element-boxed go_int x = refl
  element-boxed go_float x = refl
  element-boxed go_bool x = refl
  element-boxed go_time x = refl

  go_type-boxed : (t : GoType) (x : Elem F t) → go_type (boxed t x) ≡ t
  unfolding go_type boxed
  go_type-boxed go_string x = refl
  go_type-boxed go_int x = refl
  go_type-boxed go_float x = refl
  go_type-boxed go_bool x = refl
  go_type-boxed go_time x = refl

  elements-boxed :
      (t : GoType) (xs : List (Elem F t)) → elements t (map (λ x. some (boxed t x)) xs) ≡ ok xs
  unfolding elements
  elements-boxed t [] = refl
  elements-boxed t (x ∷ xs) = rw (element-boxed t x) (rw (elements-boxed t xs) refl)

  -- The elements of a slice go out and come back.
  items_sent :
      (t : GoType) (xs : List (Elem F t))
      → All (λ y. FitsScalar (boxed t y)) xs
      → (ws : List (Option (WireScalar F S))) × (to_api_items (map (λ x. some (boxed t x)) xs)
          ≡ ok ws)
        × (from_items ws ≡ ok (map (λ x. some (boxed t x)) xs))
  unfolding to_api_items from_items
  items_sent t [] h = ([], refl, refl)
  items_sent t (x ∷ xs) (hx, hs) =
      let (w, out, back) = scalar_sent (boxed t x) hx in
      let (ws, outs, backs) = items_sent t xs hs in
      (some w ∷ ws, rw out (rw outs refl), rw back (rw backs refl))

  pub to_api_value-scalar :
      (v : Scalar F) (w : WireScalar F S)
      → to_api_scalar (some v) ≡ ok w
      → to_api_value (scalar v) ≡ ok (some (scalar_value (some w)))
  unfolding to_api_value to_api_typed type_detect string_to_primitive_type type_name go_type
      primitive_eq Primitive.scalar
  to_api_value-scalar (str s) w out = rw out refl
  to_api_value-scalar (int n) w out = rw out refl
  to_api_value-scalar (flt x) w out = rw out refl
  to_api_value-scalar (bool b) w out = rw out refl
  to_api_value-scalar (time t) w out = rw out refl

  to_api_value-slice :
      (t : GoType) (xs : List (Elem F t)) (ws : List (Option (WireScalar F S)))
      → to_api_items (map (λ x. some (boxed t x)) xs) ≡ ok ws
      → to_api_value (slice t xs) ≡ ok (some (list_value ws))
  unfolding to_api_value to_api_typed list_items type_detect string_to_primitive_type type_name
      primitive_eq Primitive.scalar
  to_api_value-slice go_string xs ws out = rw out refl
  to_api_value-slice go_int xs ws out = rw out refl
  to_api_value-slice go_float xs ws out = rw out refl
  to_api_value-slice go_bool xs ws out = rw out refl
  to_api_value-slice go_time xs ws out = rw out refl

  -- A []any of boxed elements becomes their slice again.
  normalize_any-boxed :
      (t : GoType) (x : Elem F t) (xs : List (Elem F t))
      → normalize_any (anys (map (λ y. some (boxed t y)) (x ∷ xs))) ≡ ok (slice t (x ∷ xs))
  unfolding normalize_any
  normalize_any-boxed t x xs = rw (go_type-boxed t x) (rw (elements-boxed t (x ∷ xs)) refl)

  -- After a normalization the value that comes back is the one that was sent.
  pub from_value-to_api_value :
      (v : AnyValue F)
      → FitsValue v
      → (do w ← to_api_value {S = S} v; received ← from_value w; normalize_any received) ≡ ok v
  unfolding from_value normalize_any to_api_value
  from_value-to_api_value nil h = refl
  from_value-to_api_value (scalar v) h =
      let (w, out, back) = scalar_sent v h in rw (to_api_value-scalar v w out) (rw back refl)
  from_value-to_api_value (slice t []) h = absurd h
  from_value-to_api_value (slice t (x ∷ xs)) h =
      let (ws, outs, backs) = items_sent t (x ∷ xs) h in
      rw (to_api_value-slice t (x ∷ xs) ws outs) (rw backs (normalize_any-boxed t x xs))
  from_value-to_api_value (anys vs) h = absurd h
  from_value-to_api_value (window m) h = absurd h

  -- What arrives of a value: a slice is a []any, with each element under its own type.
  abbrev pub item_of : (t : GoType) → Elem F t → Option (Scalar F)
  item_of go_string s = some (str s)
  item_of go_int n = some (int n)
  item_of go_float x = some (flt x)
  item_of go_bool b = some (bool b)
  item_of go_time t = some (time t)

  abbrev pub arrived : AnyValue F → AnyValue F
  arrived (slice t xs) = anys (map (item_of t) xs)
  arrived v = v

  item_of-boxed : (t : GoType) (x : Elem F t) → some (boxed t x) ≡ item_of t x
  unfolding boxed
  item_of-boxed go_string x = refl
  item_of-boxed go_int x = refl
  item_of-boxed go_float x = refl
  item_of-boxed go_bool x = refl
  item_of-boxed go_time x = refl

  item_of-elements :
      (t : GoType) (xs : List (Elem F t)) → map (λ x. some (boxed t x)) xs ≡ map (item_of t) xs
  item_of-elements t [] = refl
  item_of-elements t (x ∷ xs) = λ i. item_of-boxed t x i ∷ item_of-elements t xs i

  -- A value that can be sent (nil, a scalar, or a slice with an element, its integers of 32 bits) has a
  -- message. The receiver reads nil and a scalar from it as they were, and a slice as a []any of its
  -- elements, in their order and of their types, which NormalizeAny turns into the slice again.
  pub to_api_value-arrived :
      (v : AnyValue F)
      → FitsValue v
      → (w : Option (WireValue F S)) × (to_api_value v ≡ ok w)
        × (from_value w ≡ ok (arrived v))
        × (normalize_any (arrived v) ≡ ok v)
  unfolding from_value to_api_value normalize_any
  to_api_value-arrived nil h = (none, refl, refl, refl)
  to_api_value-arrived (scalar v) h =
      let (w, out, back) = scalar_sent v h in
      (some (scalar_value (some w)), to_api_value-scalar v w out, rw back refl, refl)
  to_api_value-arrived (slice t []) h = absurd h
  to_api_value-arrived (slice t (x ∷ xs)) h =
      let (ws, outs, backs) = items_sent t (x ∷ xs) h in
      (
        some (list_value ws),
        to_api_value-slice t (x ∷ xs) ws outs,
        rw backs (ap (λ (l : List (Option (Scalar F))). ok (anys l)) (item_of-elements t (x ∷ xs))),
        subst (λ (l : List (Option (Scalar F))). normalize_any (anys l) ≡ ok (slice t (x ∷ xs)))
            (item_of-elements t (x ∷ xs)) (normalize_any-boxed t x xs),
      )
  to_api_value-arrived (anys vs) h = absurd h
  to_api_value-arrived (window m) h = absurd h
