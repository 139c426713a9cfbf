-- ===== src/Sdk/Convert.antt =====
-- pkg/sdk/to_grpc.go and pkg/sdk/from_grpc.go.
use natun.Prelude.{ℕ, ◌%◌, ◌^◌, List, [], ◌∷◌, map, Option, none, some, if◌then◌else◌}
use natun.Api.Errors.{Result, ok, panicked, ◌>>=◌}
use natun.Api.Primitive
use natun.Api.Primitive.{PrimitiveType, primitive_eq}
use natun.Api.Aggr.{AggrFn, unknown_fn, sum, avg, max, min, count}
use natun.Api.Value.{
  Scalar, Elem, AnyValue, GoType, str, int, flt, bool, time, go_string, go_int, go_float, go_bool,
  go_time, nil, scalar, slice, anys, type_detect, detect_element,
}
use natun.Api.Descriptor.{FeatureDescriptor}
use natun.Sdk.Wire.{
  Durations, Timestamps, WirePrimitive, p_unspecified, p_string, p_integer, p_float, p_bool,
  p_timestamp, p_string_list, p_integer_list, p_float_list, p_bool_list, p_timestamp_list, WireAggr,
  a_unspecified, a_sum, a_avg, a_max, a_min, a_count, WireDescriptor, WireScalar, string_value,
  int_value, float_value, bool_value, timestamp_value, unset, WireValue, scalar_value, list_value,
  unset_value, to_int32,
}

-- ToAPIPrimitive
unfoldable pub to_api_primitive : PrimitiveType → WirePrimitive
to_api_primitive Primitive.string = p_string
to_api_primitive Primitive.integer = p_integer
to_api_primitive Primitive.float = p_float
to_api_primitive Primitive.timestamp = p_timestamp
to_api_primitive Primitive.boolean = p_bool
to_api_primitive Primitive.string_list = p_string_list
to_api_primitive Primitive.integer_list = p_integer_list
to_api_primitive Primitive.float_list = p_float_list
to_api_primitive Primitive.boolean_list = p_bool_list
to_api_primitive Primitive.timestamp_list = p_timestamp_list
to_api_primitive Primitive.unknown = p_unspecified

-- FromAPIPrimitive
unfoldable pub from_api_primitive : WirePrimitive → PrimitiveType
from_api_primitive p_string = Primitive.string
from_api_primitive p_integer = Primitive.integer
from_api_primitive p_float = Primitive.float
from_api_primitive p_bool = Primitive.boolean
from_api_primitive p_timestamp = Primitive.timestamp
from_api_primitive p_string_list = Primitive.string_list
from_api_primitive p_integer_list = Primitive.integer_list
from_api_primitive p_float_list = Primitive.float_list
from_api_primitive p_bool_list = Primitive.boolean_list
from_api_primitive p_timestamp_list = Primitive.timestamp_list
from_api_primitive p_unspecified = Primitive.unknown

-- ToAPIAggrFn
unfoldable pub to_api_aggr_fn : AggrFn → WireAggr
to_api_aggr_fn count = a_count
to_api_aggr_fn sum = a_sum
to_api_aggr_fn avg = a_avg
to_api_aggr_fn min = a_min
to_api_aggr_fn max = a_max
to_api_aggr_fn unknown_fn = a_unspecified

-- FromAPIAggrFunc
unfoldable pub from_api_aggr_func : WireAggr → AggrFn
from_api_aggr_func a_sum = sum
from_api_aggr_func a_avg = avg
from_api_aggr_func a_min = min
from_api_aggr_func a_max = max
from_api_aggr_func a_count = count
from_api_aggr_func a_unspecified = unknown_fn

-- ToAPIAggrFns
unfoldable pub to_api_aggr_fns : List AggrFn → List WireAggr
to_api_aggr_fns [] = []
to_api_aggr_fns (f ∷ fs) = to_api_aggr_fn f ∷ to_api_aggr_fns fs

-- FromAPIAggrFuncs
unfoldable pub from_api_aggr_funcs : List WireAggr → List AggrFn
from_api_aggr_funcs [] = []
from_api_aggr_funcs (f ∷ fs) = from_api_aggr_func f ∷ from_api_aggr_funcs fs

-- The scalar of a primitive type that a type assertion takes out of a value.
unfoldable pub assert_scalar :
    {F S : Type 0} ⦃proto : Timestamps S⦄
    → PrimitiveType
    → Option (Scalar F)
    → Result (WireScalar F S)
assert_scalar Primitive.string (some (str s)) = ok (string_value s)
assert_scalar Primitive.integer (some (int n)) = ok (int_value (to_int32 n))
assert_scalar Primitive.float (some (flt x)) = ok (float_value x)
assert_scalar Primitive.boolean (some (bool b)) = ok (bool_value b)
assert_scalar ⦃proto = proto⦄ Primitive.timestamp (some (time t)) =
    ok (timestamp_value (proto.new_timestamp t))
assert_scalar _ _ = panicked

-- The dynamic scalar behind an element of a slice with a scalar element type.
unfoldable pub boxed : {F : Type 0} (t : GoType) → Elem F t → Scalar F
boxed go_string s = str s
boxed go_int n = int n
boxed go_float x = flt x
boxed go_bool b = bool b
boxed go_time t = time t

-- v.Index(i).Interface() for every i, as far as a value has elements: the rest panics at v.Len().
unfoldable pub list_items : {F : Type 0} → AnyValue F → Result (List (Option (Scalar F)))
list_items (slice t xs) = ok (map (λ x. some (boxed t x)) xs)
list_items (anys vs) = ok vs
list_items _ = panicked

module _ {F S : Type 0} ⦃proto : Timestamps S⦄ where
  -- ToAPIScalar
  unfoldable pub to_api_scalar : Option (Scalar F) → Result (WireScalar F S)
  to_api_scalar v = detect_element v >>= λ p. assert_scalar p v

  -- The loop of ToAPIValue over the elements of a list.
  unfoldable pub to_api_items : List (Option (Scalar F)) → Result (List (Option (WireScalar F S)))
  to_api_items [] = ok []
  to_api_items (v ∷ vs) = do w ← to_api_scalar v; ws ← to_api_items vs; ok (some w ∷ ws)

  -- The part of ToAPIValue after the type is known.
  unfoldable pub to_api_typed : PrimitiveType → AnyValue F → Result (WireValue F S)
  unfolding list_items
  to_api_typed p (scalar v) =
      if Primitive.scalar p
      then (to_api_scalar (some v) >>= λ w. ok (scalar_value (some w)))
      else panicked
  to_api_typed p v =
      if Primitive.scalar p
      then panicked
      else (list_items v >>= λ vs. to_api_items vs >>= λ ws. ok (list_value ws))

  -- ToAPIValue
  unfoldable pub to_api_value : AnyValue F → Result (Option (WireValue F S))
  to_api_value nil = ok none
  to_api_value v = do
    p ← type_detect v
    if primitive_eq p Primitive.unknown then panicked else (to_api_typed p v >>= λ w. ok (some w))

  -- fromScalar
  unfoldable pub from_scalar : Option (WireScalar F S) → Result (Option (Scalar F))
  from_scalar none = ok none
  from_scalar (some (string_value s)) = ok (some (str s))
  from_scalar (some (int_value n)) = ok (some (int n))
  from_scalar (some (float_value x)) = ok (some (flt x))
  from_scalar (some (bool_value b)) = ok (some (bool b))
  from_scalar (some (timestamp_value t)) = ok (some (time (proto.as_time t)))
  from_scalar (some unset) = panicked

  -- The loop of FromValue over the elements of a list.
  unfoldable pub from_items : List (Option (WireScalar F S)) → Result (List (Option (Scalar F)))
  from_items [] = ok []
  from_items (w ∷ ws) = do v ← from_scalar w; vs ← from_items ws; ok (v ∷ vs)

  -- FromValue
  unfoldable pub from_value : Option (WireValue F S) → Result (AnyValue F)
  from_value none = ok nil
  from_value (some (scalar_value w)) =
      from_scalar w >>= λ v. ok (elim v [ none ↦ nil | some s ↦ scalar s ])
  from_value (some (list_value ws)) = from_items ws >>= λ vs. ok (anys vs)
  from_value (some unset_value) = panicked

-- uint32(n)
abbrev pub to_uint32 : ℕ → ℕ
to_uint32 n = n % 2 ^ 32

module _ {D : Type 0} ⦃proto : Durations D⦄ where
  -- ToAPIFeatureDescriptor. The keys and the runtime of the message are left at their zero values.
  unfoldable pub to_api_feature_descriptor : FeatureDescriptor → WireDescriptor D
  to_api_feature_descriptor fd = record {
    fqn = fd.fqn;
    primitive = to_api_primitive fd.primitive;
    aggr = to_api_aggr_fns fd.aggr;
    freshness = proto.new_duration fd.freshness;
    staleness = proto.new_duration fd.staleness;
    timeout = proto.new_duration fd.timeout;
    keep_previous = elim fd.keep_previous [
      | none ↦ none
      | some kp ↦
          some (record { versions = to_uint32 kp.versions; over = proto.new_duration kp.over })
    ];
    keys = [];
    builder = fd.builder;
    data_source = fd.data_source;
    runtime_env = [];
  }

  -- FromAPIFeatureDescriptor. The fields that it does not set have their zero values.
  unfoldable pub from_api_feature_descriptor : WireDescriptor D → FeatureDescriptor
  from_api_feature_descriptor m = record {
    fqn = m.fqn;
    primitive = from_api_primitive m.primitive;
    aggr = from_api_aggr_funcs m.aggr;
    freshness = proto.as_duration m.freshness;
    staleness = proto.as_duration m.staleness;
    timeout = proto.as_duration m.timeout;
    keep_previous = elim m.keep_previous [
      | none ↦ none
      | some kp ↦ some (record { versions = kp.versions; over = proto.as_duration kp.over })
    ];
    keys = [];
    builder = m.builder;
    runtime_env = [];
    data_source = m.data_source;
    dependencies = [];
  }
