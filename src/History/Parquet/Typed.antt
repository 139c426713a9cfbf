-- ===== src/History/Parquet/Typed.antt =====
-- The type assertions of NewHistoricalRecord, internal/plugins/providers/historical/parquet/schema.go.
use natun.Prelude.{◌≡◌, refl, subst, [], ◌∷◌, Option, none, some, map}
use natun.Api.Errors.{ok, >>=-eq-ok, ok-injective}
use natun.Api.Primitive.{PrimitiveType, string_to_primitive_type}
use natun.Api.Value.{
  FloatOps, AnyValue, nil, scalar, slice, anys, window, str, int, flt, bool, time, go_string,
  go_int, go_float, go_bool, go_time, element, elements, go_type, type_name, type_detect,
  normalize_any,
}
use natun.History.Parquet.{
  RecordOps, RecordValue, string_value, int_value, double_value, timestamp_value, string_list_value,
  int_list_value, double_list_value, timestamp_list_value, as_scalar, as_slice, value_field,
}

-- A value with a type of its own: no []any.
IsTyped : {F : Type 0} → AnyValue F → Type 0
IsTyped (anys vs) = ⊥
IsTyped _ = Unit

normalize_any-IsTyped : {F : Type 0} (v nv : AnyValue F) → normalize_any v ≡ ok nv → IsTyped nv
unfolding normalize_any IsTyped
normalize_any-IsTyped nil nv e = subst IsTyped (ok-injective e) tt
normalize_any-IsTyped (scalar s) nv e = subst IsTyped (ok-injective e) tt
normalize_any-IsTyped (slice t xs) nv e = subst IsTyped (ok-injective e) tt
normalize_any-IsTyped (window m) nv e = subst IsTyped (ok-injective e) tt
normalize_any-IsTyped (anys []) nv e = subst IsTyped (ok-injective e) tt
normalize_any-IsTyped (anys (none ∷ vs)) nv e = cc e
normalize_any-IsTyped (anys (some s ∷ vs)) nv e =
    let (xs, made, same) = >>=-eq-ok (elements (go_type s) (some s ∷ vs)) _ e in
    subst IsTyped (ok-injective same) tt

module _ {F : Type 0} ⦃floats : FloatOps F⦄ (ops : RecordOps F) where
  -- The field for a value, with its content; a Boolean, a list of them, nil and a window have none.
  abbrev pub field_of : AnyValue F → Option (RecordValue F)
  field_of (scalar (str s)) = some (string_value s)
  field_of (scalar (int n)) = some (int_value n)
  field_of (scalar (flt x)) = some (double_value x)
  field_of (scalar (time n)) = some (timestamp_value (ops.to_micros n))
  field_of (slice go_string xs) = some (string_list_value xs)
  field_of (slice go_int xs) = some (int_list_value xs)
  field_of (slice go_float xs) = some (double_list_value xs)
  field_of (slice go_time xs) = some (timestamp_list_value (map ops.to_micros xs))
  field_of _ = none

  -- A record takes the value whole, in the field of its type.
  abbrev pub IsKept : AnyValue F → PrimitiveType → Type 0
  IsKept v t = value_field ops v t ≡ ok (field_of v)

  detected : (v : AnyValue F) (t : PrimitiveType) → IsTyped v → type_detect v ≡ ok t → IsKept v t
  unfolding value_field as_scalar as_slice element type_detect type_name go_type
      string_to_primitive_type IsTyped
  detected nil t typed e = cc e
  detected (anys vs) t typed e = absurd typed
  detected (window m) t typed e = subst (IsKept (window m)) (ok-injective e) refl
  detected (scalar (str s)) t typed e = subst (IsKept (scalar (str s))) (ok-injective e) refl
  detected (scalar (int n)) t typed e = subst (IsKept (scalar (int n))) (ok-injective e) refl
  detected (scalar (flt x)) t typed e = subst (IsKept (scalar (flt x))) (ok-injective e) refl
  detected (scalar (bool b)) t typed e = subst (IsKept (scalar (bool b))) (ok-injective e) refl
  detected (scalar (time n)) t typed e = subst (IsKept (scalar (time n))) (ok-injective e) refl
  detected (slice go_string xs) t typed e =
      subst (IsKept (slice go_string xs)) (ok-injective e) refl
  detected (slice go_int xs) t typed e = subst (IsKept (slice go_int xs)) (ok-injective e) refl
  detected (slice go_float xs) t typed e = subst (IsKept (slice go_float xs)) (ok-injective e) refl
  detected (slice go_bool xs) t typed e = subst (IsKept (slice go_bool xs)) (ok-injective e) refl
  detected (slice go_time xs) t typed e = subst (IsKept (slice go_time xs)) (ok-injective e) refl

  -- For a value that NormalizeAny gave, as the historian does in front of each write, no type assertion of
  -- NewHistoricalRecord fails once TypeDetect has found the type of the value, and the record has the value
  -- itself in the field of its type, times in microseconds. For a Boolean, a list of them and a window
  -- no field is set.
  pub value_field-IsKept :
      (v nv : AnyValue F) (t : PrimitiveType)
      → normalize_any v ≡ ok nv
      → type_detect nv ≡ ok t
      → IsKept nv t
  value_field-IsKept v nv t normal e = detected nv t (normalize_any-IsTyped v nv normal) e
