-- ===== src/Sdk/Wire.antt =====
-- The messages of api/proto/core/v1alpha1/types.proto, as the Go code generated from them has them:
-- an enum, a message behind a pointer, a oneof that may be unset. The well-known types Duration and
-- Timestamp and their conversions come from google.golang.org/protobuf, a parameter.
use natun.Prelude.{ℕ, ◌-◌, ◌%◌, ◌^◌, ◌<◌, ◌≡◌, Bool, List, Option, if◌then◌else◌, ltb, arith}
use native.Mathlib.Nat.{mod-eq_of_lt}
use natun.Prelude.Int.{ℤ, pos, negsuc}
use natun.Prelude.Text.{Text}

-- durationpb: a time.Duration comes back from its message.
pub record Durations (D : Type 0) : Type 0 where
  pub new_duration : ℕ → D
  pub as_duration : D → ℕ
  pub as_duration-new_duration : (d : ℕ) → d < 2 ^ 63 → as_duration (new_duration d) ≡ d

-- timestamppb: a time.Time comes back from its message, as the same instant.
pub record Timestamps (S : Type 0) : Type 0 where
  pub new_timestamp : ℤ → S
  pub as_time : S → ℤ
  pub as_time-new_timestamp : (t : ℤ) → as_time (new_timestamp t) ≡ t

pub data WirePrimitive : Type 0 where
  p_unspecified p_string p_integer p_float p_bool p_timestamp : WirePrimitive
  p_string_list p_integer_list p_float_list p_bool_list p_timestamp_list : WirePrimitive

pub data WireAggr : Type 0 where
  a_unspecified a_sum a_avg a_max a_min a_count : WireAggr

pub record WireKeepPrevious (D : Type 0) : Type 0 where
  pub versions : ℕ
  pub over : D

pub record WireDescriptor (D : Type 0) : Type 0 where
  pub fqn : Text
  pub primitive : WirePrimitive
  pub aggr : List WireAggr
  pub freshness : D
  pub staleness : D
  pub timeout : D
  pub keep_previous : Option (WireKeepPrevious D)
  pub keys : List Text
  pub builder : Text
  pub data_source : Text
  pub runtime_env : Text

-- Scalar, with its oneof; `unset` is the oneof without a value.
pub data WireScalar (F S : Type 0) : Type 0 where
  string_value : Text → WireScalar F S
  int_value : ℤ → WireScalar F S
  float_value : F → WireScalar F S
  bool_value : Bool → WireScalar F S
  timestamp_value : S → WireScalar F S
  unset : WireScalar F S

-- Value; `none` stands for a nil pointer.
pub data WireValue (F S : Type 0) : Type 0 where
  scalar_value : Option (WireScalar F S) → WireValue F S
  list_value : List (Option (WireScalar F S)) → WireValue F S
  unset_value : WireValue F S

-- int32(n): the number with the same lowest 32 bits.
unfoldable pub to_int32 : ℤ → ℤ
to_int32 (pos n) =
    if ltb (n % 2 ^ 32) (2 ^ 31) then pos (n % 2 ^ 32) else negsuc (2 ^ 32 - n % 2 ^ 32 - 1)
to_int32 (negsuc n) =
    if ltb (n % 2 ^ 32) (2 ^ 31) then negsuc (n % 2 ^ 32) else pos (2 ^ 32 - n % 2 ^ 32 - 1)

abbrev pub IsInt32 : ℤ → Type 0
IsInt32 (pos n) = n < 2 ^ 31
IsInt32 (negsuc n) = n < 2 ^ 31

-- A number of 32 bits is left as it is.
pub to_int32-IsInt32 : (n : ℤ) → IsInt32 n → to_int32 n ≡ n
unfolding to_int32
to_int32-IsInt32 (pos n) h =
    let e : n % 2 ^ 32 ≡ n = mod-eq_of_lt (omega arith) in ground (arith, e)
to_int32-IsInt32 (negsuc n) h =
    let e : n % 2 ^ 32 ≡ n = mod-eq_of_lt (omega arith) in ground (arith, e)
