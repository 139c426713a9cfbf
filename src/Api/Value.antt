-- ===== src/Api/Value.antt =====
-- Feature values: Go's `any` as far as the core puts values into it, api/state.go and the
-- conversions of api/primitives.go. Floats are a parameter, with strconv's two conversions.
use natun.Prelude.{
  ℕ, ◌≡◌, Bool, true, false, ◌&&◌, List, [], ◌∷◌, ◌++◌, Option, none, some, if◌then◌else◌,
}
use natun.Prelude.Int.{ℤ}
use natun.Prelude.Text.{Text, codes}
use natun.Api.Errors.{Result, ok, panicked, ◌>>=◌}
use natun.Api.Primitive
use natun.Api.Primitive.{PrimitiveType, one_of, string_to_primitive_type, plural}
use natun.Api.Aggr.{AggrFn}

-- float64 with the operations of Go and strconv that the core applies to it.
pub record FloatOps (F : Type 0) : Type 0 where
  pub zero_float : F
  pub one_float : F
  pub add : F → F → F
  pub divide : F → F → F
  pub min_float : F → F → F
  pub max_float : F → F → F
  pub less : F → F → Bool
  pub of_int : ℤ → F
  -- strconv.FormatFloat(x, 'f', -1, 64) and strconv.ParseFloat(s, 64)
  pub format_float : F → Text
  pub parse_float : Text → Option F
  -- "-1 uses the smallest number of digits necessary such that ParseFloat will return f exactly"
  pub parse-format : (x : F) → parse_float (format_float x) ≡ some x

-- The dynamic types of scalar values.
pub data GoType : Type 0 where
  go_string go_int go_float go_bool go_time : GoType

-- A value of one of these types. A time is its distance from the Unix epoch in nanoseconds.
pub data Scalar (F : Type 0) : Type 0 where
  str : Text → Scalar F
  int : ℤ → Scalar F
  flt : F → Scalar F
  bool : Bool → Scalar F
  time : ℤ → Scalar F

abbrev pub Elem : Type 0 → GoType → Type 0
Elem F go_string = Text
Elem F go_int = ℤ
Elem F go_float = F
Elem F go_bool = Bool
Elem F go_time = ℤ

-- What the core stores in an `any`: nil, a scalar, a slice with a scalar element type, a []any of
-- scalars and nils, or the result map of a window.
pub data AnyValue (F : Type 0) : Type 0 where
  nil : AnyValue F
  scalar : Scalar F → AnyValue F
  slice : (t : GoType) → List (Elem F t) → AnyValue F
  anys : List (Option (Scalar F)) → AnyValue F
  window : (AggrFn → Option F) → AnyValue F

-- api.Value
pub record Value (F : Type 0) : Type 0 where
  pub value : AnyValue F
  pub timestamp : ℕ
  pub fresh : Bool

-- reflect.TypeOf(v).String()
unfoldable pub type_name : GoType → Text
type_name go_string = codes "string"
type_name go_int = codes "int"
type_name go_float = codes "float64"
type_name go_bool = codes "bool"
type_name go_time = codes "time.Time"

unfoldable pub go_type : {F : Type 0} → Scalar F → GoType
go_type (str s) = go_string
go_type (int n) = go_int
go_type (flt x) = go_float
go_type (bool b) = go_bool
go_type (time t) = go_time

unfoldable pub go_type_eq : GoType → GoType → Bool
go_type_eq go_string go_string = true
go_type_eq go_int go_int = true
go_type_eq go_float go_float = true
go_type_eq go_bool go_bool = true
go_type_eq go_time go_time = true
go_type_eq _ _ = false

-- The types of two elements of a []any agree; nil has no type.
unfoldable pub same_type : {F : Type 0} → Option (Scalar F) → Option (Scalar F) → Bool
same_type none none = true
same_type (some v) (some w) = go_type_eq (go_type v) (go_type w)
same_type _ _ = false

unfoldable pub all_same : {F : Type 0} → Option (Scalar F) → List (Option (Scalar F)) → Bool
all_same v [] = true
all_same v (w ∷ ws) = same_type w v && all_same v ws

-- TypeDetect of one element; reflect.TypeOf(nil).String() is a nil dereference.
unfoldable pub detect_element : {F : Type 0} → Option (Scalar F) → Result PrimitiveType
detect_element none = panicked
detect_element (some v) = ok (string_to_primitive_type (type_name (go_type v)))

-- TypeDetect. `t.([]any)[0]` is out of range on an empty slice.
unfoldable pub type_detect : {F : Type 0} → AnyValue F → Result PrimitiveType
type_detect nil = panicked
type_detect (scalar v) = ok (string_to_primitive_type (type_name (go_type v)))
type_detect (slice t xs) = ok (string_to_primitive_type (codes "[]" ++ type_name t))
type_detect (anys []) = panicked
type_detect (anys (v ∷ vs)) =
    if all_same v (v ∷ vs) then (detect_element v >>= λ p. ok (plural p)) else ok Primitive.unknown
type_detect (window w) = ok (string_to_primitive_type (codes "api.WindowResultMap"))

-- reflect.Value.Set into an element of type `t`: a value of another type panics, and so does the
-- zero reflect.Value that nil gives.
unfoldable pub element : {F : Type 0} (t : GoType) → Option (Scalar F) → Result (Elem F t)
element go_string (some (str s)) = ok s
element go_int (some (int n)) = ok n
element go_float (some (flt x)) = ok x
element go_bool (some (bool b)) = ok b
element go_time (some (time n)) = ok n
element _ _ = panicked

unfoldable pub elements :
    {F : Type 0} (t : GoType) → List (Option (Scalar F)) → Result (List (Elem F t))
elements t [] = ok []
elements t (v ∷ vs) = element t v >>= λ x. elements t vs >>= λ xs. ok (x ∷ xs)

-- NormalizeAny; reflect.SliceOf of the type of nil panics.
unfoldable pub normalize_any : {F : Type 0} → AnyValue F → Result (AnyValue F)
normalize_any (anys []) = ok nil
normalize_any (anys (none ∷ vs)) = panicked
normalize_any (anys (some v ∷ vs)) =
    elements (go_type v) (some v ∷ vs) >>= λ xs. ok (slice (go_type v) xs)
normalize_any v = ok v
