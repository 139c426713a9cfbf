-- ===== src/Api/ScalarText.antt =====
-- ScalarString and ScalarFromString of api/primitives.go: scalar values as the texts that the state
-- keeps.
use natun.Prelude.{
  ◌+◌, ◌*◌, ◌/◌, ◌≡◌, refl, Bool, true, false, not, List, [], ◌∷◌, Option, none, some, arith,
  if◌then◌else◌,
}
use natun.Prelude.Int.{ℤ, pos, negsuc}
use natun.Prelude.Text.{Text, codes}
use natun.Prelude.Digits.{format_int, parse_int, IsInt64, parse_int-format_int}
use natun.Api.Errors.{Result, ok, err, panicked, ◌>>=◌, not_scalar, bad_number}
use natun.Api.Primitive
use natun.Api.Primitive.{PrimitiveType, one_of, string_to_primitive_type}
use natun.Api.Value.{
  FloatOps, Scalar, AnyValue, str, int, flt, bool, time, scalar, type_detect, type_name, go_type,
}

-- time.Time.UnixMicro and time.UnixMicro; division is rounded down.
unfoldable pub unix_micro : ℤ → ℤ
unix_micro (pos n) = pos (n / 1000)
unix_micro (negsuc n) = negsuc (n / 1000)

unfoldable pub from_micro : ℤ → ℤ
from_micro (pos n) = pos (n * 1000)
from_micro (negsuc n) = negsuc (n * 1000 + 999)

-- strconv.FormatBool and strconv.ParseBool
unfoldable pub format_bool : Bool → Text
format_bool true = codes "true"
format_bool false = codes "false"

abbrev true_names : List Text
true_names = codes "1" ∷ codes "t" ∷ codes "T" ∷ codes "true" ∷ codes "TRUE" ∷ codes "True" ∷ []

abbrev false_names : List Text
false_names = codes "0" ∷ codes "f" ∷ codes "F" ∷ codes "false" ∷ codes "FALSE" ∷ codes "False" ∷ []

unfoldable pub parse_bool : Text → Option Bool
parse_bool s =
    if one_of s true_names then some true else if one_of s false_names then some false else none

-- An error of package strconv.
abbrev pub parsed {ℓ κ} : {A : Type ℓ} {B : Type κ} → (A → B) → Option A → Result B
parsed f none = err bad_number
parsed f (some a) = ok (f a)

bool_text : (b : Bool) → parse_bool (format_bool b) ≡ some b
unfolding parse_bool format_bool
bool_text true = refl
bool_text false = refl

module _ {F : Type 0} ⦃ops : FloatOps F⦄ where
  unfoldable pub scalar_text : Scalar F → Text
  scalar_text (str s) = s
  scalar_text (int n) = format_int 10 n
  scalar_text (flt x) = ops.format_float x
  scalar_text (bool b) = format_bool b
  scalar_text (time t) = format_int 10 (unix_micro t)

  unfoldable pub scalar_string : AnyValue F → Result Text
  scalar_string (scalar v) = ok (scalar_text v)
  scalar_string _ = panicked

  unfoldable pub read_scalar : Text → PrimitiveType → Result (Scalar F)
  read_scalar s Primitive.string = ok (str s)
  read_scalar s Primitive.integer = parsed int (parse_int 10 s)
  read_scalar s Primitive.float = parsed flt (ops.parse_float s)
  read_scalar s Primitive.boolean = parsed bool (parse_bool s)
  read_scalar s Primitive.timestamp = parsed (λ n. time (from_micro n)) (parse_int 10 s)
  read_scalar s _ = panicked

  unfoldable pub scalar_from_string : Text → PrimitiveType → Result (Scalar F)
  unfolding read_scalar
  scalar_from_string s pt = if not (Primitive.scalar pt) then err not_scalar else read_scalar s pt

  -- What is left of a value after a round through its text: times are kept to the microsecond.
  unfoldable pub kept : Scalar F → Scalar F
  kept (time t) = time (from_micro (unix_micro t))
  kept v = v

  abbrev pub IsStorable : Scalar F → Type 0
  IsStorable (int n) = IsInt64 n
  IsStorable (time t) = IsInt64 (unix_micro t)
  IsStorable _ = Unit

  -- A scalar that fits int64 is read back from its text at its own type, up to the microsecond.
  pub scalar_from_string-scalar_string :
      (v : Scalar F)
      → IsStorable v
      → (do s ← scalar_string (scalar v); pt ← type_detect (scalar v); scalar_from_string s pt)
        ≡ ok (kept v)
  unfolding scalar_string scalar_text scalar_from_string kept type_detect go_type type_name
      string_to_primitive_type Primitive.scalar
  scalar_from_string-scalar_string (str s) h = refl
  scalar_from_string-scalar_string (int n) h =
      rw (parse_int-format_int 10 n (omega arith) (omega arith) h)
  scalar_from_string-scalar_string (flt x) h = rw (ops.parse-format x)
  scalar_from_string-scalar_string (bool b) h = rw (bool_text b)
  scalar_from_string-scalar_string (time t) h =
      rw (parse_int-format_int 10 (unix_micro t) (omega arith) (omega arith) h)
