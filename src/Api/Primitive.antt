-- ===== src/Api/Primitive.antt =====
-- api/primitives.go: the primitive types, their names and the list types over the scalar ones.
use natun.Prelude.{Bool, true, false, ◌||◌, List, [], ◌∷◌, ◌≡◌, refl, if◌then◌else◌}
use natun.Prelude.Text.{Text, codes, text_eq, to_lower}

pub data PrimitiveType : Type 0 where
  unknown string integer float boolean timestamp : PrimitiveType
  string_list integer_list float_list boolean_list timestamp_list : PrimitiveType

pub PrimitiveType-discrete : Discrete PrimitiveType
PrimitiveType-discrete = hlevel

-- pt == qt
unfoldable pub primitive_eq : PrimitiveType → PrimitiveType → Bool
primitive_eq unknown unknown = true
primitive_eq string string = true
primitive_eq integer integer = true
primitive_eq float float = true
primitive_eq boolean boolean = true
primitive_eq timestamp timestamp = true
primitive_eq string_list string_list = true
primitive_eq integer_list integer_list = true
primitive_eq float_list float_list = true
primitive_eq boolean_list boolean_list = true
primitive_eq timestamp_list timestamp_list = true
primitive_eq _ _ = false

-- One `case` of a switch over texts.
abbrev pub one_of : Text → List Text → Bool
one_of s [] = false
one_of s (t ∷ ts) = text_eq s t || one_of s ts

-- A switch over a text: the first case that lists it, or else the default.
abbrev pub switch {ℓ} : {A : Type ℓ} → Text → List (List Text × A) → A → A
switch s [] d = d
switch s ((names, a) ∷ cases) d = if one_of s names then a else switch s cases d

abbrev primitive_cases : List (List Text × PrimitiveType)
primitive_cases =
    (codes "string" ∷ codes "text" ∷ [], string)
    ∷ (codes "integer" ∷ codes "int" ∷ codes "int32" ∷ [], integer)
    ∷ (codes "float" ∷ codes "double" ∷ codes "float32" ∷ codes "float64" ∷ [], float)
    ∷ (
      codes "time"
          ∷ codes "datetime"
          ∷ codes "timestamp"
          ∷ codes "time.time"
          ∷ codes "datetime.datetime"
          ∷ [],
      timestamp,
    )
    ∷ (codes "bool" ∷ codes "boolean" ∷ [], boolean)
    ∷ (codes "[]string" ∷ codes "[]text" ∷ [], string_list)
    ∷ (codes "[]integer" ∷ codes "[]int" ∷ codes "[]int64" ∷ codes "[]int32" ∷ [], integer_list)
    ∷ (codes "[]float" ∷ codes "[]double" ∷ codes "[]float32" ∷ codes "[]float64" ∷ [], float_list)
    ∷ (codes "[]bool" ∷ codes "[]boolean" ∷ [], boolean_list)
    ∷ (
      codes "[]time" ∷ codes "[]datetime" ∷ codes "[]timestamp" ∷ codes "[]time.time" ∷ [],
      timestamp_list,
    )
    ∷ []

unfoldable pub string_to_primitive_type : Text → PrimitiveType
string_to_primitive_type s = switch (to_lower s) primitive_cases unknown

unfoldable pub scalar : PrimitiveType → Bool
scalar string_list = false
scalar integer_list = false
scalar float_list = false
scalar boolean_list = false
scalar timestamp_list = false
scalar _ = true

unfoldable pub singular : PrimitiveType → PrimitiveType
singular string_list = string
singular integer_list = integer
singular float_list = float
singular boolean_list = boolean
singular timestamp_list = timestamp
singular pt = pt

unfoldable pub plural : PrimitiveType → PrimitiveType
plural string = string_list
plural integer = integer_list
plural float = float_list
plural boolean = boolean_list
plural timestamp = timestamp_list
plural pt = pt

-- PrimitiveType.String
unfoldable pub to_text : PrimitiveType → Text
to_text string = codes "string"
to_text integer = codes "int"
to_text float = codes "float"
to_text boolean = codes "bool"
to_text timestamp = codes "timestamp"
to_text string_list = codes "[]string"
to_text integer_list = codes "[]int"
to_text float_list = codes "[]]float"
to_text boolean_list = codes "[]bool"
to_text timestamp_list = codes "[]timestamp"
to_text unknown = codes "(unknown)"

-- Every type but the list of floats is read back from its own name, and the name of the list of
-- floats reads as no type at all.
pub string_to_primitive_type-to_text :
    (pt : PrimitiveType)
    → string_to_primitive_type (to_text pt) ≡ (if primitive_eq pt float_list then unknown else pt)
unfolding string_to_primitive_type to_text primitive_eq
string_to_primitive_type-to_text unknown = refl
string_to_primitive_type-to_text _ = refl

-- The list type over a scalar type has that type as its element type.
singular-plural : (pt : PrimitiveType) → singular (plural pt) ≡ singular pt
unfolding singular plural
singular-plural unknown = refl
singular-plural _ = refl

-- Element types are scalar, list types are not, and the two maps undo each other there.
scalar-singular : (pt : PrimitiveType) → scalar (singular pt) ≡ true
unfolding scalar singular
scalar-singular unknown = refl
scalar-singular _ = refl

pub primitive_eq_refl : (pt : PrimitiveType) → primitive_eq pt pt ≡ true
unfolding primitive_eq
primitive_eq_refl unknown = refl
primitive_eq_refl _ = refl
