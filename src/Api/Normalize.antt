-- ===== src/Api/Normalize.antt =====
-- What NormalizeAny of api/primitives.go keeps: the detected type of a value.
use natun.Prelude.{◌≡◌, ◌≢◌, ◌++◌, refl, true, List, [], ◌∷◌, Option, none, some, ap}
use natun.Api.Errors.{ok, >>=-eq-ok, ok-injective}
use natun.Prelude.Text.{codes}
use natun.Api.Primitive.{string_to_primitive_type, plural}
use natun.Api.Value.{
  Scalar, AnyValue, Elem, GoType, str, int, flt, bool, time, go_string, go_int, go_float, go_bool,
  go_time, nil, slice, anys, type_detect, normalize_any, element, elements, same_type, all_same,
  go_type, go_type_eq, type_name, detect_element,
}

go_type_eq_refl : (t : GoType) → go_type_eq t t ≡ true
unfolding go_type_eq
go_type_eq_refl go_string = refl
go_type_eq_refl _ = refl

-- The name of a slice type reads as the list type over its element type.
plural_of_name :
    (t : GoType)
    → string_to_primitive_type (codes "[]" ++ type_name t)
      ≡ plural (string_to_primitive_type (type_name t))
unfolding string_to_primitive_type type_name plural
plural_of_name go_string = refl
plural_of_name _ = refl

element-none : (F : Type 0) (t : GoType) (x : Elem F t) → element {F = F} t none ≢ ok x
unfolding element
element-none F go_string x h = cc
element-none F _ x h = cc

module _ {F : Type 0} where
  element-go_type :
      (t : GoType) (v : Scalar F) (x : Elem F t) → element t (some v) ≡ ok x → go_type v ≡ t
  unfolding element go_type
  element-go_type go_string (str s) x h = refl
  element-go_type go_int (int n) x h = refl
  element-go_type go_float (flt y) x h = refl
  element-go_type go_bool (bool b) x h = refl
  element-go_type go_time (time n) x h = refl
  element-go_type _ _ x h = cc

  same_type_of_element :
      (v : Scalar F) (w : Option (Scalar F)) (x : Elem F (go_type v))
      → element (go_type v) w ≡ ok x
      → same_type w (some v) ≡ true
  unfolding same_type
  same_type_of_element v none x h = absurd (element-none F (go_type v) x h)
  same_type_of_element v (some w) x h =
      rw (element-go_type (go_type v) w x h) (go_type_eq_refl (go_type v))

  -- Elements that fit one slice have one type.
  elements-all_same :
      (v : Scalar F) (ws : List (Option (Scalar F))) (xs : List (Elem F (go_type v)))
      → elements (go_type v) ws ≡ ok xs
      → all_same (some v) ws ≡ true
  unfolding elements all_same
  elements-all_same v [] xs h = refl
  elements-all_same v (w ∷ ws) xs h =
      let (x, ex, h') = >>=-eq-ok (element (go_type v) w) _ h in
      let (ys, ey, _) = >>=-eq-ok (elements (go_type v) ws) _ h' in
      rw (same_type_of_element v w x ex) (elements-all_same v ws ys ey)

  -- Normalizing a value that does not become nil leaves the detected type as it was.
  pub type_detect-normalize_any :
      (v w : AnyValue F) → normalize_any v ≡ ok w → w ≢ nil → type_detect w ≡ type_detect v
  unfolding type_detect normalize_any detect_element
  type_detect-normalize_any (anys []) w h ne = absurd (ne (cc h))
  type_detect-normalize_any (anys (none ∷ vs)) w h ne = cc h
  type_detect-normalize_any (anys (some v ∷ vs)) w h ne =
      let (xs, ex, h') = >>=-eq-ok (elements (go_type v) (some v ∷ vs)) _ h in
      let e : slice (go_type v) xs ≡ w = cc h' in
      rw (← e) (rw (elements-all_same v (some v ∷ vs) xs ex) (ap ok (plural_of_name (go_type v))))
  type_detect-normalize_any nil w h ne = absurd (ne (cc h))
  type_detect-normalize_any _ w h ne = rw (← ok-injective h)
