-- ===== src/History/Snowflake/Statements.antt =====
-- The statements that insert historical data: Commit of
-- internal/plugins/providers/historical/snowflake/snowflake.go.
use natun.Prelude.{
  ℕ, suc, ◌+◌, ◌==◌, ◌≡◌, refl, subst, Bool, true, List, [], ◌∷◌, Option, none, some, arith,
  if◌then◌else◌, Bool-cases, inl, inr,
}
use natun.Prelude.Text.{Text, codes, has_prefix}
use natun.Api.Errors.{Result, ok, ◌>>=◌, >>=-eq-ok, ok-injective}
use natun.Api.Primitive.{scalar}
use natun.Api.Value.{Value, type_detect}
use natun.Api.Descriptor.{is_empty}
use natun.Engine.World.{WriteNotification}
use natun.History.Snowflake.{
  SqlArg, text_arg, value_arg, typed, time_arg, nullable_text, nullable_bool, Json, result_map,
  named_results, sprintf, insert_format, json_format, bound_value, insertion, all_fns,
}

-- The places for arguments in a statement.
abbrev pub placeholders : Text → ℕ
placeholders [] = 0
placeholders (c ∷ s) = if c == b'?' then suc (placeholders s) else placeholders s

-- The arguments that take a place: a marker types the next one.
abbrev pub taken : {F : Type 0} → List (SqlArg F) → ℕ
taken [] = 0
taken (typed t ∷ args) = taken args
taken (_ ∷ args) = suc (taken args)

-- Both statements have a place for each of six arguments, and write to `historical`.
IsInsert : Text → Type 0
unfolding sprintf
IsInsert format =
    (placeholders (sprintf format (codes "?")) ≡ 6)
    × (has_prefix (sprintf format (codes "?")) (codes "INSERT INTO historical (") ≡ true)

insert_format-IsInsert : IsInsert insert_format
unfolding IsInsert sprintf
insert_format-IsInsert = (refl, refl)

json_format-IsInsert : IsInsert json_format
unfolding IsInsert sprintf
json_format-IsInsert = (refl, refl)

-- A value is bound as one argument.
abbrev IsBound : {F : Type 0} → Text × SqlArg F → Type 0
IsBound p = IsInsert p.0 × (taken (p.1 ∷ []) ≡ 1)

json-IsBound :
    {F : Type 0} (r : Result Text) {p : Text × SqlArg F}
    → (r >>= λ raw. ok (json_format, text_arg raw)) ≡ ok p
    → IsBound p
json-IsBound r eq =
    let (raw, found, made) = >>=-eq-ok r _ eq in
    subst IsBound (ok-injective made) (json_format-IsInsert, refl)

bound_value-IsBound :
    {F : Type 0} (json : Json F) (wn : WriteNotification F) (v : Value F) {p : Text × SqlArg F}
    → bound_value json wn v ≡ ok p
    → IsBound p
unfolding bound_value
bound_value-IsBound json wn v eq = elim (Bool-cases (is_empty wn.bucket)) [
  | inl plain ↦
      let (t, detected, bound) = >>=-eq-ok (type_detect v.value) _ (rw plain at eq) in
      elim (Bool-cases (scalar t)) [
        | inl one ↦ subst IsBound (ok-injective (rw one at bound)) (insert_format-IsInsert, refl)
        | inr several ↦ json-IsBound (json.marshal v.value) (rw several at bound)
      ]
  | inr bucket ↦
      let (m, found, bound) = >>=-eq-ok (result_map v.value) _ (rw bucket at eq) in
      json-IsBound (json.marshal_map (named_results m all_fns)) bound
]

taken-cons :
    {F : Type 0} (arg : SqlArg F) (args : List (SqlArg F))
    → taken (arg ∷ args) ≡ taken (arg ∷ []) + taken args
taken-cons (text_arg s) args = omega arith
taken-cons (value_arg v) args = omega arith
taken-cons (typed t) args = omega arith
taken-cons (time_arg t) args = omega arith
taken-cons (nullable_text s) args = omega arith
taken-cons (nullable_bool b) args = omega arith

-- As many places as arguments that take one, in a table named historical.
abbrev pub IsFilled : {F : Type 0} → Text × List (SqlArg F) → Type 0
IsFilled p =
    (placeholders p.0 ≡ taken p.1) × (has_prefix p.0 (codes "INSERT INTO historical (") ≡ true)

IsBound-IsFilled :
    {F : Type 0} (b : Text × SqlArg F) (fqn keys t : Text) (n : ℕ) (bucket : Option Text)
    (alive : Option Bool)
    → IsBound b
    → IsFilled (
      sprintf b.0 (codes "?"),
      text_arg fqn
          ∷ text_arg keys
          ∷ b.1
          ∷ typed t
          ∷ time_arg n
          ∷ nullable_text bucket
          ∷ nullable_bool alive
          ∷ [],
    )
unfolding IsInsert
IsBound-IsFilled b fqn keys t n bucket alive h = (
  omega (
    arith,
    taken-cons b.1 (typed t ∷ time_arg n ∷ nullable_text bucket ∷ nullable_bool alive ∷ []),
  ),
  h.0.1,
)

insertion_value :
    {F : Type 0} (json : Json F) (wn : WriteNotification F) (value : Option (Value F))
    {p : Text × List (SqlArg F)}
    → insertion json (record wn { value = value }) ≡ ok p
    → IsFilled p
unfolding insertion IsInsert
insertion_value json wn none eq = cc eq
insertion_value json wn (some v) eq =
    let (b, bound, made) = >>=-eq-ok (bound_value json (record wn { value = some v }) v) _ eq in
    subst IsFilled (ok-injective made) (
      IsBound-IsFilled b wn.fqn wn.encoded_keys (codes "TimestampLtz") v.timestamp
        (if is_empty wn.bucket then none else some wn.bucket)
        (if is_empty wn.bucket then none else some wn.active_bucket)
        (bound_value-IsBound json (record wn { value = some v }) v bound))

-- Where a notification gives a statement at all, the statement has as many placeholders as there are
-- arguments that take one, whether the value is a bucket, a scalar or a list, and it inserts into a
-- table whose name is `historical`.
pub insertion-IsFilled :
    {F : Type 0} (json : Json F) (wn : WriteNotification F) {p : Text × List (SqlArg F)}
    → insertion json wn ≡ ok p
    → IsFilled p
insertion-IsFilled json wn eq = insertion_value json wn wn.value eq
