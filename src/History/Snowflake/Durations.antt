-- ===== src/History/Snowflake/Durations.antt =====
-- The durations of the queries over Snowflake: subtractDuration of
-- internal/plugins/providers/historical/snowflake/views.go.
use natun.Prelude.{
  ℕ, zero, suc, ◌*◌, ◌/◌, ◌%◌, ◌≤◌, ◌≡◌, ◌∙◌, ap, refl, arith, List, [], ◌∷◌, ◌++◌, All, ◌⊎◌, inl,
  inr,
}
use natun.Prelude.Digits.{format_int}
use natun.Prelude.Int.{ℤ, pos_part, neg_part}
use natun.Prelude.Text.{Text, codes}
use natun.History.Snowflake.{
  SqlUnit, hour, minute, second, millisecond, microsecond, nanosecond, unit_name, unit_size,
  chosen_unit, negate_positive, date_add, subtract_duration,
}

-- A unit that divides a duration is no coarser than the one that is chosen.
IsCoarsest : (d : ℕ) (u : SqlUnit) → d % unit_size u ≡ 0 → unit_size u ≤ unit_size (chosen_unit d)
unfolding chosen_unit
IsCoarsest d hour e = ground arith
IsCoarsest d minute e = ground arith
IsCoarsest d second e = ground arith
IsCoarsest d millisecond e = ground arith
IsCoarsest d microsecond e = ground arith
IsCoarsest d nanosecond e = ground arith

chosen_unit-divides : (d : ℕ) → d / unit_size (chosen_unit d) * unit_size (chosen_unit d) ≡ d
unfolding chosen_unit
chosen_unit-divides d = ground arith

negate_positive-parts :
    (n : ℕ) → (pos_part (negate_positive n) ≡ 0) × (neg_part (negate_positive n) ≡ n)
negate_positive-parts zero = (refl, refl)
negate_positive-parts (suc n) = (refl, refl)

-- The units of DATEADD, with their nanoseconds.
abbrev pub sql_units : List (Text × ℕ)
sql_units =
    (codes "hour", 3_600_000_000_000)
    ∷ (codes "minute", 60_000_000_000)
    ∷ (codes "second", 1_000_000_000)
    ∷ (codes "millisecond", 1_000_000)
    ∷ (codes "microsecond", 1_000)
    ∷ (codes "nanosecond", 1)
    ∷ []

-- A name and a size of the table.
abbrev pub IsUnit : Text → ℕ → List (Text × ℕ) → Type 0
IsUnit name size [] = ⊥
IsUnit name size ((n, m) ∷ units) = ((name ≡ n) × (size ≡ m)) ⊎ IsUnit name size units

unit_name-IsUnit : (u : SqlUnit) → IsUnit (unit_name u) (unit_size u) sql_units
unit_name-IsUnit hour = inl (refl, refl)
unit_name-IsUnit minute = inr (inl (refl, refl))
unit_name-IsUnit second = inr (inr (inl (refl, refl)))
unit_name-IsUnit millisecond = inr (inr (inr (inl (refl, refl))))
unit_name-IsUnit microsecond = inr (inr (inr (inr (inl (refl, refl)))))
unit_name-IsUnit nanosecond = inr (inr (inr (inr (inr (inl (refl, refl))))))

-- No unit of the table is coarser than `size` and divides `d`.
abbrev pub AllFiner : ℕ → ℕ → List (Text × ℕ) → Type 0
AllFiner d size units = All (λ u. d % u.1 ≡ 0 → u.1 ≤ size) units

chosen_unit-AllFiner : (d : ℕ) → AllFiner d (unit_size (chosen_unit d)) sql_units
chosen_unit-AllFiner d = (
  IsCoarsest d hour,
  (
    IsCoarsest d minute,
    (
      IsCoarsest d second,
      (IsCoarsest d millisecond, (IsCoarsest d microsecond, (IsCoarsest d nanosecond, tt))),
    ),
  ),
)

-- For every duration the text is DATEADD('unit', number, field), for a unit of SQL and a number that is not
-- positive: together they are the duration below zero, with no remainder. No coarser one of the units
-- from the hour to the nanosecond divides the duration.
pub subtract_duration-IsUnit :
    (d : ℕ) (field : Text)
    → (unit : Text) × (size : ℕ) × (v : ℤ) × IsUnit unit size sql_units
      × (subtract_duration d field
          ≡ codes "DATEADD('"
            ++ unit
            ++ codes "', "
            ++ format_int 10 v
            ++ codes ", "
            ++ field
            ++ codes ")")
      × (pos_part v ≡ 0)
      × (neg_part v * size ≡ d)
      × AllFiner d size sql_units
unfolding subtract_duration date_add
subtract_duration-IsUnit d field =
    let (zero_pos, amount) = negate_positive-parts (d / unit_size (chosen_unit d)) in
    (
      unit_name (chosen_unit d),
      unit_size (chosen_unit d),
      negate_positive (d / unit_size (chosen_unit d)),
      unit_name-IsUnit (chosen_unit d),
      refl,
      zero_pos,
      ap (λ (n : ℕ). n * unit_size (chosen_unit d)) amount ∙ chosen_unit-divides d,
      chosen_unit-AllFiner d,
    )
