-- ===== src/Prelude/Digits.antt =====
-- Go's strconv: FormatInt, ParseInt, Itoa and Atoi, in the bases 2 to 36.
use Prim.Native.Nat.{ℕ, zero, suc, ◌+◌, ◌-◌, ◌*◌, ◌/◌, ◌%◌, ◌^◌, ◌≤◌, ◌<◌}
use mathlib.Core.Path.{◌≡◌, refl, ap, ◌∙◌}
use mathlib.Core.Logic.{inl, inr}
use mathlib.Core.Bool.{true, false, ◌&&◌}
use mathlib.Core.List.{[], ◌∷◌, ◌++◌}
use mathlib.Core.Option.{Option, none, some}
use native.Mathlib.Omega.{arith}
use native.Mathlib.Nat.{mod-lt, div-add-mod', div-lt_self}
use natun.Prelude.Tests.{ltb, leb, ◌==◌, if◌then◌else◌, Bool-cases, lt→ltb, ◌>>=◌}
use natun.Prelude.Text.{Text}
use natun.Prelude.Int.{ℤ, pos, negsuc}

pub digit_char : ℕ → ℕ
digit_char d = if ltb d 10 then d + 48 else d + 87

pub digit_value : ℕ → Option ℕ
digit_value c =
    if leb b'0' c && leb c b'9'
    then some (c - 48)
    else if leb b'a' c && leb c b'z'
    then some (c - 87)
    else if leb b'A' c && leb c b'Z'
    then some (c - 55)
    else none

digit_value-digit_char : (d : ℕ) → d < 36 → digit_value (digit_char d) ≡ some d
unfolding digit_value digit_char
digit_value-digit_char d h = ground arith

-- The digits of `n`, most significant first; `suc n` rounds are always enough.
pub format_digits : ℕ → ℕ → ℕ → Text
format_digits base zero n = []
format_digits base (suc f) n =
    let rest = format_digits base f (n / base) in
    let last = digit_char (n % base) ∷ [] in if n / base == 0 then last else rest ++ last

unfoldable pub format_nat : ℕ → ℕ → Text
unfolding format_digits digit_char
format_nat base n = format_digits base (suc n) n

-- One digit of a number read from the left.
pub read_digit : ℕ → ℕ → ℕ → Option ℕ
read_digit base acc c = digit_value c >>= λ d. if ltb d base then some (acc * base + d) else none

pub parse_digits : ℕ → ℕ → Text → Option ℕ
parse_digits base acc [] = some acc
parse_digits base acc (c ∷ cs) = read_digit base acc c >>= λ a. parse_digits base a cs

parse_digits-append :
    (base acc : ℕ) (xs ys : Text)
    → parse_digits base acc (xs ++ ys) ≡ (parse_digits base acc xs >>= λ a. parse_digits base a ys)
unfolding parse_digits
parse_digits-append base acc [] ys = refl
parse_digits-append base acc (c ∷ xs) ys =
    elim (read_digit base acc c)
      as (λ r.
        (r >>= λ a. parse_digits base a (xs ++ ys))
        ≡ ((r >>= λ a. parse_digits base a xs) >>= λ a. parse_digits base a ys)) [
          | none ↦ refl
          | some a ↦ parse_digits-append base a xs ys
        ]

read_digit-digit_char :
    (base acc d : ℕ)
    → d < base
    → base ≤ 36
    → read_digit base acc (digit_char d) ≡ some (acc * base + d)
unfolding read_digit
read_digit-digit_char base acc d lo hi =
    rw (digit_value-digit_char d (omega arith)) (rw (lt→ltb d base lo))

parse_digits_one :
    (base acc d : ℕ)
    → d < base
    → base ≤ 36
    → parse_digits base acc (digit_char d ∷ []) ≡ some (acc * base + d)
unfolding parse_digits
parse_digits_one base acc d lo hi = rw (read_digit-digit_char base acc d lo hi)

smaller_quotient : (n base f : ℕ) → 2 ≤ base → n < suc f → (n / base == 0) ≡ false → n / base < f
smaller_quotient zero base f lo h more = ground arith
smaller_quotient (suc n) base f lo h more =
    omega (arith, div-lt_self {n = suc n} {k = base} (omega arith) lo)

zero_quotient : (n base : ℕ) → (n / base == 0) ≡ true → 0 * base + n % base ≡ n
zero_quotient n base done = ground (arith, div-add-mod' n base)

format_digits-parse :
    (base f n : ℕ)
    → 2 ≤ base
    → base ≤ 36
    → n < f
    → parse_digits base 0 (format_digits base f n) ≡ some n
unfolding format_digits
format_digits-parse base zero n lo hi h = absurd (omega arith)
format_digits-parse base (suc f) n lo hi h =
    let below : n % base < base = mod-lt n (omega arith) in
    elim (Bool-cases (n / base == 0)) [
      | inl done ↦
          rw done
            (parse_digits_one base 0 (n % base) below hi ∙ ap some (zero_quotient n base done))
      | inr more ↦
          rw (more, parse_digits-append)
            (rw (format_digits-parse base f (n / base) lo hi (smaller_quotient n base f lo h more))
              (parse_digits_one base (n / base) (n % base) below hi
                ∙ ap some (div-add-mod' n base)))
    ]

-- The number that a formatted number reads as is the number itself.
pub parse-format_nat :
    (base n : ℕ) → 2 ≤ base → base ≤ 36 → parse_digits base 0 (format_nat base n) ≡ some n
unfolding format_nat
parse-format_nat base n lo hi = format_digits-parse base (suc n) n lo hi (omega arith)

digit_char-ge : (d : ℕ) → 48 ≤ digit_char d
unfolding digit_char
digit_char-ge d = ground arith

-- Formatted numbers are not empty, and begin with a digit or a letter.
abbrev Begins : Text → Type 0
Begins s = (c : ℕ) × (cs : Text) × (s ≡ c ∷ cs) × (48 ≤ c)

Begins-append : (s t : Text) → Begins s → Begins (s ++ t)
Begins-append s t (c, cs, e, h) = (c, cs ++ t, rw e, h)

digit-Begins : (d : ℕ) → Begins (digit_char d ∷ [])
digit-Begins d = (digit_char d, [], refl, digit_char-ge d)

format_digits-Begins : (base f n : ℕ) → Begins (format_digits base (suc f) n)
unfolding format_digits
format_digits-Begins base zero n = elim (Bool-cases (n / base == 0)) [
  | inl done ↦ rw done (digit-Begins (n % base))
  | inr more ↦ rw more (digit-Begins (n % base))
]
format_digits-Begins base (suc f) n = elim (Bool-cases (n / base == 0)) [
  | inl done ↦ rw done (digit-Begins (n % base))
  | inr more ↦ rw more (
      Begins-append (format_digits base (suc f) (n / base)) (digit_char (n % base) ∷ [])
        (format_digits-Begins base f (n / base)))
]

format_nat-Begins : (base n : ℕ) → Begins (format_nat base n)
unfolding format_nat
format_nat-Begins base n = format_digits-Begins base n n

-- int64
abbrev pub int64_limit : ℕ
int64_limit = 2 ^ 63

-- strconv.FormatInt(n, base); strconv.Itoa(n) is base 10
unfoldable pub format_int : ℕ → ℤ → Text
unfolding format_nat
format_int base (pos n) = format_nat base n
format_int base (negsuc n) = b'-' ∷ format_nat base (suc n)

-- An unsigned numeral below a limit; the empty text is a syntax error.
unfoldable pub parse_nat_below : ℕ → ℕ → Text → Option ℕ
unfolding parse_digits read_digit digit_value
parse_nat_below base limit [] = none
parse_nat_below base limit (c ∷ cs) =
    parse_digits base 0 (c ∷ cs) >>= λ n. if ltb n limit then some n else none

abbrev negated : ℕ → ℤ
negated zero = pos 0
negated (suc n) = negsuc n

-- strconv.ParseInt(s, base, 64), an error being `none`; strconv.Atoi(s) is base 10.
unfoldable pub parse_int : ℕ → Text → Option ℤ
unfolding parse_nat_below
parse_int base [] = none
parse_int base (c ∷ cs) =
    if c == b'-'
    then (parse_nat_below base (int64_limit + 1) cs >>= λ n. some (negated n))
    else if c == b'+'
    then (parse_nat_below base int64_limit cs >>= λ n. some (pos n))
    else (parse_nat_below base int64_limit (c ∷ cs) >>= λ n. some (pos n))

abbrev pub IsInt64 : ℤ → Type 0
IsInt64 (pos n) = n < int64_limit
IsInt64 (negsuc n) = n < int64_limit

parse_nat_below-digits :
    (base limit : ℕ) (s : Text)
    → Begins s
    → parse_nat_below base limit s
      ≡ (parse_digits base 0 s >>= λ n. if ltb n limit then some n else none)
unfolding parse_nat_below
parse_nat_below-digits base limit [] (c, cs, e, h) = cc e
parse_nat_below-digits base limit (c ∷ s) begins = refl

parse_nat_below-format_nat :
    (base limit n : ℕ)
    → 2 ≤ base
    → base ≤ 36
    → n < limit
    → parse_nat_below base limit (format_nat base n) ≡ some n
parse_nat_below-format_nat base limit n lo hi h =
    parse_nat_below-digits base limit (format_nat base n) (format_nat-Begins base n)
    ∙ rw (parse-format_nat base n lo hi) (rw (lt→ltb n limit h))

parse_int-digits :
    (base : ℕ) (s : Text)
    → Begins s
    → parse_int base s ≡ (parse_nat_below base int64_limit s >>= λ n. some (pos n))
unfolding parse_int
parse_int-digits base s (c, cs, e, h) = rw e (ground arith)

-- Every int64 comes back from its text.
pub parse_int-format_int :
    (base : ℕ) (z : ℤ)
    → 2 ≤ base
    → base ≤ 36
    → IsInt64 z
    → parse_int base (format_int base z) ≡ some z
unfolding format_int
parse_int-format_int base (pos n) lo hi h =
    parse_int-digits base (format_nat base n) (format_nat-Begins base n)
    ∙ rw (parse_nat_below-format_nat base int64_limit n lo hi h)
parse_int-format_int base (negsuc n) lo hi h =
    unfold parse_int in
    rw (parse_nat_below-format_nat base (int64_limit + 1) (suc n) lo hi (omega arith))
