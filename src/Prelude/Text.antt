-- ===== src/Prelude/Text.antt =====
-- Text as the list of its code points, and what the program uses of Go's package strings.
use Prim.Native.Char.{code}
use Prim.Native.String.{String}
use Prim.Native.Nat.{ℕ, ◌+◌}
use mathlib.Core.Path.{◌≡◌, refl}
use mathlib.Core.Logic.{◌≢◌, ◌↔◌}
use mathlib.Core.Bool.{Bool, true, false, ◌&&◌}
use mathlib.Core.List.{List, [], ◌∷◌, ◌++◌, map}
use native.Mathlib.Omega.{arith}
use natun.Prelude.Tests.{◌==◌, leb, if◌then◌else◌}

abbrev pub Text : Type 0
Text = List ℕ

-- The code points of a literal.
abbrev pub codes : String → Text
codes String.[] = []
codes (String.◌∷◌ c s) = code c ∷ codes s

-- a == b on Go strings.
abbrev pub text_eq : Text → Text → Bool
text_eq [] [] = true
text_eq [] (d ∷ t) = false
text_eq (c ∷ s) [] = false
text_eq (c ∷ s) (d ∷ t) = c == d && text_eq s t

pub text_eq-eq : (s t : Text) → text_eq s t ≡ true → s ≡ t
text_eq-eq [] [] h = refl
text_eq-eq [] (d ∷ t) h = cc
text_eq-eq (c ∷ s) [] h = cc
text_eq-eq (c ∷ s) (d ∷ t) h = ground (arith, text_eq-eq s t)

pub text_eq_refl : (s : Text) → text_eq s s ≡ true
text_eq_refl [] = refl
text_eq_refl (c ∷ s) = ground (arith, text_eq_refl s)

pub text_eq-ne : (s t : Text) → s ≢ t → text_eq s t ≡ false
text_eq-ne s t h = ground (arith, text_eq-eq s t)

pub text_eq_iff : (s t : Text) → (text_eq s t ≡ true) ↔ (s ≡ t)
text_eq_iff s t = (text_eq-eq s t, λ e. ground (arith, e, text_eq_refl s))

-- unicode.ToLower, exact wherever the result is ASCII: besides A to Z only two code points have
-- an ASCII letter as their lower case, U+0130 and U+212A.
abbrev pub to_lower_code : ℕ → ℕ
to_lower_code c =
    if leb b'A' c && leb c b'Z'
    then c + 32
    else if c == 0x130
    then b'i'
    else if c == 0x212A
    then b'k'
    else c

-- strings.ToLower
abbrev pub to_lower : Text → Text
to_lower = map to_lower_code

-- strings.IndexByte(s, c) != -1
abbrev pub contains_code : ℕ → Text → Bool
contains_code c [] = false
contains_code c (d ∷ s) = if d == c then true else contains_code c s

-- strings.HasPrefix(s, p)
abbrev pub has_prefix : Text → Text → Bool
has_prefix s [] = true
has_prefix [] (c ∷ p) = false
has_prefix (d ∷ s) (c ∷ p) = d == c && has_prefix s p

pub has_prefix-append : (p s : Text) → has_prefix (p ++ s) p ≡ true
has_prefix-append [] s = refl
has_prefix-append (c ∷ p) s = ground (arith, has_prefix-append p s)

-- strings.Join(xs, sep) for a separator of one code point.
unfoldable pub join : ℕ → List Text → Text
join sep [] = []
join sep (x ∷ []) = x
join sep (x ∷ y ∷ ys) = x ++ (sep ∷ join sep (y ∷ ys))

-- What strings.Split(s, sep) does at one more code point in front.
abbrev pub split_step : ℕ → ℕ → List Text → List Text
split_step sep c [] = []
split_step sep c (x ∷ xs) = if c == sep then [] ∷ x ∷ xs else (c ∷ x) ∷ xs

-- strings.Split(s, sep): there is always at least one part.
unfoldable pub split : ℕ → Text → List Text
split sep [] = [] ∷ []
split sep (c ∷ s) = split_step sep c (split sep s)

-- A text without the separator in front of a text that begins with one is split off whole.
split-append :
    (sep : ℕ) (x s : Text) (y : Text) (ys : List Text)
    → contains_code sep x ≡ false
    → split sep s ≡ y ∷ ys
    → split sep (x ++ (sep ∷ s)) ≡ x ∷ y ∷ ys
unfolding split
split-append sep [] s y ys h e = rw e (ground arith)
split-append sep (c ∷ x) s y ys h e = rw (split-append sep x s y ys (ground arith) e) (ground arith)

split_one : (sep : ℕ) (x : Text) → contains_code sep x ≡ false → split sep x ≡ x ∷ []
unfolding split
split_one sep [] h = refl
split_one sep (c ∷ x) h = rw (split_one sep x (ground arith)) (ground arith)

abbrev pub NoneContains : ℕ → List Text → Type 0
NoneContains sep [] = Unit
NoneContains sep (x ∷ xs) = (contains_code sep x ≡ false) × NoneContains sep xs

-- Parts without the separator come back from their join, if there is at least one.
pub split-join :
    (sep : ℕ) (x : Text) (xs : List Text)
    → NoneContains sep (x ∷ xs)
    → split sep (join sep (x ∷ xs)) ≡ x ∷ xs
unfolding join
split-join sep x [] h = split_one sep x h.0
split-join sep x (y ∷ ys) h =
    split-append sep x (join sep (y ∷ ys)) y ys h.0 (split-join sep y ys h.1)
