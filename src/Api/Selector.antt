-- ===== src/Api/Selector.antt =====
-- Feature selectors: ParseSelector, NormalizeFQN and NormalizeSelector of api/common.go.
-- The classes of FQNRegExp are disjoint from the separators between its groups, so the matcher is a
-- scan from left to right. Under the flag i the class [a-z] also holds U+017F and U+212A.
pub mod Fqn
use natun.Prelude.{
  ℕ, zero, suc, ◌+◌, ◌≡◌, refl, Bool, true, false, not, ◌&&◌, ◌||◌, List, [], ◌∷◌, ◌++◌, Option,
  none, some, arith, length, leb, ltb, ◌==◌, if◌then◌else◌,
}
use natun.Prelude.Int.{ℤ, pos, negsuc, pos_part, neg_part}
use natun.Prelude.Text.{Text, codes, text_eq}
use natun.Prelude.Digits.{parse_int, format_int}
use natun.Api.Errors.{Result, ok, err, panicked, ◌>>=◌, invalid_fqn, invalid_version}
use natun.Api.Aggr.{AggrFn, unknown_fn, string_to_aggr_fn, aggr_to_text, aggr_eq}
use natun.Api.Descriptor.{is_empty}

-- The classes of the expression.
unfoldable pub is_digit : ℕ → Bool
is_digit c = leb b'0' c && leb c b'9'

unfoldable pub is_letter : ℕ → Bool
is_letter c = (leb b'a' c && leb c b'z') || (leb b'A' c && leb c b'Z') || c == 0x17F || c == 0x212A

unfoldable pub is_underscore : ℕ → Bool
is_underscore c = c == b'_'

unfoldable pub is_word : ℕ → Bool
unfolding is_digit is_letter is_underscore
is_word c = is_letter c || is_digit c || is_underscore c

-- The longest prefix in a class, and what follows it.
unfoldable pub span : (ℕ → Bool) → Text → Text × Text
span p [] = ([], [])
span p (c ∷ s) = let (a, r) = span p s in if p c then (c ∷ a, r) else ([], c ∷ s)

-- [a-z0-9]+(?:_[a-z0-9]+)* over a text of the class: no underscore at an end, nor two together.
unfoldable pub ident_after : Bool → Text → Bool
unfolding is_underscore
ident_after underscore [] = not underscore
ident_after underscore (c ∷ s) =
    let rest = ident_after (is_underscore c) s in
    if underscore && is_underscore c then false else rest

unfoldable pub is_ident : Text → Bool
unfolding ident_after
is_ident s = ident_after true s

-- [a-z]+_*[a-z]+ over the whole text
unfoldable pub is_tag : Text → Bool
unfolding span is_letter is_underscore
is_tag s =
    let (a, r) = span is_letter s in
    let (u, r') = span is_underscore r in
    let (b, rest) = span is_letter r' in
    if is_empty u
    then is_empty r && ltb 1 (length a)
    else not (is_empty a) && not (is_empty b) && is_empty rest

abbrev is_tag_code : ℕ → Bool
is_tag_code c = is_letter c || is_underscore c

-- The groups of a match that the code reads.
pub record Match : Type 0 where
  pub namespace : Text
  pub name : Text
  pub aggr_fn : Text
  pub version : Text
  pub encoding : Text

-- (\[(?P<encoding>([a-z]+_*[a-z]+))])?$
unfoldable pub match_encoding : Text → Option Text
unfolding span is_tag is_letter is_underscore
match_encoding [] = some []
match_encoding (c ∷ s) =
    let (a, r) = span is_tag_code s in
    if c == b'[' && is_tag a && text_eq r (codes "]") then some a else none

-- (@-(?P<version>([0-9]+)))?
unfoldable pub match_version : Text → Option (Text × Text)
unfolding span is_digit
match_version (b ∷ c ∷ s) =
    if b == b'@' && c == b'-'
    then (let (v, r) = span is_digit s in if is_empty v then none else some (v, r))
    else some ([], b ∷ c ∷ s)
match_version s = some ([], s)

-- (\+(?P<aggrFn>([a-z]+_*[a-z]+)))?
unfoldable pub match_aggr : Text → Option (Text × Text)
unfolding span is_tag is_letter is_underscore
match_aggr [] = some ([], [])
match_aggr (c ∷ s) =
    if c == b'+'
    then (let (a, r) = span is_tag_code s in if is_tag a then some (a, r) else none)
    else some ([], c ∷ s)

unfoldable pub match_name : Text → Option (Text × Text)
match_name s = let (a, r) = span is_word s in if is_ident a then some (a, r) else none

-- What follows the first identifier: a dot makes it the namespace.
unfoldable pub after_ident : Text → Text → Option (Text × Text × Text)
after_ident a [] = some ([], a, [])
after_ident a (c ∷ s) =
    if c == b'.'
    then elim (match_name s) [ none ↦ none | some (b, r) ↦ some (a, b, r) ]
    else some ([], a, c ∷ s)

-- ((?P<namespace>…)\.)?(?P<name>…)
unfoldable pub after_first : Option (Text × Text) → Option (Text × Text × Text)
after_first none = none
after_first (some (a, r)) = after_ident a r

unfoldable pub match_fqn : Text → Option (Text × Text × Text)
match_fqn s = after_first (match_name s)

-- The groups behind the name.
unfoldable pub match_rest : Text → Text → Text → Option Match
match_rest ns name s = elim (match_aggr s) [
  | none ↦ none
  | some (aggr, r) ↦ elim (match_version r) [
    | none ↦ none
    | some (ver, r') ↦ elim (match_encoding r') [
      | none ↦ none
      | some enc ↦
          some
            (record { namespace = ns; name = name; aggr_fn = aggr; version = ver; encoding = enc })
    ]
  ]
]

-- FQNRegExp.FindStringSubmatch
unfoldable pub after_fqn : Option (Text × Text × Text) → Option Match
after_fqn none = none
after_fqn (some (ns, name, r)) = match_rest ns name r

unfoldable pub find_submatch : Text → Option Match
unfolding after_fqn
find_submatch s = after_fqn (match_fqn s)

-- The results of ParseSelector.
pub record Selector : Type 0 where
  pub namespace : Text
  pub name : Text
  pub aggr_fn : AggrFn
  pub version : ℕ
  pub encoding : Text

abbrev abs : ℤ → ℕ
abs n = pos_part n + neg_part n

-- The number in the version group; an empty group is version 0.
unfoldable pub parse_version : Text → Result ℕ
parse_version v =
    if is_empty v
    then ok 0
    else elim (parse_int 10 v) [ none ↦ err invalid_version | some n ↦ ok (abs n) ]

unfoldable pub of_match : Match → Result Selector
of_match m = parse_version m.version >>= λ ver. ok (record {
  namespace = m.namespace;
  name = m.name;
  aggr_fn = string_to_aggr_fn m.aggr_fn;
  version = ver;
  encoding = m.encoding;
})

unfoldable pub of_submatch : Option Match → Result Selector
of_submatch none = err invalid_fqn
of_submatch (some m) = of_match m

unfoldable pub parse_selector : Text → Result Selector
parse_selector s = of_submatch (find_submatch s)

-- s, or the default if s is empty
abbrev pub or_default : Text → Text → Text
or_default s d = if is_empty s then d else s

unfoldable pub normalize_fqn : Text → Text → Result Text
normalize_fqn fqn default =
    parse_selector fqn >>= λ s. ok (or_default s.namespace default ++ (b'.' ∷ s.name))

-- The suffix that NormalizeSelector writes.
unfoldable pub selector_suffix : Selector → Text
selector_suffix s =
    (if aggr_eq s.aggr_fn unknown_fn then [] else b'+' ∷ aggr_to_text s.aggr_fn)
    ++ ((if s.version == 0 then [] else b'@' ∷ b'-' ∷ format_int 10 (pos s.version))
        ++ (if is_empty s.encoding then [] else b'[' ∷ (s.encoding ++ codes "]")))

unfoldable pub normalize_selector : Text → Text → Result Text
normalize_selector selector default = parse_selector selector >>= λ s.
    ok (or_default s.namespace default ++ (b'.' ∷ (s.name ++ selector_suffix s)))
