-- ===== src/Api/Aggr.antt =====
-- api/windows.go: the aggregation functions and their names.
use natun.Prelude.{Bool, true, false, List, [], ◌∷◌, ◌≡◌, refl, if◌then◌else◌}
use natun.Prelude.Text.{Text, codes, to_lower}
use natun.Api.Errors.{Result, ok, err, unsupported_aggr}
use natun.Api.Primitive.{switch}

pub data AggrFn : Type 0 where
  unknown_fn sum avg max min count : AggrFn

unfoldable pub aggr_eq : AggrFn → AggrFn → Bool
aggr_eq unknown_fn unknown_fn = true
aggr_eq sum sum = true
aggr_eq avg avg = true
aggr_eq max max = true
aggr_eq min min = true
aggr_eq count count = true
aggr_eq _ _ = false

-- AggrFn.String
unfoldable pub aggr_to_text : AggrFn → Text
aggr_to_text sum = codes "sum"
aggr_to_text avg = codes "avg"
aggr_to_text max = codes "max"
aggr_to_text min = codes "min"
aggr_to_text count = codes "count"
aggr_to_text unknown_fn = codes "unknown"

abbrev aggr_cases : List (List Text × AggrFn)
aggr_cases =
    (codes "sum" ∷ [], sum)
    ∷ (codes "avg" ∷ codes "mean" ∷ [], avg)
    ∷ (codes "min" ∷ [], min)
    ∷ (codes "max" ∷ [], max)
    ∷ (codes "count" ∷ [], count)
    ∷ []

unfoldable pub string_to_aggr_fn : Text → AggrFn
string_to_aggr_fn s = switch (to_lower s) aggr_cases unknown_fn

-- Every function is read back from its own name.
pub string_to_aggr_fn-aggr_to_text : (f : AggrFn) → string_to_aggr_fn (aggr_to_text f) ≡ f
unfolding string_to_aggr_fn aggr_to_text
string_to_aggr_fn-aggr_to_text unknown_fn = refl
string_to_aggr_fn-aggr_to_text _ = refl

-- A set of functions, the keys of the map that removes the duplicates.
unfoldable pub has_aggr : AggrFn → List AggrFn → Bool
has_aggr f [] = false
has_aggr f (g ∷ gs) = if aggr_eq g f then true else has_aggr f gs

-- aggrFnsMap[f] = true. New keys stand behind the old ones: the order in which Go ranges over the
-- map is not specified, and this is one of the orders.
unfoldable pub add_aggr : AggrFn → List AggrFn → List AggrFn
add_aggr f [] = f ∷ []
add_aggr f (g ∷ gs) = if aggr_eq g f then g ∷ gs else g ∷ add_aggr f gs

-- The loop of StringsToAggrFns over the texts, with the map so far.
unfoldable pub collect_aggr_fns : List Text → List AggrFn → Result (List AggrFn)
collect_aggr_fns [] fns = ok fns
collect_aggr_fns (t ∷ ts) fns =
    let rest = collect_aggr_fns ts (add_aggr (string_to_aggr_fn t) fns) in
    if aggr_eq (string_to_aggr_fn t) unknown_fn then err unsupported_aggr else rest

unfoldable pub strings_to_aggr_fns : List Text → Result (List AggrFn)
unfolding collect_aggr_fns
strings_to_aggr_fns ts = collect_aggr_fns ts []
