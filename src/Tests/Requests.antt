-- ===== src/Tests/Requests.antt =====
-- The theorems about the requests to the engine (internal/engine/engine.go) at concrete inputs.
use natun.Prelude.{
  ℕ, ◌≡◌, refl, Bool, true, false, List, [], ◌∷◌, ◌++◌, Option, none, some, arith, inl, inr,
  if◌then◌else◌,
}
use natun.Prelude.Text.{Text, codes}
use natun.Api.Errors.{ok}
use natun.Api.Aggr.{unknown_fn}
use natun.Api.Value.{Value, type_detect}
use natun.Api.Descriptor.{valid_window}
use natun.Api.Selector.{Selector, parse_selector}
use natun.Engine.Pipeline.{closed}
use natun.Engine.Priority.{FeaturePipeliner}
use natun.Engine.Read.{version_error}
use natun.Engine.Request.{request_fqn, feature_for_request, got, get}
use natun.Engine.Request.Reads.{IsHookless, Serves, get-Serves}
use natun.Tests.Data.{
  bits, price, two_keys, cell_state, Cell, a_value, full_world, background, Wares, price_feature,
}

abbrev previous : Selector
previous = record {
  namespace = codes "shop";
  name = codes "price";
  aggr_fn = unknown_fn;
  version = 1;
  encoding = [];
}

previous_parsed : parse_selector (codes "shop.price@-1") ≡ ok previous
unfolding parse_selector natun.Api.Selector.of_submatch natun.Api.Selector.find_submatch
    natun.Api.Selector.match_fqn natun.Api.Selector.after_first natun.Api.Selector.match_name
    natun.Api.Selector.is_ident natun.Api.Selector.span natun.Api.Selector.is_word
    natun.Api.Selector.after_ident natun.Api.Selector.match_rest natun.Api.Selector.match_aggr
    natun.Api.Selector.match_version natun.Api.Selector.match_encoding natun.Api.Selector.of_match
    natun.Api.Selector.parse_version natun.Prelude.Digits.parse_int natun.Api.Aggr.string_to_aggr_fn
    natun.Api.Selector.after_fqn natun.Api.Selector.ident_after natun.Api.Selector.is_digit
    natun.Api.Selector.is_letter natun.Api.Selector.is_tag natun.Api.Selector.is_underscore
    natun.Prelude.Digits.parse_nat_below
previous_parsed = refl

abbrev features : List (Text × FeaturePipeliner Wares)
features = (codes "shop.price", price_feature) ∷ []

found : feature_for_request features (codes "shop.price@-1") ≡ ok price_feature
unfolding feature_for_request natun.Engine.Request.request_fqn natun.Api.Selector.normalize_fqn
    parse_selector natun.Api.Selector.of_submatch natun.Api.Selector.find_submatch
    natun.Api.Selector.match_fqn natun.Api.Selector.after_first natun.Api.Selector.match_name
    natun.Api.Selector.is_ident natun.Api.Selector.span natun.Api.Selector.is_word
    natun.Api.Selector.after_ident natun.Api.Selector.match_rest natun.Api.Selector.match_aggr
    natun.Api.Selector.match_version natun.Api.Selector.match_encoding natun.Api.Selector.of_match
    natun.Api.Selector.parse_version natun.Prelude.Digits.parse_int natun.Api.Aggr.string_to_aggr_fn
    natun.Api.Selector.after_fqn natun.Api.Selector.ident_after natun.Api.Selector.is_digit
    natun.Api.Selector.is_letter natun.Api.Selector.is_tag natun.Api.Selector.is_underscore
    natun.Prelude.Digits.parse_nat_below natun.Prelude.lookup
found = refl

hookless : IsHookless Bool Cell price_feature
hookless = record { no_pre_get = refl; no_post_get = refl }

plain_feature : valid_window price ≡ false
unfolding valid_window
plain_feature = refl

kept_version : version_error price 1 ≡ none
unfolding version_error
kept_version = refl

right_type : type_detect a_value.value ≡ ok price.primitive
unfolding type_detect natun.Api.Primitive.string_to_primitive_type natun.Api.Value.type_name
    natun.Api.Value.go_type
right_type = refl

get_example :
    (v : Value Bool) × ((get cell_state 6_000_000_000 closed features background
        (codes "shop.price@-1")
        two_keys
        full_world).0
      ≡ got v (some price) none)
    × Serves cell_state 6_000_000_000 price (some a_value) v
get_example =
    get-Serves cell_state 6_000_000_000 features price_feature background (codes "shop.price@-1")
      previous two_keys full_world (some a_value) found hookless refl plain_feature previous_parsed
      kept_version refl (inr right_type)
