-- ===== src/Tests/Api.antt =====
-- The theorems about api/ at concrete inputs.
use natun.Prelude.{
  ℕ, ◌+◌, ◌*◌, ◌<◌, ◌≡◌, ◌≢◌, refl, Bool, true, false, List, [], ◌∷◌, ◌++◌, Option, none, some,
  arith, inr, lookup, if◌then◌else◌, not,
}
use natun.Prelude.Int.{pos, negsuc}
use natun.Prelude.Text.{Text, codes}
use natun.Api.Errors.{ok}
use natun.Api.Primitive
use natun.Api.Primitive.{
  primitive_eq, string_to_primitive_type, to_text, string_to_primitive_type-to_text,
}
use natun.Api.Aggr.{sum, string_to_aggr_fn, aggr_to_text, string_to_aggr_fn-aggr_to_text, avg}
use natun.Api.Value.{
  AnyValue, Scalar, scalar, slice, anys, nil, int, time, go_int, type_detect, normalize_any,
}
use natun.Api.Keys.{Keys, encode, decode, elem, decode-encode, decode-encode_nil}
use natun.Api.Selector.{Selector, normalize_fqn, parse_selector, or_default, is_ident, is_word}
use natun.Api.Selector.Fqn.{IsName, plain, normalize_fqn-normal}
use natun.Api.Descriptor.{FeatureDescriptor, descriptor_from_manifest}
use natun.Api.Descriptor.WellFormed.{IsWellFormed, descriptor_from_manifest-IsWellFormed}
use natun.Tests.Data.{price, two_keys, price_manifest, bits}

two_keys_encoded : encode two_keys price ≡ ok (codes "7;mon")
unfolding encode natun.Api.Keys.encoded_values natun.Api.Keys.encoded_value lookup
    natun.Prelude.Text.join
two_keys_encoded = refl

decode-encode_example :
    (k' : Keys) × (decode (codes "7;mon") price [] ≡ ok k')
    × ((j : Text) → lookup j k' ≡ (if elem j price.keys then lookup j two_keys else none))
unfolding lookup
decode-encode_example = decode-encode two_keys [] price (codes "7;mon") (λ e. cc e) two_keys_encoded

abbrev boxed_ints : AnyValue Bool
boxed_ints = anys (some (int (pos 1)) ∷ some (int (negsuc 1)) ∷ [])

abbrev plain_ints : AnyValue Bool
plain_ints = slice go_int (pos 1 ∷ negsuc 1 ∷ [])

boxed_ints_normal : normalize_any boxed_ints ≡ ok plain_ints
unfolding normalize_any natun.Api.Value.elements natun.Api.Value.element natun.Api.Value.go_type
boxed_ints_normal = refl

abbrev accepted : FeatureDescriptor
accepted = record {
  fqn = codes "shop.unit_price";
  primitive = Primitive.integer;
  aggr = sum ∷ avg ∷ [];
  freshness = 5_000_000_000;
  staleness = 3_600_000_000_000;
  timeout = 0;
  keep_previous = none;
  keys = codes "id" ∷ [];
  builder = codes "sourceless";
  runtime_env = [];
  data_source = [];
  dependencies = [];
}

manifest_accepted : (descriptor_from_manifest price_manifest).0 ≡ ok accepted
unfolding descriptor_from_manifest primitive_eq string_to_primitive_type
    natun.Api.Descriptor.descriptor_with_aggr natun.Api.Aggr.strings_to_aggr_fns
    natun.Api.Aggr.aggr_eq string_to_aggr_fn natun.Api.Aggr.add_aggr natun.Api.Descriptor.is_numeric
    natun.Api.Descriptor.check_window natun.Api.Descriptor.fill_descriptor
    natun.Api.Descriptor.valid_window natun.Api.Descriptor.set_granularity
manifest_accepted = refl

descriptor_example : IsWellFormed price_manifest accepted
descriptor_example = descriptor_from_manifest-IsWellFormed price_manifest accepted manifest_accepted

default-IsName : IsName (codes "default")
default-IsName = record { ident = unfold is_ident in refl; words = unfold is_word in refl }

selector_normalized :
    normalize_fqn (codes "price+sum@-2") (codes "default") ≡ ok (codes "default.price")
unfolding normalize_fqn parse_selector natun.Api.Selector.of_submatch
    natun.Api.Selector.find_submatch natun.Api.Selector.match_fqn natun.Api.Selector.after_first
    natun.Api.Selector.match_name natun.Api.Selector.is_ident natun.Api.Selector.span
    natun.Api.Selector.is_word natun.Api.Selector.after_ident natun.Api.Selector.match_rest
    natun.Api.Selector.match_aggr natun.Api.Selector.match_version natun.Api.Selector.match_encoding
    natun.Api.Selector.of_match natun.Api.Selector.parse_version natun.Prelude.Digits.parse_int
    natun.Api.Aggr.string_to_aggr_fn natun.Api.Selector.after_fqn natun.Api.Selector.ident_after
    natun.Api.Selector.is_digit natun.Api.Selector.is_letter natun.Api.Selector.is_tag
    natun.Api.Selector.is_underscore natun.Prelude.Digits.parse_nat_below
selector_normalized = refl

abbrev price_sum : Selector
price_sum = record {
  namespace = [];
  name = codes "price";
  aggr_fn = sum;
  version = 2;
  encoding = [];
}

price_sum_parsed : parse_selector (codes "price+sum@-2") ≡ ok price_sum
unfolding parse_selector natun.Api.Selector.of_submatch natun.Api.Selector.find_submatch
    natun.Api.Selector.match_fqn natun.Api.Selector.after_first natun.Api.Selector.match_name
    natun.Api.Selector.is_ident natun.Api.Selector.span natun.Api.Selector.is_word
    natun.Api.Selector.after_ident natun.Api.Selector.match_rest natun.Api.Selector.match_aggr
    natun.Api.Selector.match_version natun.Api.Selector.match_encoding natun.Api.Selector.of_match
    natun.Api.Selector.parse_version natun.Prelude.Digits.parse_int natun.Api.Aggr.string_to_aggr_fn
    natun.Api.Selector.after_fqn natun.Api.Selector.ident_after natun.Api.Selector.is_digit
    natun.Api.Selector.is_letter natun.Api.Selector.is_tag natun.Api.Selector.is_underscore
    natun.Prelude.Digits.parse_nat_below
price_sum_parsed = refl

normalize_fqn_example :
    (parse_selector (codes "default.price") ≡ ok (plain (codes "default") (codes "price")))
    × ((d : Text) → normalize_fqn (codes "default.price") d ≡ ok (codes "default.price"))
normalize_fqn_example =
    normalize_fqn-normal (codes "price+sum@-2") (codes "default") (codes "default.price") price_sum
      price_sum_parsed (inr default-IsName) selector_normalized
