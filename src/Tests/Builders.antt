-- ===== src/Tests/Builders.antt =====
-- The theorem about models (internal/plugins/builders/model) at a concrete input, and runs of the other builders.
use natun.Prelude.{ℕ, ◌≡◌, refl, Bool, true, false, List, [], ◌∷◌, ◌++◌, Option, some, none, arith}
use natun.Prelude.Text.{Text, codes}
use natun.Api.Errors.{Result, ok, err, model_set}
use natun.Api.Value.{scalar, str}
use natun.Api.Descriptor.{Manifest}
use natun.Api.Keys.{Keys, encode}
use natun.Engine.Pipeline.{closed}
use natun.Engine.Priority.{FeaturePipeliner}
use natun.Engine.Registry.{DataSource, new_pipeliner}
use natun.Engine.World.{World, method_set}
use natun.Engine.Request.{feature_for_request, got, write}
use natun.Builders.Model.{ModelDescriptor, ModelPlugins, model_apply}
use natun.Builders.Model.Refusal.{model_apply-write}
use natun.Builders.Rest.{replace_all, replace_keys}
use natun.Tests.Data.{
  bits, price, two_keys, price_manifest, cell_state, Cell, a_value, full_world, background, Wares,
}

abbrev model_plugins : ModelPlugins Bool (World Bool Cell) (Unit {0})
model_plugins = record { get = λ ctx f keys w. (got a_value none none, w); server = λ name. none }

abbrev two_features : ModelDescriptor (Unit {0})
two_features = record {
  features = codes "shop.size" ∷ codes "weight" ∷ [];
  key_feature = [];
  keys = codes "id" ∷ [];
  model_framework = [];
  model_server = [];
  inference_config = tt;
}

abbrev read_model : Manifest → Result (ModelDescriptor (Unit {0}))
read_model m = ok two_features

abbrev no_sources : List (Text × DataSource (Unit {0}))
no_sources = []

abbrev applied : Result (FeaturePipeliner Wares)
applied = model_apply model_plugins read_model price price_manifest no_sources (new_pipeliner price)

abbrev feature_of : Result (FeaturePipeliner Wares) → FeaturePipeliner Wares
feature_of (ok f) = f
feature_of _ = new_pipeliner price

applied_ok : applied ≡ ok (feature_of applied)
unfolding model_apply natun.Builders.Model.check_size natun.Api.Selector.parse_selector
    natun.Api.Selector.of_submatch natun.Api.Selector.find_submatch natun.Api.Selector.match_fqn
    natun.Api.Selector.after_first natun.Api.Selector.match_name natun.Api.Selector.is_ident
    natun.Api.Selector.span natun.Api.Selector.is_word natun.Api.Selector.after_ident
    natun.Api.Selector.match_rest natun.Api.Selector.match_aggr natun.Api.Selector.match_version
    natun.Api.Selector.match_encoding natun.Api.Selector.of_match natun.Api.Aggr.aggr_eq
    natun.Api.Aggr.aggr_to_text natun.Api.Aggr.string_to_aggr_fn natun.Api.Selector.after_fqn
    natun.Api.Selector.ident_after natun.Api.Selector.is_digit natun.Api.Selector.is_letter
    natun.Api.Selector.is_tag natun.Api.Selector.is_underscore natun.Api.Selector.normalize_selector
    natun.Api.Selector.parse_version natun.Api.Selector.selector_suffix
    natun.Builders.Model.after_reads natun.Builders.Model.after_serve
    natun.Builders.Model.model_get_middleware natun.Builders.Model.model_set_middleware
    natun.Builders.Model.normalize_features natun.Builders.Model.read_features
    natun.Builders.Model.with_result natun.Builders.Programs.is_cached
    natun.Engine.Priority.add_hook natun.Engine.Priority.add_post_get_middleware
    natun.Engine.Priority.add_pre_set_middleware natun.Prelude.insert
    natun.Prelude.Digits.format_int natun.Prelude.Digits.format_nat natun.Prelude.Digits.parse_int
    natun.Prelude.Digits.parse_nat_below
applied_ok = refl

abbrev features : List (Text × FeaturePipeliner Wares)
features = (codes "shop.price", feature_of applied) ∷ []

model_found : feature_for_request features (codes "shop.price") ≡ ok (feature_of applied)
unfolding feature_for_request natun.Engine.Request.request_fqn natun.Api.Selector.normalize_fqn
    natun.Api.Selector.parse_selector natun.Api.Selector.of_submatch
    natun.Api.Selector.find_submatch natun.Api.Selector.match_fqn natun.Api.Selector.after_first
    natun.Api.Selector.match_name natun.Api.Selector.is_ident natun.Api.Selector.span
    natun.Api.Selector.is_word natun.Api.Selector.after_ident natun.Api.Selector.match_rest
    natun.Api.Selector.match_aggr natun.Api.Selector.match_version natun.Api.Selector.match_encoding
    natun.Api.Selector.of_match natun.Api.Selector.parse_version natun.Prelude.lookup
model_found = refl

encoded_keys : encode two_keys price ≡ ok (codes "7;mon")
unfolding encode natun.Api.Keys.encoded_values natun.Api.Keys.encoded_value natun.Prelude.lookup
    natun.Prelude.Text.join
encoded_keys = refl

refused_example :
    write cell_state 6_000_000_000 closed features background
      (codes "shop.price")
      two_keys
      (scalar (str (codes "9.99")))
      5_000_000_000
      method_set
      full_world
    ≡ (err model_set, full_world)
refused_example =
    model_apply-write model_plugins read_model cell_state 6_000_000_000 price price_manifest
      no_sources (feature_of applied) features background (codes "shop.price") two_keys
      (scalar (str (codes "9.99"))) 5_000_000_000 method_set full_world (codes "7;mon") applied_ok
      model_found encoded_keys

-- The name of a key in a URL stays as it is.
url_keeps_names : replace_keys two_keys two_keys (codes "/p/{key:id}") ≡ codes "/p/{key:id}"
unfolding replace_keys replace_all natun.Builders.Rest.replace_from
url_keeps_names = refl
