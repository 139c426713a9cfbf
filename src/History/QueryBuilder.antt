-- ===== src/History/QueryBuilder.antt =====
-- The SQL queries over the historical data: pkg/querybuilder (tpl.go, feature.go and fs.go). text/template,
-- which executes the embedded templates, is a parameter.
pub mod KeyFeature
pub mod Padding
use natun.Prelude.{
  ℕ, ◌==◌, ◌≡◌, Bool, true, false, ◌&&◌, ◌||◌, List, [], ◌∷◌, ◌++◌, Option, none, some, ltb,
  if◌then◌else◌,
}
use natun.Prelude.Text.{Text, codes, text_eq}
use natun.Api.Errors.{Result, ok, err, panicked, ◌>>=◌}
use natun.Api.Descriptor.{FeatureDescriptor, is_empty, valid_window}

-- The functions that the templates call, the durations being nanoseconds.
pub record TemplateFuncs : Type 0 where
  pub escape_name : Text → Text
  pub subtract_duration : ℕ → Text → Text
  pub cast_feature : FeatureDescriptor → Text
  pub tmp_name : Text → Text

-- Config; `none` is a function that is nil.
pub record Config : Type 0 where
  pub features_table : Text
  pub escape_name : Option (Text → Text)
  pub subtract_duration : Option (ℕ → Text → Text)
  pub cast_feature : Option (FeatureDescriptor → Text)
  pub tmp_name : Option (Text → Text)

pub record BaseQuery : Type 0 where
  pub features_table : Text
  pub since : Text
  pub until : Text

-- featureSetQuery
pub record FeatureSetQuery : Type 0 where
  pub base : BaseQuery
  pub before_padding : ℕ
  pub features : List FeatureDescriptor
  pub key_feature : Text

-- The data of a template: a featureQuery or a featureSetQuery.
pub data TemplateData : Type 0 where
  feature_query : BaseQuery → FeatureDescriptor → TemplateData
  feature_set_query : FeatureSetQuery → TemplateData

-- Template.Execute of the template with this name
abbrev pub Execute : Type 0
Execute = TemplateFuncs → Text → TemplateData → Result Text

-- queryBuilder
pub record QueryBuilder : Type 0 where
  pub funcs : TemplateFuncs
  pub feature_table : Text

-- The fields of manifests.ModelSpec that FeatureSet reads.
pub record ModelSpec : Type 0 where
  pub features : List Text
  pub key_feature : Text

-- strings.NewReplacer("-", dash, ".", dot).Replace(s)
unfoldable pub replace_marks : Text → Text → Text → Text
replace_marks dash dot [] = []
replace_marks dash dot (c ∷ s) =
    (if c == b'-' then dash else if c == b'.' then dot else c ∷ []) ++ replace_marks dash dot s

-- tmpName
unfoldable pub default_tmp_name : Text → Text
unfolding replace_marks
default_tmp_name s = codes "f_" ++ replace_marks (codes "_") (codes "__") s

-- EscapeName
unfoldable pub default_escape_name : Text → Text
unfolding replace_marks
default_escape_name s = replace_marks (codes "_") (codes "$") s

abbrev or_default {ℓ} : {A : Type ℓ} → Option A → A → A
or_default none d = d
or_default (some a) d = a

-- A configured function that New does not do without
abbrev required {ℓ} : {A : Type ℓ} → Option A → Result A
required none = panicked
required (some a) = ok a

-- New, for templates that parse
unfoldable pub new_query_builder : Config → Result QueryBuilder
unfolding default_tmp_name default_escape_name
new_query_builder config = if is_empty config.features_table then panicked else (do
  subtract ← required config.subtract_duration
  cast ← required config.cast_feature
  ok (record {
    funcs = record {
      escape_name = or_default config.escape_name default_escape_name;
      subtract_duration = subtract;
      cast_feature = cast;
      tmp_name = or_default config.tmp_name default_tmp_name;
    };
    feature_table = config.features_table;
  }))

abbrev pub base_query : QueryBuilder → BaseQuery
base_query qb = record {
  features_table = qb.feature_table;
  since = codes "$SINCE";
  until = codes "$UNTIL";
}

-- Feature
unfoldable pub feature : Execute → QueryBuilder → FeatureDescriptor → Result Text
feature execute qb ft =
    execute qb.funcs
      (if valid_window ft then codes "windowed.tmpl.sql" else codes "primitive.tmpl.sql")
      (feature_query (base_query qb) ft)

-- The loop that sets `found`
unfoldable pub is_listed : Text → List Text → Bool
is_listed key [] = false
is_listed key (f ∷ fs) = text_eq f key || is_listed key fs

-- fs.Features[0], out of range where there is none.
unfoldable pub first_of : List Text → Result Text
first_of [] = panicked
first_of (f ∷ fs) = ok f

-- The key feature
unfoldable pub key_of : ModelSpec → Result Text
key_of fs = if is_empty fs.key_feature then first_of fs.features else ok fs.key_feature

-- The names of the features, with the key feature among them
unfoldable pub names_with_key : Text → List Text → List Text
names_with_key key names = if is_listed key names then names else names ++ (key ∷ [])

-- The body of the loop behind the getter
unfoldable pub add_feature : FeatureDescriptor → FeatureSetQuery → FeatureSetQuery
add_feature ft q = record q {
  before_padding =
      if valid_window ft && ltb q.before_padding ft.staleness
      then ft.staleness
      else q.before_padding;
  features = q.features ++ (ft ∷ []);
}

-- The loop that reads the descriptors
unfoldable pub add_features :
    (Text → Result FeatureDescriptor) → List Text → FeatureSetQuery → Result FeatureSetQuery
add_features getter [] q = ok q
add_features getter (fqn ∷ names) q =
    getter fqn >>= λ ft. add_features getter names (add_feature ft q)

-- The data of FeatureSet
unfoldable pub set_query :
    QueryBuilder → ModelSpec → (Text → Result FeatureDescriptor) → Result FeatureSetQuery
set_query qb fs getter = do
  key ← key_of fs
  add_features getter (names_with_key key fs.features)
      (record { base = base_query qb; before_padding = 0; features = []; key_feature = key })

-- FeatureSet
unfoldable pub feature_set :
    Execute → QueryBuilder → ModelSpec → (Text → Result FeatureDescriptor) → Result Text
feature_set execute qb fs getter = set_query qb fs getter >>= λ q.
    execute qb.funcs (codes "featureset.tmpl.sql") (feature_set_query q)
