-- ===== src/Api/Descriptor.antt =====
-- api/feature.go: the descriptor of a feature and how it is made from a manifest.
-- A duration is a number of nanoseconds; those below zero are not represented.
pub mod WellFormed
use natun.Prelude.{
  ℕ, ◌/◌, ◌≤◌, ◌<◌, ◌≡◌, refl, Bool, true, false, not, ◌&&◌, ◌||◌, List, [], ◌∷◌, ◌++◌, map, Option,
  none, some, arith, ltb, ◌==◌, if◌then◌else◌,
}
use mathlib.Core.Option
use natun.Prelude.Text.{Text, codes, text_eq, to_lower}
use natun.Api.Errors.{
  Result, ok, err, panicked, ◌>>=◌, unsupported_primitive, primitive_with_aggregation,
  invalid_window,
}
use natun.Api.Primitive
use natun.Api.Primitive.{PrimitiveType, primitive_eq, string_to_primitive_type}
use natun.Api.Aggr.{AggrFn, strings_to_aggr_fns}

pub record KeepPrevious : Type 0 where
  pub versions : ℕ
  pub over : ℕ

pub record FeatureDescriptor : Type 0 where
  pub fqn : Text
  pub primitive : PrimitiveType
  pub aggr : List AggrFn
  pub freshness : ℕ
  pub staleness : ℕ
  pub timeout : ℕ
  pub keep_previous : Option KeepPrevious
  pub keys : List Text
  pub builder : Text
  pub runtime_env : Text
  pub data_source : Text
  pub dependencies : List Text

-- len(xs) == 0, s == ""
abbrev pub is_empty {ℓ} : {A : Type ℓ} → List A → Bool
is_empty [] = true
is_empty (x ∷ xs) = false

-- The type has an arithmetic.
unfoldable pub is_numeric : PrimitiveType → Bool
unfolding primitive_eq
is_numeric pt = primitive_eq pt Primitive.integer || primitive_eq pt Primitive.float

-- FeatureDescriptor.ValidWindow
unfoldable pub valid_window : FeatureDescriptor → Bool
valid_window fd =
    if ltb fd.freshness 1
    then false
    else if ltb fd.staleness fd.freshness
    then false
    else if is_empty fd.aggr
    then false
    else if not (is_numeric fd.primitive)
    then false
    else true

-- api/v1alpha1: the parts of a Feature manifest that the core reads.
pub record ResourceReference : Type 0 where
  pub name : Text
  pub namespace : Text

-- ResourceReference.FQN
unfoldable pub reference_fqn : ResourceReference → Text
reference_fqn r = r.name ++ codes "." ++ r.namespace

-- ResourceReference.ObjectKey
unfoldable pub object_key : ResourceReference → ResourceReference
object_key r = record { name = to_lower r.name; namespace = to_lower r.namespace }

pub record Manifest : Type 0 where
  pub namespace : Text
  pub name : Text
  pub primitive : Text
  pub freshness : ℕ
  pub staleness : ℕ
  pub timeout : ℕ
  pub keep_previous : Option KeepPrevious
  pub keys : List Text
  pub data_source : Option ResourceReference
  pub kind : Text
  pub aggr : List Text
  pub aggr_granularity : ℕ
  pub runtime : Text
  pub code : Text
  pub packages : List Text
  pub dependencies : List ResourceReference
  -- spec.builder.raw
  pub raw : Text

abbrev dash_to_underscore : Text → Text
dash_to_underscore = map (λ c. if c == b'-' then b'_' else c)

-- Feature.FQN
unfoldable pub feature_fqn : Manifest → Text
feature_fqn m = dash_to_underscore m.namespace ++ codes "." ++ dash_to_underscore m.name

-- `in.Spec.Freshness = in.Spec.Builder.AggrGranularity`, a write through the pointer to the manifest.
unfoldable pub set_granularity : List AggrFn → Manifest → Manifest
set_granularity aggr m =
    if ltb 0 (m.aggr_granularity / 1_000_000) && not (is_empty aggr)
    then record m { freshness = m.aggr_granularity }
    else m

-- The descriptor of a manifest whose type and aggregations are parsed.
unfoldable pub fill_descriptor : Manifest → PrimitiveType → List AggrFn → FeatureDescriptor
unfolding feature_fqn
fill_descriptor m primitive aggr = record {
  fqn = feature_fqn m;
  primitive = primitive;
  aggr = aggr;
  freshness = m.freshness;
  staleness = m.staleness;
  timeout = m.timeout;
  keep_previous = m.keep_previous;
  keys = m.keys;
  builder = if is_empty (to_lower m.kind) then codes "sourceless" else to_lower m.kind;
  runtime_env = m.runtime;
  data_source = elim m.data_source [ none ↦ [] | some r ↦ reference_fqn r ];
  dependencies = map reference_fqn m.dependencies;
}

unfoldable pub check_window : FeatureDescriptor → Result FeatureDescriptor
check_window fd =
    if not (is_empty fd.aggr) && not (valid_window fd) then err invalid_window else ok fd

-- The rest of FeatureDescriptorFromManifest, once the aggregations are parsed.
unfoldable pub descriptor_with_aggr :
    Manifest → PrimitiveType → Result (List AggrFn) → Result FeatureDescriptor × Manifest
descriptor_with_aggr m primitive panicked = (panicked, m)
descriptor_with_aggr m primitive (err e) = (err e, m)
descriptor_with_aggr m primitive (ok aggr) =
    if not (is_empty aggr) && not (is_numeric primitive)
    then (err primitive_with_aggregation, m)
    else (
      check_window (fill_descriptor (set_granularity aggr m) primitive aggr),
      set_granularity aggr m,
    )

-- FeatureDescriptorFromManifest, with the manifest as the call leaves it.
unfoldable pub descriptor_from_manifest : Manifest → Result FeatureDescriptor × Manifest
descriptor_from_manifest m =
    let primitive = string_to_primitive_type m.primitive in
    if primitive_eq primitive Primitive.unknown
    then (err unsupported_primitive, m)
    else descriptor_with_aggr m primitive (strings_to_aggr_fns m.aggr)
