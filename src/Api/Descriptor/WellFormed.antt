-- ===== src/Api/Descriptor/WellFormed.antt =====
-- What FeatureDescriptorFromManifest (api/feature.go) guarantees of an accepted descriptor.
use natun.Prelude.{◌≡◌, Bool, true, false, not, List, arith, Bool-cases, inl, inr, if◌then◌else◌}
use natun.Prelude.Text.{to_lower}
use natun.Api.Errors.{Error, Result, ok, err, panicked}
use natun.Api.Primitive
use natun.Api.Primitive.{PrimitiveType, primitive_eq, string_to_primitive_type}
use natun.Api.Aggr.{AggrFn, strings_to_aggr_fns}
use natun.Api.Descriptor.{
  FeatureDescriptor, Manifest, is_empty, valid_window, feature_fqn, set_granularity,
  fill_descriptor, check_window, descriptor_with_aggr, descriptor_from_manifest,
}

-- The type is known, there is a builder, the feature aggregates exactly if it is a valid window, and
-- the name, the keys and the staleness are those of the manifest.
pub record IsWellFormed (m : Manifest) (fd : FeatureDescriptor) : Type 0 where
  pub known : primitive_eq fd.primitive Primitive.unknown ≡ false
  pub has_builder : is_empty fd.builder ≡ false
  pub windowed : valid_window fd ≡ not (is_empty fd.aggr)
  pub same_fqn : fd.fqn ≡ feature_fqn m
  pub same_keys : fd.keys ≡ m.keys
  pub same_staleness : fd.staleness ≡ m.staleness

set_granularity_rest :
    (aggr : List AggrFn) (m : Manifest)
    → let m' = set_granularity aggr m in
      (feature_fqn m' ≡ feature_fqn m) × (m'.keys ≡ m.keys) × (m'.staleness ≡ m.staleness)
unfolding set_granularity feature_fqn
set_granularity_rest aggr m = ground arith

builder-nonempty :
    (m : Manifest) (p : PrimitiveType) (aggr : List AggrFn)
    → is_empty (fill_descriptor m p aggr).builder ≡ false
unfolding fill_descriptor
builder-nonempty m p aggr = elim (Bool-cases (is_empty (to_lower m.kind))) [
  | inl e ↦ rw e
  | inr e ↦ rw e e
]

valid_window-empty : (fd : FeatureDescriptor) → is_empty fd.aggr ≡ true → valid_window fd ≡ false
unfolding valid_window
valid_window-empty fd h = ground arith

check_window-windowed :
    (d fd : FeatureDescriptor)
    → check_window d ≡ ok fd
    → (d ≡ fd) × (valid_window fd ≡ not (is_empty fd.aggr))
unfolding check_window
check_window-windowed d fd h = ground (arith, valid_window-empty d)

filled-IsWellFormed :
    (m : Manifest) (p : PrimitiveType) (aggr : List AggrFn) (fd : FeatureDescriptor)
    → primitive_eq p Primitive.unknown ≡ false
    → check_window (fill_descriptor (set_granularity aggr m) p aggr) ≡ ok fd
    → IsWellFormed m fd
filled-IsWellFormed m p aggr fd known h =
    let (e, w) = check_window-windowed _ fd h in
    let (f, k, s) = set_granularity_rest aggr m in
    record {
      known = rw (← e) (unfold fill_descriptor in known);
      has_builder = rw (← e) (builder-nonempty (set_granularity aggr m) p aggr);
      windowed = w;
      same_fqn = rw (← e) (unfold fill_descriptor in f);
      same_keys = rw (← e) (unfold fill_descriptor in k);
      same_staleness = rw (← e) (unfold fill_descriptor in s);
    }

-- What a guard with an error leaves when the outcome is a result.
guarded :
    {A B : Type 0} (c : Bool) (e : Error) (b b' : B) (r : Result A) (a : A)
    → (if◌then◌else◌ {A = Result A × B} c (err e, b) (r, b')).0 ≡ ok a
    → r ≡ ok a
guarded true e b b' r a h = cc h
guarded false e b b' r a h = h

unguarded :
    (m : Manifest) (p : PrimitiveType) (aggr : List AggrFn) (fd : FeatureDescriptor)
    → (descriptor_with_aggr m p (ok aggr)).0 ≡ ok fd
    → check_window (fill_descriptor (set_granularity aggr m) p aggr) ≡ ok fd
unfolding descriptor_with_aggr
unguarded m p aggr fd h = guarded _ _ _ _ _ fd h

with_aggr-IsWellFormed :
    (m : Manifest) (p : PrimitiveType) (aggr : Result (List AggrFn)) (fd : FeatureDescriptor)
    → primitive_eq p Primitive.unknown ≡ false
    → (descriptor_with_aggr m p aggr).0 ≡ ok fd
    → IsWellFormed m fd
with_aggr-IsWellFormed m p panicked fd known h = unfold descriptor_with_aggr in cc h
with_aggr-IsWellFormed m p (err e) fd known h = unfold descriptor_with_aggr in cc h
with_aggr-IsWellFormed m p (ok aggr) fd known h =
    filled-IsWellFormed m p aggr fd known (unguarded m p aggr fd h)

-- Every descriptor that a manifest is accepted with is well formed.
pub descriptor_from_manifest-IsWellFormed :
    (m : Manifest) (fd : FeatureDescriptor)
    → (descriptor_from_manifest m).0 ≡ ok fd
    → IsWellFormed m fd
unfolding descriptor_from_manifest
descriptor_from_manifest-IsWellFormed m fd h =
    let p = string_to_primitive_type m.primitive in
    elim (Bool-cases (primitive_eq p Primitive.unknown)) [
      | inl bad ↦ cc (rw bad at h)
      | inr known ↦ with_aggr-IsWellFormed m p (strings_to_aggr_fns m.aggr) fd known (rw known at h)
    ]
