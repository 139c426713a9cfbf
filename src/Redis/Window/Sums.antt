-- ===== src/Redis/Window/Sums.antt =====
-- The sum that getWindow of windows.go (internal/plugins/providers/state/redis) makes of its buckets.
use natun.Prelude.{
  ◌≡◌, refl, ◌∙◌, ap, false, List, [], ◌∷◌, ◌++◌, none, some, arith, Bool-cases, inl, inr,
}
use natun.Api.Aggr.{AggrFn, unknown_fn, sum, avg, max, min, count, aggr_eq, has_aggr}
use natun.Api.Value.{FloatOps}
use natun.Redis.Window.{
  ResultMap, RawBucket, or_zero, merge_fn, merge_bucket, merge_buckets, window_result,
}

has_aggr-head :
    (f : AggrFn) (fs : List AggrFn)
    → has_aggr sum (f ∷ fs) ≡ false
    → (aggr_eq f sum ≡ false) × (has_aggr sum fs ≡ false)
unfolding has_aggr
has_aggr-head f fs h = ground arith

module _ {F : Type 0} ⦃ops : FloatOps F⦄ where
  -- The sums of the buckets, added from the left; a bucket without a sum counts as zero.
  abbrev pub total : F → List (RawBucket F) → F
  total x [] = x
  total x (b ∷ bs) = total (ops.add x (or_zero (b.raw sum))) bs

  -- The other functions leave the sum alone.
  merge_fn-sum :
      (raw m : ResultMap F) (f : AggrFn) → aggr_eq f sum ≡ false → merge_fn raw f m sum ≡ m sum
  unfolding merge_fn aggr_eq
  merge_fn-sum raw m sum h = cc h
  merge_fn-sum raw m unknown_fn h = refl
  merge_fn-sum raw m avg h = refl
  merge_fn-sum raw m count h = refl
  merge_fn-sum raw m min h = ground arith
  merge_fn-sum raw m max h = ground arith

  merge_bucket-without :
      (raw m : ResultMap F) (fs : List AggrFn)
      → has_aggr sum fs ≡ false
      → merge_bucket raw fs m sum ≡ m sum
  unfolding merge_bucket
  merge_bucket-without raw m [] h = refl
  merge_bucket-without raw m (f ∷ fs) h =
      let (hf, hs) = has_aggr-head f fs h in
      merge_bucket-without raw (merge_fn raw f m) fs hs ∙ merge_fn-sum raw m f hf

  merge_bucket-sum :
      (raw m : ResultMap F) (before after : List AggrFn)
      → has_aggr sum before ≡ false
      → has_aggr sum after ≡ false
      → merge_bucket raw (before ++ (sum ∷ after)) m sum
        ≡ some (ops.add (or_zero (m sum)) (or_zero (raw sum)))
  unfolding merge_bucket
  merge_bucket-sum raw m [] after hb ha =
      merge_bucket-without raw (merge_fn raw sum m) after ha
      ∙ unfold merge_fn in unfold aggr_eq in refl
  merge_bucket-sum raw m (f ∷ before) after hb ha =
      let (hf, hs) = has_aggr-head f before hb in
      merge_bucket-sum raw (merge_fn raw f m) before after hs ha
      ∙ ap (λ o. some (ops.add (or_zero o) (or_zero (raw sum)))) (merge_fn-sum raw m f hf)

  merge_buckets-sum :
      (before after : List AggrFn) (b : RawBucket F) (bs : List (RawBucket F)) (m : ResultMap F)
      → has_aggr sum before ≡ false
      → has_aggr sum after ≡ false
      → merge_buckets (before ++ (sum ∷ after)) (b ∷ bs) m sum
        ≡ some (total (or_zero (m sum)) (b ∷ bs))
  unfolding merge_buckets
  merge_buckets-sum before after b [] m hb ha = merge_bucket-sum b.raw m before after hb ha
  merge_buckets-sum before after b (c ∷ bs) m hb ha =
      merge_buckets-sum before after c bs (merge_bucket b.raw (before ++ (sum ∷ after)) m) hb ha
      ∙ ap (λ o. some (total (or_zero o) (c ∷ bs))) (merge_bucket-sum b.raw m before after hb ha)

  -- For a feature that aggregates a sum once, the sum of a window with at least one bucket is that of
  -- the sums of its buckets, added from the left to zero.
  pub window_result-sum :
      (before after : List AggrFn) (b : RawBucket F) (bs : List (RawBucket F))
      → has_aggr sum before ≡ false
      → has_aggr sum after ≡ false
      → window_result (before ++ (sum ∷ after)) (b ∷ bs) sum ≡ some (total ops.zero_float (b ∷ bs))
  unfolding window_result
  window_result-sum before after b bs hb ha =
      elim (Bool-cases (has_aggr avg (before ++ (sum ∷ after)))) [
        | inl e ↦ rw e (unfold aggr_eq in merge_buckets-sum before after b bs (λ g. none) hb ha)
        | inr e ↦ rw e (merge_buckets-sum before after b bs (λ g. none) hb ha)
      ]
