-- ===== src/Redis/Window.antt =====
-- The reads of windows: windows.go of internal/plugins/providers/state/redis. The order in which
-- the goroutines of windowBuckets answer is that of the names here, and of the errors the first one
-- counts.
pub mod Sums
use natun.Prelude.{
  ℕ, Bool, true, false, ◌&&◌, not, ◌==◌, List, [], ◌∷◌, Option, none, some, if◌then◌else◌,
}
use natun.Prelude.Text.{Text}
use natun.Api.Errors.{Result, ok, err, ◌>>=◌, bad_number, window_version}
use natun.Api.Aggr.{
  AggrFn, unknown_fn, sum, avg, max, min, count, aggr_eq, has_aggr, string_to_aggr_fn,
}
use natun.Api.Value.{FloatOps, Value, window}
use natun.Api.Descriptor.{FeatureDescriptor, is_empty, valid_window}
use natun.Api.Keys.{Keys, encode}
use natun.Api.Bucket.{alive_window_buckets}
use natun.Redis.Command.{window_key}
use natun.Redis.Read.{RedisReads, get_primitive}

-- WindowResultMap
abbrev pub ResultMap : Type 0 → Type 0
ResultMap F = AggrFn → Option F

-- RawBucket
pub record RawBucket (F : Type 0) : Type 0 where
  pub fqn : Text
  pub bucket : Text
  pub encoded_keys : Text
  pub raw : ResultMap F

-- HGETALL of a Redis server; a missing key has no fields.
pub record RedisHashes (S : Type 0) : Type 0 where
  pub hgetall : Text → S → Result (List (Text × Text))

-- m[f] = x
abbrev pub put : {F : Type 0} → AggrFn → F → ResultMap F → ResultMap F
put f x m g = if aggr_eq f g then some x else m g

module _ {F : Type 0} ⦃ops : FloatOps F⦄ where
  -- m[f], zero if it is missing
  abbrev pub or_zero : Option F → F
  or_zero none = ops.zero_float
  or_zero (some x) = x

  -- The fields of a hash as a map.
  unfoldable pub read_fields : List (Text × Text) → ResultMap F → Result (ResultMap F)
  read_fields [] m = ok m
  read_fields ((name, text) ∷ fields) m = elim (ops.parse_float text) [
    | none ↦ err bad_number
    | some x ↦ read_fields fields (put (string_to_aggr_fn name) x m)
  ]

  -- One case of the switch of getWindow.
  unfoldable pub merge_fn : ResultMap F → AggrFn → ResultMap F → ResultMap F
  merge_fn raw sum m = put sum (ops.add (or_zero (m sum)) (or_zero (raw sum))) m
  merge_fn raw count m = put count (ops.add (or_zero (m count)) (or_zero (raw count))) m
  merge_fn raw min m = elim (m min) [
    | none ↦ put min (or_zero (raw min)) m
    | some x ↦ put min (ops.min_float x (or_zero (raw min))) m
  ]
  merge_fn raw max m = elim (m max) [
    | none ↦ put max (or_zero (raw max)) m
    | some x ↦ put max (ops.max_float x (or_zero (raw max))) m
  ]
  merge_fn raw _ m = m

  unfoldable pub merge_bucket : ResultMap F → List AggrFn → ResultMap F → ResultMap F
  unfolding merge_fn
  merge_bucket raw [] m = m
  merge_bucket raw (f ∷ fs) m = merge_bucket raw fs (merge_fn raw f m)

  unfoldable pub merge_buckets : List AggrFn → List (RawBucket F) → ResultMap F → ResultMap F
  unfolding merge_bucket
  merge_buckets fs [] m = m
  merge_buckets fs (b ∷ bs) m = merge_buckets fs bs (merge_bucket b.raw fs m)

  -- `avg` is noticed inside the loop over the buckets only.
  unfoldable pub window_result : List AggrFn → List (RawBucket F) → ResultMap F
  unfolding merge_buckets
  window_result fs bs =
      let m = merge_buckets fs bs (λ g. none) in
      if has_aggr avg fs && not (is_empty bs)
      then put avg (ops.divide (or_zero (m sum)) (or_zero (m count))) m
      else m

  -- len(ret) == 0
  unfoldable pub is_empty_result : ResultMap F → Bool
  is_empty_result m =
      missing (m unknown_fn)
      && missing (m sum)
      && missing (m avg)
      && missing (m max)
      && missing (m min)
      && missing (m count)
    where
      missing : Option F → Bool
      missing none = true
      missing (some x) = false

module _ {F S : Type 0} ⦃ops : FloatOps F⦄ (hashes : RedisHashes S) where
  -- windowBuckets over the buckets that WindowBuckets makes of their names; an empty hash is left out.
  unfoldable pub window_buckets : Text → Text → List Text → S → Result (List (RawBucket F))
  window_buckets fqn encoded [] s = ok []
  window_buckets fqn encoded (b ∷ bs) s = do
    fields ← hashes.hgetall (window_key fqn b encoded) s
    raw ← read_fields fields (λ g. none)
    rest ← window_buckets fqn encoded bs s
    ok (
        if is_empty fields
        then rest
        else record { fqn = fqn; bucket = b; encoded_keys = encoded; raw = raw } ∷ rest)

  -- getWindow
  unfoldable pub get_window : ℕ → FeatureDescriptor → Keys → S → Result (Option (Value F))
  unfolding window_buckets window_result is_empty_result
  get_window now fd keys s = do
    encoded ← encode keys fd
    bs ← window_buckets fd.fqn encoded (alive_window_buckets fd.staleness fd.freshness now) s
    let ret = window_result fd.aggr bs
    ok (
        if is_empty_result ret
        then none
        else some (record { value = window ret; timestamp = now; fresh = true }))

  -- Get
  unfoldable pub get_state :
      RedisReads S → ℕ → FeatureDescriptor → Keys → ℕ → S → Result (Option (Value F))
  get_state redis now fd keys version s =
      if valid_window fd
      then (if version == 0 then get_window now fd keys s else err window_version)
      else get_primitive redis now fd keys version s
