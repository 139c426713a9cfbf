-- ===== src/Redis/DeadBuckets.antt =====
-- The dead buckets of windows: fromWindowKey, ignoreKey and DeadWindowBuckets of windows.go
-- (internal/plugins/providers/state/redis). The order in which the goroutines answer is that of the
-- names here, and of the errors the first one counts; the second close of the channel behind an error,
-- by the goroutine that waits for the others, is left out.
pub mod WindowKeys
pub mod Ignored
use natun.Prelude.{
  ℕ, zero, suc, ◌+◌, ◌≡◌, Bool, true, false, ◌||◌, List, [], ◌∷◌, ◌++◌, Option, none, some, ◌==◌,
  if◌then◌else◌,
}
use natun.Prelude.Text.{Text, codes, text_eq}
use natun.Api.Errors.{Result, ok, err, panicked, ◌>>=◌}
use natun.Api.Value.{FloatOps}
use natun.Api.Descriptor.{FeatureDescriptor, is_empty}
use natun.Api.Bucket.{dead_window_buckets}
use natun.Redis.Command.{window_key}
use natun.Redis.Window.{RawBucket, RedisHashes, read_fields}

-- k[:i] and k[i+1:] for the first c in k, at index i; without one, the index is -1.
unfoldable pub split_first : ℕ → Text → Option (Text × Text)
split_first c [] = none
split_first c (d ∷ k) =
    let rest = split_first c k in
    if d == c then some ([], k) else elim rest [ none ↦ none | some p ↦ some (d ∷ p.0, p.1) ]

-- k[:i] and k[i+1:] for the last c in k.
unfoldable pub split_last : ℕ → Text → Option (Text × Text)
split_last c [] = none
split_last c (d ∷ k) = elim (split_last c k) [
  | some p ↦ some (d ∷ p.0, p.1)
  | none ↦ if d == c then some ([], k) else none
]

-- fromWindowKey. A missing separator gives the index -1, and slicing with it panics; so does a last
-- colon before the first slash.
unfoldable pub from_window_key : Text → Result (Text × Text × Text)
from_window_key k = elim (split_first b'/' k) [
  | none ↦ panicked
  | some (fqn, rest) ↦ elim (split_last b':' rest) [
    | none ↦ panicked
    | some (bucket, encoded) ↦ ok (fqn, bucket, encoded)
  ]
]

-- ignoreKey
unfoldable pub ignore_key : {F : Type 0} → List (RawBucket F) → Text → Bool
ignore_key [] key = false
ignore_key (b ∷ bs) key =
    text_eq (window_key b.fqn b.bucket b.encoded_keys) key || ignore_key bs key

-- SCAN of the keys that match a pattern with one star at its end.
pub record RedisScans (S : Type 0) : Type 0 where
  pub scan : Text → S → Result (List Text)

-- The keys that the scans of all names find.
unfoldable pub scan_buckets :
    {S : Type 0} → RedisScans S → Text → List Text → S → Result (List Text)
scan_buckets scans fqn [] s = ok []
scan_buckets scans fqn (b ∷ bs) s = do
  found ← scans.scan (window_key fqn b (codes "*")) s
  rest ← scan_buckets scans fqn bs s
  ok (found ++ rest)

-- The loop over the found keys: those that are not ignored, taken apart.
unfoldable pub found_buckets :
    {F : Type 0} → List (RawBucket F) → List Text → Result (List (Text × Text × Text))
found_buckets ignore [] = ok []
found_buckets ignore (key ∷ keys) =
    let rest = found_buckets ignore keys in
    if ignore_key ignore key
    then rest
    else (do parts ← from_window_key key; others ← rest; ok (parts ∷ others))

module _ {F S : Type 0} ⦃ops : FloatOps F⦄ (hashes : RedisHashes S) where
  -- windowBuckets of any buckets; an empty hash is left out.
  unfoldable pub read_buckets : List (Text × Text × Text) → S → Result (List (RawBucket F))
  read_buckets [] s = ok []
  read_buckets ((fqn, bucket, encoded) ∷ bs) s = do
    fields ← hashes.hgetall (window_key fqn bucket encoded) s
    raw ← read_fields fields (λ g. none)
    rest ← read_buckets bs s
    ok (
        if is_empty fields
        then rest
        else record { fqn = fqn; bucket = bucket; encoded_keys = encoded; raw = raw } ∷ rest)

  -- DeadWindowBuckets
  unfoldable pub dead_buckets :
      RedisScans S → ℕ → FeatureDescriptor → List (RawBucket F) → S → Result (List (RawBucket F))
  dead_buckets scans now fd ignore s = do
    names ← dead_window_buckets fd.staleness fd.freshness now
    keys ← scan_buckets scans fd.fqn names s
    parts ← found_buckets ignore keys
    read_buckets parts s
