-- ===== src/Historian/Server.antt =====
-- The historian: internal/historian/historian.go. The queues are given by the
-- order of the calls that add to them; the state, the writer of the historical data and the cache with
-- expiring keys (ttlcache) are parameters.
use natun.Prelude.{
  ℕ, ◌*◌, ◌/◌, ◌+◌, ◌-◌, Bool, true, false, ◌||◌, List, [], ◌∷◌, ◌++◌, Option, none, some, lookup,
  insert, delete, if◌then◌else◌,
}
use natun.Prelude.Text.{Text, codes, text_eq}
use natun.Api.Errors.{Result, ok, err, panicked, ◌>>=◌, feature_not_found}
use natun.Api.Value.{Value}
use natun.Api.Descriptor.{
  FeatureDescriptor, Manifest, is_empty, valid_window, feature_fqn, descriptor_from_manifest,
}
use natun.Api.Bucket.{bucket_name, bucket_time}
use natun.Api.Keys.{Keys}
use natun.Engine.World.{CollectNotification, WriteNotification}
use natun.Redis.Window.{RawBucket}
use natun.Redis.DeadBuckets.{split_first, split_last}

abbrev pub dead_request_marker : Text
dead_request_marker = codes "*dead*"

-- The reads of api.State.
pub record StateReads (F S : Type 0) : Type 0 where
  pub get : ℕ → FeatureDescriptor → Keys → ℕ → S → Result (Option (Value F))
  pub window_buckets : FeatureDescriptor → Keys → List Text → S → Result (List (RawBucket F))
  pub dead_window_buckets :
      ℕ → FeatureDescriptor → List (RawBucket F) → S → Result (List (RawBucket F))

-- api.HistoricalWriter over its storage H; M is the specification of a model.
pub record HistoricalWriter (F M H : Type 0) : Type 0 where
  pub commit : WriteNotification F → H → Result (Unit {0}) × H
  pub flush_all : H → Result (Unit {0}) × H
  pub bind : FeatureDescriptor → Option M → H → Result (Unit {0}) × H

-- ttlcache.Cache: `add` is Set with the time to live.
pub record BucketCache (C : Type 0) : Type 0 where
  pub empty : C
  pub items : C → List Text
  pub add : Text → ℕ → C → C

-- `later_collects` holds the calls of AddAfter, with their delays. `handled_buckets` is nil before the
-- collector runs.
pub record Historian (F H C : Type 0) : Type 0 where
  pub fds : List (Text × FeatureDescriptor)
  pub handled_buckets : Option C
  pub collect_tasks : List CollectNotification
  pub later_collects : List (CollectNotification × ℕ)
  pub write_tasks : List (WriteNotification F)
  pub writes : ℕ
  pub history : H

-- contains
unfoldable pub contains_name : List Text → Text → Bool
contains_name [] i = false
contains_name (a ∷ s) i = text_eq a i || contains_name s i

-- deadBucketKey
unfoldable pub dead_bucket_key : Text → Text → Text → Text
dead_bucket_key fqn bucket eid = fqn ++ (b'/' ∷ (bucket ++ (b':' ∷ eid)))

-- fromDeadBucketKey; it panics where a separator is missing.
unfoldable pub from_dead_bucket_key : Text → Result (Text × Text × Text)
from_dead_bucket_key k = elim (split_first b'/' k) [
  | none ↦ panicked
  | some (fqn, rest) ↦ elim (split_last b':' rest) [
    | none ↦ panicked
    | some (bucket, eid) ↦ ok (fqn, bucket, eid)
  ]
]

-- timeTillNextBucket. The product with 0.9 in float64 is the exact one, cut off to a whole number, which is right
-- below 2^50 ns (13 days). A time below zero is 0 here, and AddAfter does not wait for either.
unfoldable pub time_till_next_bucket : ℕ → ℕ → Result ℕ
time_till_next_bucket now size =
    bucket_time (bucket_name now size) size >>= λ t. ok ((t + size - now) * 9 / 10)

abbrev pub dead_request : Text → CollectNotification
dead_request fqn = record { fqn = fqn; encoded_keys = []; bucket = dead_request_marker }

-- The specification of a model, read from the raw builder of the manifest (encoding/json)
unfoldable pub model_of :
    {M : Type 0} → (Manifest → Result M) → FeatureDescriptor → Manifest → Result (Option M)
model_of read_model fd m =
    if text_eq fd.builder (codes "model")
    then (read_model m >>= λ spec. ok (some spec))
    else ok none

module _ {F H C : Type 0} where
  -- UnbindFeature
  unfoldable pub unbind_feature : Text → Historian F H C → Historian F H C
  unbind_feature fqn h = record h { fds = delete fqn h.fds }

  -- HasFeature
  unfoldable pub has_feature : Text → Historian F H C → Bool
  has_feature fqn h = elim (lookup fqn h.fds) [ none ↦ false | some fd ↦ true ]

  -- FeatureDescriptor
  unfoldable pub feature_descriptor : Text → Historian F H C → Result FeatureDescriptor
  feature_descriptor fqn h = elim (lookup fqn h.fds) [
    | none ↦ err feature_not_found
    | some fd ↦ ok fd
  ]

  -- h.writeTasks.queue.Add
  abbrev pub add_write : WriteNotification F → Historian F H C → Historian F H C
  add_write n h = record h { write_tasks = h.write_tasks ++ (n ∷ []) }

  -- h.collectTasks.queue.Add
  abbrev pub add_collect : CollectNotification → Historian F H C → Historian F H C
  add_collect n h = record h { collect_tasks = h.collect_tasks ++ (n ∷ []) }

  -- h.collectTasks.queue.AddAfter
  abbrev pub add_collect_after : CollectNotification → ℕ → Historian F H C → Historian F H C
  add_collect_after n delay h = record h { later_collects = h.later_collects ++ ((n, delay) ∷ []) }

  -- The start of Collector
  unfoldable pub start_collector : BucketCache C → Historian F H C → Historian F H C
  start_collector cache h = record h {
    handled_buckets = elim h.handled_buckets [ none ↦ some cache.empty | some c ↦ some c ];
  }

  -- The end of BindFeature, behind the writer
  unfoldable pub keep_feature : FeatureDescriptor → Text → Historian F H C → Historian F H C
  keep_feature fd fqn h =
      if is_empty fd.data_source
      then h
      else (let h' = if valid_window fd then add_collect (dead_request fd.fqn) h else h in
          record h' { fds = insert fqn fd h'.fds })

  abbrev pub bound :
      Result (Unit {0})
      → FeatureDescriptor
      → Text
      → Historian F H C
      → Result (Unit {0}) × Historian F H C
  bound panicked fd fqn h = (panicked, h)
  bound (err e) fd fqn h = (err e, h)
  bound (ok _) fd fqn h = (ok tt, keep_feature fd fqn h)

  unfoldable pub bind_descriptor :
      {M : Type 0}
      → HistoricalWriter F M H
      → Manifest
      → Result (FeatureDescriptor × Option M)
      → Historian F H C
      → Result (Unit {0}) × Historian F H C
  bind_descriptor writer m panicked h = (panicked, h)
  bind_descriptor writer m (err e) h = (err e, h)
  bind_descriptor writer m (ok (fd, model)) h =
      let (r, history) = writer.bind fd model h.history in
      bound r fd (feature_fqn m) (record h { history = history })

  -- BindFeature
  unfoldable pub bind_feature :
      {M : Type 0}
      → HistoricalWriter F M H
      → (Manifest → Result M)
      → Manifest
      → Historian F H C
      → Result (Unit {0}) × Historian F H C
  bind_feature writer read_model m h =
      bind_descriptor writer m
        (do fd ← (descriptor_from_manifest m).0; model ← model_of read_model fd m; ok (fd, model)) h
