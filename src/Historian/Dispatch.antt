-- ===== src/Historian/Dispatch.antt =====
-- The handlers of the historian's queues: internal/historian/collect.go and write.go. They run at one
-- reading of the clock.

pub mod Once
pub mod Again
use natun.Prelude.{
  ℕ, zero, suc, ◌+◌, ◌%◌, ◌^◌, ◌≡◌, refl, Bool, true, false, not, ◌&&◌, List, [], ◌∷◌, ◌++◌, Option,
  none, some, ltb, if◌then◌else◌,
}
use natun.Prelude.Text.{Text, has_prefix}
use natun.Api.Errors.{Result, ok, err, panicked, ◌>>=◌, feature_not_found}
use natun.Api.Value.{FloatOps, Value, window, normalize_any}
use natun.Api.Descriptor.{FeatureDescriptor, is_empty, valid_window}
use natun.Api.Bucket.{dead_grace_period, bucket_time, dead_window_buckets}
use natun.Api.Keys.{decode}
use natun.Prelude.Text.{text_eq}
use natun.Engine.World.{CollectNotification, WriteNotification}
use natun.Redis.Window.{RawBucket}
use natun.Historian.Server.{
  StateReads, HistoricalWriter, BucketCache, Historian, contains_name, dead_bucket_key,
  from_dead_bucket_key, time_till_next_bucket, feature_descriptor, add_write, add_collect_after,
  dead_request, dead_request_marker,
}

-- The notification to write a bucket; an active one can still take values.
unfoldable pub write_of_bucket :
    {F : Type 0} → FeatureDescriptor → Bool → RawBucket F → Result (WriteNotification F)
write_of_bucket fd active b = do
  t ← bucket_time b.bucket fd.freshness
  ok (record {
    fqn = b.fqn;
    encoded_keys = b.encoded_keys;
    bucket = b.bucket;
    active_bucket = active;
    value = some (record { value = window b.raw; timestamp = t; fresh = false });
  })

-- The buckets that are handled, of the keys of the cache that belong to the feature.
unfoldable pub handled_of : {F : Type 0} → Text → List Text → Result (List (RawBucket F))
handled_of fqn [] = ok []
handled_of fqn (k ∷ ks) =
    let rest = handled_of fqn ks in
    if has_prefix k (fqn ++ (b'/' ∷ []))
    then (do
      (name, bucket, eid) ← from_dead_bucket_key k
      others ← rest
      ok (record { fqn = name; bucket = bucket; encoded_keys = eid; raw = λ g. none } ∷ others))
    else rest

-- The buckets that dispatchCollectDead reads: none of those that are handled. Items panics for a
-- cache that is nil.
unfoldable pub unhandled :
    {F C S : Type 0}
    → StateReads F S
    → BucketCache C
    → ℕ
    → FeatureDescriptor
    → S
    → Option C
    → Result (List (RawBucket F))
unhandled reads cache now fd s none = panicked
unhandled reads cache now fd s (some c) = do
  ignore ← handled_of fd.fqn (cache.items c)
  reads.dead_window_buckets now fd ignore s

module _ {F H C : Type 0} where
  -- A result that ends the handler, if it is not a success.
  abbrev pub after :
      {R : Type 0}
      → Result R
      → Historian F H C
      → (R → Result (Unit {0}) × Historian F H C)
      → Result (Unit {0}) × Historian F H C
  after panicked h next = (panicked, h)
  after (err e) h next = (err e, h)
  after (ok r) h next = next r

  -- The loop that queues the writes of dead buckets: a panic leaves the earlier ones queued.
  unfoldable pub add_dead :
      FeatureDescriptor → List (RawBucket F) → Historian F H C → Result (Unit {0}) × Historian F H C
  add_dead fd [] h = (ok tt, h)
  add_dead fd (b ∷ bs) h =
      after (write_of_bucket fd false b) h (λ n. add_dead fd bs (add_write n h))

  -- The same for the bucket of a notification.
  unfoldable pub add_buckets :
      FeatureDescriptor
      → List Text
      → List (RawBucket F)
      → Historian F H C
      → Result (Unit {0}) × Historian F H C
  add_buckets fd dead [] h = (ok tt, h)
  add_buckets fd dead (b ∷ bs) h =
      after (write_of_bucket fd (not (contains_name dead b.bucket)) b) h
        (λ n. add_buckets fd dead bs (add_write n h))

  module _ {S : Type 0} (reads : StateReads F S) (cache : BucketCache C) (now : ℕ) where
    -- The next dead collection, behind the loop
    unfoldable pub schedule_dead :
        FeatureDescriptor
        → Result (Unit {0}) × Historian F H C
        → Result (Unit {0}) × Historian F H C
    schedule_dead fd (r, h) = after r h (λ _.
        after (time_till_next_bucket now fd.freshness) h
          (λ delay. (ok tt, add_collect_after (dead_request fd.fqn) delay h)))

    -- dispatchCollectDead
    unfoldable pub dispatch_collect_dead :
        FeatureDescriptor → S → Historian F H C → Result (Unit {0}) × Historian F H C
    dispatch_collect_dead fd s h =
        after (unhandled reads cache now fd s h.handled_buckets) h
          (λ bs. schedule_dead fd (add_dead fd bs h))

    -- dispatchCollectWithWindow for the name of a bucket
    unfoldable pub dispatch_collect_bucket :
        CollectNotification
        → FeatureDescriptor
        → S
        → Historian F H C
        → Result (Unit {0}) × Historian F H C
    dispatch_collect_bucket n fd s h =
        let found : Result (List Text × List (RawBucket F)) = (do
          dead ← dead_window_buckets fd.staleness fd.freshness now
          keys ← decode n.encoded_keys fd []
          buckets ← reads.window_buckets fd keys (n.bucket ∷ []) s
          ok (dead, buckets)) in
        after found h (λ p. add_buckets fd p.0 p.1 h)

    -- dispatchCollectWithWindow
    unfoldable pub dispatch_collect_with_window :
        CollectNotification
        → FeatureDescriptor
        → S
        → Historian F H C
        → Result (Unit {0}) × Historian F H C
    dispatch_collect_with_window n fd s h =
        if is_empty n.bucket
        then (panicked, h)
        else if text_eq n.bucket dead_request_marker
        then dispatch_collect_dead fd s h
        else dispatch_collect_bucket n fd s h

    -- The part of dispatchCollect for a feature without windows. The value is nil where the state has none.
    unfoldable pub dispatch_collect_value :
        CollectNotification
        → FeatureDescriptor
        → S
        → Historian F H C
        → Result (Unit {0}) × Historian F H C
    dispatch_collect_value n fd s h =
        let found = (do keys ← decode n.encoded_keys fd []; reads.get now fd keys 0 s) in
        after found h (λ v. (
          ok tt,
          add_write
              (record {
                fqn = n.fqn;
                encoded_keys = n.encoded_keys;
                bucket = [];
                active_bucket = false;
                value = v;
              })
              h,
        ))

    -- dispatchCollect
    unfoldable pub dispatch_collect :
        CollectNotification → S → Historian F H C → Result (Unit {0}) × Historian F H C
    dispatch_collect n s h = after (feature_descriptor n.fqn h) h (λ fd.
        if valid_window fd
        then dispatch_collect_with_window n fd s h
        else dispatch_collect_value n fd s h)

  module _ {M : Type 0} (writer : HistoricalWriter F M H) (cache : BucketCache C) where
    -- The bucket of a committed notification is handled, unless it is active. Set panics for a cache
    -- that is nil.
    unfoldable pub mark_handled :
        WriteNotification F → Historian F H C → Result (Unit {0}) × Historian F H C
    mark_handled n h =
        if not (is_empty n.bucket) && not n.active_bucket
        then elim h.handled_buckets [
          | none ↦ (panicked, h)
          | some c ↦ (
            ok tt,
            record h {
              handled_buckets = some (
                  cache.add (dead_bucket_key n.fqn n.bucket n.encoded_keys)
                    (dead_grace_period + 60_000_000_000) c);
            },
          )
        ]
        else (ok tt, h)

    -- Commit, and what follows it
    unfoldable pub commit :
        WriteNotification F → Historian F H C → Result (Unit {0}) × Historian F H C
    commit n h =
        let (r, history) = writer.commit n h.history in
        let h' : Historian F H C = record h { history = history } in
        after r h' (λ _. mark_handled n h')

    -- dispatchWrite; a notification without a value is dereferenced and panics.
    unfoldable pub dispatch_write :
        ⦃ops : FloatOps F⦄
        → WriteNotification F
        → Historian F H C
        → Result (Unit {0}) × Historian F H C
    dispatch_write n h =
        let h' : Historian F H C = record h { writes = suc h.writes % 2 ^ 32 } in
        elim n.value [
          | none ↦ (panicked, h')
          | some v ↦
              after (normalize_any v.value) h'
                (λ nv. commit (record n { value = some (record v { value = nv }) }) h')
        ]

    -- finalizeWrite
    unfoldable pub finalize_write : Historian F H C → Result (Unit {0}) × Historian F H C
    finalize_write h =
        let (r, history) = writer.flush_all h.history in
        let h' : Historian F H C = record h { history = history } in
        elim r [
          | panicked ↦ (panicked, h')
          | err e ↦ (ok tt, h')
          | ok _ ↦ (ok tt, if ltb 0 h'.writes then record h' { writes = 0 } else h')
        ]

-- A handler that succeeds has a result at each of its steps.
pub after-ok :
    {F H C R : Type 0} (r : Result R) (h h' : Historian F H C)
    (next : R → Result (Unit {0}) × Historian F H C)
    → after r h next ≡ (ok tt, h')
    → (x : R) × (r ≡ ok x) × (next x ≡ (ok tt, h'))
after-ok panicked h h' next e = cc e
after-ok (err x) h h' next e = cc e
after-ok (ok x) h h' next e = (x, refl, e)
