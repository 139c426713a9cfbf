-- ===== src/Historian/Dispatch/Again.antt =====
-- The collection of dead buckets goes on (dispatchCollectDead of internal/historian/collect.go and
-- timeTillNextBucket of historian.go).
use natun.Prelude.{
  ℕ, ◌+◌, ◌-◌, ◌*◌, ◌/◌, ◌%◌, ◌<◌, ◌≤◌, ◌≡◌, refl, ap, false, List, [], ◌∷◌, ◌++◌, arith,
}
use natun.Prelude.Text.{codes}
use natun.Prelude.Digits.{int64_limit}
use natun.Api.Errors.{Result, ok, err, panicked}
use natun.Api.Descriptor.{FeatureDescriptor}
use natun.Api.Bucket.{epoch, bucket_name, bucket_time}
use natun.Api.Bucket.Bounds.{bucket_time-aligned}
use natun.Engine.World.{WriteNotification}
use natun.Redis.Window.{RawBucket}
use natun.Historian.Server.{StateReads, BucketCache, Historian, time_till_next_bucket, add_write}
use natun.Historian.Dispatch.{
  after, write_of_bucket, unhandled, add_dead, schedule_dead, dispatch_collect_dead,
}

-- Nine tenths, cut off, of the time from `now` to the end of the present bucket, which is positive and at most
-- the size of a bucket.
pub record IsDelay (now size delay : ℕ) : Type 0 where
  pub start : ℕ
  pub same_start : bucket_time (bucket_name now size) size ≡ ok start
  pub before : start ≤ now
  pub behind : now < start + size
  pub at_most : 10 * delay ≤ 9 * (start + size - now)
  pub at_least : 9 * (start + size - now) < 10 * delay + 10

time_till_next_bucket-IsDelay :
    (now size : ℕ)
    → 0 < size
    → now < int64_limit
    → epoch % size ≡ 0
    → (delay : ℕ) × (time_till_next_bucket now size ≡ ok delay) × IsDelay now size delay
unfolding time_till_next_bucket
time_till_next_bucket-IsDelay now size h lim al =
    let (t, e, before, behind) = bucket_time-aligned now size h lim al in
    (
      (t + size - now) * 9 / 10,
      rw e refl,
      record {
        start = t;
        same_start = e;
        before = omega arith;
        behind = omega arith;
        at_most = omega arith;
        at_least = omega arith;
      },
    )

module _ {F H C : Type 0} where
  -- The delayed items of the queue behind a collection that succeeds, and behind one that does not.
  abbrev pub Continues :
      ℕ → FeatureDescriptor → Historian F H C → Result (Unit {0}) × Historian F H C → Type 0
  Continues now fd h (ok _, h') =
      (delay : ℕ) × IsDelay now fd.freshness delay
      × (h'.later_collects
          ≡ h.later_collects
            ++ ((record { fqn = fd.fqn; encoded_keys = []; bucket = codes "*dead*" }, delay) ∷ []))
  Continues now fd h (err e, h') = h'.later_collects ≡ h.later_collects
  Continues now fd h (panicked, h') = h'.later_collects ≡ h.later_collects

  after_write :
      (fd : FeatureDescriptor) (bs : List (RawBucket F)) (h : Historian F H C)
      (r : Result (WriteNotification F))
      → ((n : WriteNotification F)
          → (add_dead fd bs (add_write n h)).1.later_collects ≡ h.later_collects)
      → (after r h (λ n. add_dead fd bs (add_write n h))).1.later_collects ≡ h.later_collects
  after_write fd bs h panicked rest = refl
  after_write fd bs h (err e) rest = refl
  after_write fd bs h (ok n) rest = rest n

  add_dead_later :
      (fd : FeatureDescriptor) (bs : List (RawBucket F)) (h : Historian F H C)
      → (add_dead fd bs h).1.later_collects ≡ h.later_collects
  unfolding add_dead
  add_dead_later fd [] h = refl
  add_dead_later fd (b ∷ bs) h =
      after_write fd bs h (write_of_bucket fd false b) (λ n. add_dead_later fd bs (add_write n h))

module _ {F S H C : Type 0} (reads : StateReads F S) (cache : BucketCache C) (now : ℕ)
    (fd : FeatureDescriptor) (s : S) (h : Historian F H C) (size : 0 < fd.freshness)
    (limit : now < int64_limit) (aligned : epoch % fd.freshness ≡ 0) where
  schedule_dead-Continues :
      (r : Result (Unit {0})) (h' : Historian F H C)
      → h'.later_collects ≡ h.later_collects
      → Continues now fd h (schedule_dead reads cache now fd (r, h'))
  unfolding schedule_dead
  schedule_dead-Continues panicked h' same = same
  schedule_dead-Continues (err e) h' same = same
  schedule_dead-Continues (ok _) h' same =
      let (delay, e, within) = time_till_next_bucket-IsDelay now fd.freshness size limit aligned in
      rw e (
        delay,
        within,
        ap
            (λ l.
              l
              ++ ((record { fqn = fd.fqn; encoded_keys = []; bucket = codes "*dead*" }, delay)
                  ∷ []))
            same,
      )

  collected :
      (r : Result (List (RawBucket F)))
      → Continues now fd h (after r h (λ bs. schedule_dead reads cache now fd (add_dead fd bs h)))
  collected panicked = refl
  collected (err e) = refl
  collected (ok bs) =
      schedule_dead-Continues (add_dead fd bs h).0 (add_dead fd bs h).1 (add_dead_later fd bs h)

  -- A collection of the dead buckets of a feature, the size of whose buckets is positive and divides the offset
  -- of the epoch. Where it succeeds, it has added, as its last step and once, the next collection of this
  -- feature's dead buckets, behind nine tenths of the time to the end of the present bucket: within the
  -- size of a bucket. Where it ends with an error or a panic, it has added none.
  pub dispatch_collect_dead-Continues :
      Continues now fd h (dispatch_collect_dead reads cache now fd s h)
  unfolding dispatch_collect_dead
  dispatch_collect_dead-Continues = collected (unhandled reads cache now fd s h.handled_buckets)
