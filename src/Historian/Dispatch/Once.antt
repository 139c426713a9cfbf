-- ===== src/Historian/Dispatch/Once.antt =====
-- A dead bucket is written once: dispatchWrite of internal/historian/write.go and dispatchCollectDead of
-- collect.go, over DeadWindowBuckets of internal/plugins/providers/state/redis/windows.go.
use natun.Prelude.{
  ℕ, suc, ◌+◌, ◌%◌, ◌^◌, ◌≡◌, ◌≢◌, refl, sym, ◌∙◌, ap, ◌⊎◌, true, false, ◌||◌, List, [], ◌∷◌, ◌++◌,
  some, arith, All, Bool-cases, Option-cases, inl, inr,
}
use mathlib.Core.List.{append_assoc, append-nil}
use natun.Prelude.Text.{Text, text_eq, text_eq-eq, text_eq_refl, has_prefix}
use natun.Api.Errors.{Result, ok, ◌>>=◌, >>=-eq-ok, ok-injective}
use natun.Api.Value.{FloatOps, normalize_any}
use natun.Api.Descriptor.{FeatureDescriptor, is_empty}
use natun.Api.Bucket.{bucket_time, dead_grace_period}
use natun.Api.Keys.{encode}
use natun.Engine.World.{WriteNotification}
use natun.Redis.Command.{window_key}
use natun.Redis.Read.{RedisReads}
use natun.Redis.Window.{RawBucket, RedisHashes, window_buckets, get_state}
use natun.Redis.DeadBuckets.{from_window_key, ignore_key, RedisScans, dead_buckets}
use natun.Redis.DeadBuckets.WindowKeys.{window_key-from_window_key}
use natun.Redis.DeadBuckets.Ignored.{IsOtherBucket, dead_buckets-ignored}
use natun.Historian.Server.{
  StateReads, HistoricalWriter, BucketCache, Historian, contains_name, dead_bucket_key,
  from_dead_bucket_key, time_till_next_bucket, add_write,
}
use natun.Historian.Dispatch.{
  write_of_bucket, handled_of, unhandled, add_dead, schedule_dead, dispatch_collect_dead,
  mark_handled, commit, dispatch_write, after-ok,
}

-- The reads of the state that the Redis provider gives.
unfoldable pub redis_reads :
    {F S : Type 0}
    → ⦃ops : FloatOps F⦄ → RedisReads S
    → RedisHashes S
    → RedisScans S
    → StateReads F S
redis_reads reads hashes scans = record {
  get = λ now fd keys version s. get_state hashes reads now fd keys version s;
  window_buckets =
      λ fd keys names s. encode keys fd >>= λ encoded. window_buckets hashes fd.fqn encoded names s;
  dead_window_buckets = λ now fd ignore s. dead_buckets hashes scans now fd ignore s;
}

from_dead_bucket_key-same : (k : Text) → from_dead_bucket_key k ≡ from_window_key k
unfolding from_dead_bucket_key from_window_key
from_dead_bucket_key-same k = refl

module _ {F : Type 0} where
  taken_ignored :
      (k key name bucket eid : Text) (others : List (RawBucket F))
      → from_dead_bucket_key k ≡ ok (name, bucket, eid)
      → (text_eq k key ≡ true) ⊎ (ignore_key others key ≡ true)
      → text_eq (window_key name bucket eid) key || ignore_key others key ≡ true
  taken_ignored k key name bucket eid others e (inl same) =
      let back : window_key name bucket eid ≡ key =
        window_key-from_window_key k name bucket eid (sym (from_dead_bucket_key-same k) ∙ e)
        ∙ text_eq-eq k key same in
      rw back (rw (text_eq_refl key) refl)
  taken_ignored k key name bucket eid others e (inr h) = ground (arith, h)

  handled_of-ignored :
      (fqn key : Text) (ks : List Text) (ignore : List (RawBucket F))
      → has_prefix key (fqn ++ (b'/' ∷ [])) ≡ true
      → contains_name ks key ≡ true
      → handled_of fqn ks ≡ ok ignore
      → ignore_key ignore key ≡ true
  unfolding handled_of contains_name ignore_key
  handled_of-ignored fqn key [] ignore p m e = cc m
  handled_of-ignored fqn key (k ∷ ks) ignore p m e =
      elim (Bool-cases (has_prefix k (fqn ++ (b'/' ∷ [])))) [
        | inl own ↦
            let ((name, bucket, eid), parts, e') =
              >>=-eq-ok (from_dead_bucket_key k) _ (rw own at e) in
            let (others, rest, e'') = >>=-eq-ok (handled_of fqn ks) _ e' in
            rw (← ok-injective e'') (
              taken_ignored k key name bucket eid others parts (elim (Bool-cases (text_eq k key)) [
                | inl same ↦ inl same
                | inr ne ↦ inr (handled_of-ignored fqn key ks others p (rw ne at m) rest)
              ]))
        | inr foreign ↦ elim (Bool-cases (text_eq k key)) [
          | inl same ↦ cc (p, rw (text_eq-eq k key same) at foreign)
          | inr ne ↦ handled_of-ignored fqn key ks ignore p (rw ne at m) (rw foreign at e)
        ]
      ]

  -- The notification of a bucket has the bucket's key.
  abbrev pub IsOtherWrite : Text → WriteNotification F → Type 0
  IsOtherWrite key n = window_key n.fqn n.bucket n.encoded_keys ≢ key

  write_of_bucket-IsOtherWrite :
      (fd : FeatureDescriptor) (key : Text) (b : RawBucket F) (n : WriteNotification F)
      → IsOtherBucket key b
      → write_of_bucket fd false b ≡ ok n
      → IsOtherWrite key n
  unfolding write_of_bucket
  write_of_bucket-IsOtherWrite fd key b n h e =
      let (t, _, e') = >>=-eq-ok (bucket_time b.bucket fd.freshness) _ e in rw (← ok-injective e') h

  -- A loop over dead buckets that succeeds adds their writes, and changes nothing but the writes.
  add_dead-adds :
      {H C : Type 0} (fd : FeatureDescriptor) (key : Text) (bs : List (RawBucket F))
      (h h' : Historian F H C)
      → All (IsOtherBucket key) bs
      → add_dead fd bs h ≡ (ok tt, h')
      → (new : List (WriteNotification F)) × (h'.write_tasks ≡ h.write_tasks ++ new)
        × All (IsOtherWrite key) new
  unfolding add_dead
  add_dead-adds fd key [] h h' a e =
      let same : h ≡ h' = ap (λ p. p.1) e in ([], rw (← same) (sym (append-nil h.write_tasks)), tt)
  add_dead-adds fd key (b ∷ bs) h h' (other, others) e =
      let (n, w, e') =
        after-ok (write_of_bucket fd false b) h h' (λ n. add_dead fd bs (add_write n h)) e in
      let (new, added, rest) = add_dead-adds fd key bs (add_write n h) h' others e' in
      (
        n ∷ new,
        added ∙ append_assoc h.write_tasks (n ∷ []) new,
        (write_of_bucket-IsOtherWrite fd key b n other w, rest),
      )

module _ {F S H C : Type 0} ⦃ops : FloatOps F⦄ (reads : RedisReads S) (hashes : RedisHashes S)
    (scans : RedisScans S) (cache : BucketCache C) (now : ℕ) where
  schedule_dead-writes :
      (state : StateReads F S) (fd : FeatureDescriptor) (r : Result (Unit {0}))
      (h h' : Historian F H C)
      → schedule_dead state cache now fd (r, h) ≡ (ok tt, h')
      → (r ≡ ok tt) × (h'.write_tasks ≡ h.write_tasks)
  unfolding schedule_dead
  schedule_dead-writes state fd r h h' e =
      let (u, er, e') = after-ok r h h' _ e in
      let (delay, _, e'') = after-ok (time_till_next_bucket now fd.freshness) h h' _ e' in
      (er, sym (ap (λ p. p.1.write_tasks) e''))

  -- Once the cache has the key of a bucket, a dead collection that succeeds queues no write of it.
  dispatch_collect_dead-others :
      (fd : FeatureDescriptor) (key : Text) (c : C) (s : S) (h h' : Historian F H C)
      → h.handled_buckets ≡ some c
      → has_prefix key (fd.fqn ++ (b'/' ∷ [])) ≡ true
      → contains_name (cache.items c) key ≡ true
      → dispatch_collect_dead (redis_reads reads hashes scans) cache now fd s h ≡ (ok tt, h')
      → (new : List (WriteNotification F)) × (h'.write_tasks ≡ h.write_tasks ++ new)
        × All (IsOtherWrite key) new
  unfolding dispatch_collect_dead unhandled redis_reads
  dispatch_collect_dead-others fd key c s h h' hc own has e =
      let (bs, found, e') =
        after-ok (unhandled (redis_reads reads hashes scans) cache now fd s h.handled_buckets) h h'
          _ e in
      let (ignore, taken, listed) =
        >>=-eq-ok (handled_of fd.fqn (cache.items c)) _ (rw hc at found) in
      let others =
        dead_buckets-ignored hashes scans now fd ignore bs s key
          (handled_of-ignored fd.fqn key (cache.items c) ignore own has taken) listed in
      let (r, h'') = add_dead fd bs h in
      let (done, same) = schedule_dead-writes (redis_reads reads hashes scans) fd r h'' h' e' in
      let (new, added, rest) = add_dead-adds fd key bs h h'' others (ap (λ x. (x, h'')) done) in
      (new, same ∙ added, rest)

-- What a TTL cache is for: a key that is added is there, until its time is over.
abbrev pub Keeps : {C : Type 0} → BucketCache C → Type 0
Keeps {C = C} cache =
    (key : Text) (ttl : ℕ) (c : C) → contains_name (cache.items (cache.add key ttl c)) key ≡ true

module _ {F H C M : Type 0} (writer : HistoricalWriter F M H) (cache : BucketCache C)
    (keeps : Keeps cache) where
  -- The cache has the key.
  abbrev IsHandled : Text → Historian F H C → Type 0
  IsHandled key h =
      (c : C) × (h.handled_buckets ≡ some c) × (contains_name (cache.items c) key ≡ true)

  mark_handled-IsHandled :
      (n : WriteNotification F) (h h' : Historian F H C)
      → is_empty n.bucket ≡ false
      → n.active_bucket ≡ false
      → mark_handled writer cache n h ≡ (ok tt, h')
      → IsHandled (dead_bucket_key n.fqn n.bucket n.encoded_keys) h'
  unfolding mark_handled
  mark_handled-IsHandled n h h' he ha e = elim (Option-cases h.handled_buckets) [
    | inl none_yet ↦ cc (rw none_yet at (rw ha at (rw he at e)))
    | inr (c, some_c) ↦
        let key = dead_bucket_key n.fqn n.bucket n.encoded_keys in
        let same = ap (λ p. p.1.handled_buckets) (rw some_c at (rw ha at (rw he at e))) in
        (cache.add key (dead_grace_period + 60_000_000_000) c, sym same, keeps key _ c)
  ]

  dispatch_write-IsHandled :
      ⦃ops : FloatOps F⦄ (n : WriteNotification F) (h h' : Historian F H C)
      → is_empty n.bucket ≡ false
      → n.active_bucket ≡ false
      → dispatch_write writer cache n h ≡ (ok tt, h')
      → IsHandled (dead_bucket_key n.fqn n.bucket n.encoded_keys) h'
  unfolding dispatch_write commit
  dispatch_write-IsHandled n h h' he ha e = elim (Option-cases n.value) [
    | inl nil ↦ cc (rw nil at e)
    | inr (v, has) ↦
        let h1 : Historian F H C = record h { writes = suc h.writes % 2 ^ 32 } in
        let (nv, _, e') = after-ok (normalize_any v.value) h1 h' _ (rw has at e) in
        let n' : WriteNotification F = record n { value = some (record v { value = nv }) } in
        let (r, history) = writer.commit n' h.history in
        let h2 : Historian F H C = record h1 { history = history } in
        let (u, _, e'') = after-ok r h2 h' _ e' in mark_handled-IsHandled n' h2 h' he ha e''
  ]

has_prefix-longer : (a : Text) (c : ℕ) (b : Text) → has_prefix (a ++ (c ∷ b)) (a ++ (c ∷ [])) ≡ true
has_prefix-longer [] c b = ground arith
has_prefix-longer (d ∷ a) c b = ground (arith, has_prefix-longer a c b)

-- The write of a dead bucket that the writer of historical data has committed is not queued again: a
-- collection of the feature's dead buckets at any later time that succeeds, while the cache of handled
-- buckets has not dropped the key, only queues writes of other window keys, after those that were
-- queued before.
pub dispatch_write-once :
    {F S H C M : Type 0} ⦃ops : FloatOps F⦄ (reads : RedisReads S) (hashes : RedisHashes S)
    (scans : RedisScans S) (writer : HistoricalWriter F M H) (cache : BucketCache C) (now : ℕ)
    (fd : FeatureDescriptor) (n : WriteNotification F) (s : S) (h h' h'' : Historian F H C)
    → Keeps cache
    → n.fqn ≡ fd.fqn
    → is_empty n.bucket ≡ false
    → n.active_bucket ≡ false
    → dispatch_write writer cache n h ≡ (ok tt, h')
    → dispatch_collect_dead (redis_reads reads hashes scans) cache now fd s h' ≡ (ok tt, h'')
    → (new : List (WriteNotification F)) × (h''.write_tasks ≡ h'.write_tasks ++ new)
      × All (IsOtherWrite (window_key n.fqn n.bucket n.encoded_keys)) new
unfolding dead_bucket_key window_key
dispatch_write-once reads hashes scans writer cache now fd n s h h' h'' keeps own he ha wrote
      collected =
    let (c, hc, has) = dispatch_write-IsHandled writer cache keeps n h h' he ha wrote in
    dispatch_collect_dead-others reads hashes scans cache now fd
      (dead_bucket_key n.fqn n.bucket n.encoded_keys) c s h' h'' hc
      (rw own (has_prefix-longer fd.fqn b'/' (n.bucket ++ (b':' ∷ n.encoded_keys)))) has collected
