-- ===== src/Api/Bucket/Windows.antt =====
-- The buckets that AliveWindowBuckets and DeadWindowBuckets list (api/windows.go).
use natun.Prelude.{
  ℕ, zero, suc, ◌+◌, ◌-◌, ◌*◌, ◌/◌, ◌%◌, ◌≤◌, ◌<◌, ◌≡◌, refl, sym, ◌∙◌, ap, List, [], ◌∷◌, ◌++◌,
  arith,
}
use native.Mathlib.Nat.{mod-lt, add-mod_right, div-eq-sub-div, div-eq_of_lt-le}
use natun.Prelude.Int.{pos}
use natun.Prelude.Text.{Text}
use natun.Prelude.Digits.{format_int, int64_limit}
use natun.Api.Errors.{Result, ok, ◌>>=◌}
use natun.Api.Bucket.{
  epoch, truncate, bucket_index, bucket_name, bucket_time, bucket_names, ceil_div,
  dead_grace_period, alive_window_buckets, dead_window_buckets, last,
}
use natun.Api.Bucket.Bounds.{lt-bucket_index, index_fits, bucket_time_index}

-- The names of `n` buckets one behind the other, the newest with index `b`.
unfoldable pub consecutive : ℕ → ℕ → List Text
consecutive zero b = []
consecutive (suc n) b = format_int 34 (pos b) ∷ consecutive n (b - 1)

consecutive-append : (n m b : ℕ) → consecutive n b ++ consecutive m (b - n) ≡ consecutive (n + m) b
unfolding consecutive
consecutive-append zero m b =
    let e : b - 0 ≡ b = omega arith in let f : 0 + m ≡ m = omega arith in rw (e, f)
consecutive-append (suc n) m b =
    let e : b - suc n ≡ b - 1 - n = omega arith in
    let f : suc n + m ≡ suc (n + m) = omega arith in
    rw (e, f) (ap (λ t. format_int 34 (pos b) ∷ t) (consecutive-append n m (b - 1)))

-- One bucket size earlier is the bucket before.
index_before :
    (ts size : ℕ)
    → 0 < size
    → 2 * size ≤ ts
    → bucket_index (ts - size) size + 1 ≡ bucket_index ts size
unfolding bucket_index truncate
index_before ts size h big =
    let e : ts + epoch ≡ ts - size + epoch + size = omega arith in
    let same : (ts + epoch) % size ≡ (ts - size + epoch) % size =
      rw e (add-mod_right (ts - size + epoch) size) in
    let r = (ts - size + epoch) % size in
    let below : r < size = mod-lt (ts - size + epoch) h in
    let swap : ts - size - r ≡ ts - r - size = omega arith in
    rw (same, swap) (sym (div-eq-sub-div h (omega arith)))

index_steps :
    (i ts size : ℕ)
    → 0 < size
    → size * suc i ≤ ts
    → bucket_index (ts - size * i) size + i ≡ bucket_index ts size
index_steps zero ts size h big = let e : ts - size * 0 ≡ ts = omega arith in rw e (omega arith)
index_steps (suc i) ts size h big =
    let e : ts - size * suc i ≡ ts - size * i - size = omega arith in
    rw e (
      omega (
        arith,
        index_before (ts - size * i) size h (omega arith),
        index_steps i ts size h (omega arith),
      ))

bucket_names-consecutive :
    (rounds i ts size : ℕ)
    → 0 < size
    → size * (rounds + i) ≤ ts
    → bucket_names rounds i ts size ≡ consecutive rounds (bucket_index ts size - i)
unfolding bucket_names consecutive bucket_name
bucket_names-consecutive zero i ts size h big = refl
bucket_names-consecutive (suc n) i ts size h big =
    let e : bucket_index (ts - size * i) size ≡ bucket_index ts size - i =
      omega (arith, index_steps i ts size h (omega arith)) in
    let f : bucket_index ts size - i - 1 ≡ bucket_index ts size - suc i = omega arith in
    rw (e, f)
      (ap (λ t. format_int 34 (pos (bucket_index ts size - i)) ∷ t)
        (bucket_names-consecutive n (suc i) ts size h (omega arith)))

-- The instant before the time that BucketTime gives for a bucket is in the bucket before it.
index_of_end : (k size : ℕ) → 0 < size → bucket_index (suc k * size - 1) size ≡ k
unfolding bucket_index truncate
index_of_end k size h =
    let below = mod-lt (suc k * size - 1 + epoch) h in
    div-eq_of_lt-le size (omega arith) (omega arith)

last-consecutive : (n b : ℕ) → last (consecutive (suc n) b) ≡ ok (format_int 34 (pos (b - n)))
unfolding last consecutive
last-consecutive zero b = let e : b - 0 ≡ b = omega arith in rw e
last-consecutive (suc n) b =
    let e : b - suc n ≡ b - 1 - n = omega arith in rw e (last-consecutive n (b - 1))

names_before :
    (k m size : ℕ)
    → 0 < size
    → size * m ≤ suc k * size - 1
    → bucket_names m 0 (suc k * size - 1) size ≡ consecutive m k
names_before k m size h hm =
    let e : bucket_index (suc k * size - 1) size - 0 ≡ k = omega (arith, index_of_end k size h) in
    bucket_names-consecutive m 0 (suc k * size - 1) size h (omega arith) ∙ rw e

-- DeadWindowBuckets for a list of alive buckets and a number of dead ones.
abbrev dead_after : List Text → ℕ → ℕ → Result (List Text)
dead_after alive m size = do
  oldest ← last alive
  start ← bucket_time oldest size
  ok (bucket_names m 0 (start - 1) size)

-- The oldest bucket alive has a start, and the instant before it lies in the next older bucket.
dead_after-consecutive :
    (n m b size : ℕ)
    → 0 < size
    → suc n ≤ b
    → b < int64_limit
    → size * m ≤ (b - n) * size - 1
    → dead_after (consecutive (suc n) b) m size ≡ ok (consecutive m (b - suc n))
dead_after-consecutive n m b size h hn hb hm =
    let e : b - n ≡ suc (b - suc n) = omega arith in
    rw (last-consecutive n b) (
      rw (bucket_time_index (b - n) size (omega arith))
        (ap ok (rw e (names_before (b - suc n) m size h (rw e at hm)))))

-- The newest index is large enough for as many buckets as fit before `now`.
room : (c size now b : ℕ) → 0 < size → size * (c + 1) ≤ now → now < b * size + 2 * size → c ≤ b
room c size now b h big lt = grind arith

tail_fits : (k m size : ℕ) → 0 < size → m + 1 ≤ k → size * m ≤ k * size - 1
tail_fits k m size h le = grind arith

counted :
    (n m size now : ℕ)
    → 0 < size
    → now < int64_limit
    → size * (suc n + m + 1) ≤ now
    → let alive = bucket_names (suc n) 0 now size in
      (dead : List Text) × (dead_after alive m size ≡ ok dead)
      × (alive ++ dead ≡ consecutive (suc n + m) (bucket_index now size))
counted n m size now h lim big =
    let b = bucket_index now size in
    let below : now < b * size + 2 * size = lt-bucket_index now size h in
    let small : b < int64_limit = omega (arith, index_fits now size h) in
    let fits : suc n + m ≤ b = room (suc n + m) size now b h big below in
    let e : b - 0 ≡ b = omega arith in
    let names : bucket_names (suc n) 0 now size ≡ consecutive (suc n) b =
      bucket_names-consecutive (suc n) 0 now size h (omega arith) ∙ rw e in
    (
      consecutive m (b - suc n),
      rw names (
          dead_after-consecutive n m b size h (omega arith) small
            (tail_fits (b - n) m size h (omega arith))),
      rw names (consecutive-append (suc n) m b),
    )

ceil_div-pos : (a b : ℕ) → 0 < b → 0 < a → (n : ℕ) × (ceil_div a b ≡ suc n)
unfolding ceil_div
ceil_div-pos a b hb ha =
    let e = div-eq-sub-div {m = b} {n = a + (b - 1)} hb (omega arith) in
    ((a + (b - 1) - b) / b, e ∙ omega arith)

-- For a positive size and staleness, at a time in int64 that is as many bucket sizes after the epoch
-- as there are buckets and one more: the dead buckets exist, and the alive and the dead ones together
-- are consecutive buckets without a gap, the newest of them that of the present.
pub alive-dead-consecutive :
    (staleness size now : ℕ)
    → 0 < size
    → 0 < staleness
    → now < int64_limit
    → size * (ceil_div staleness size + ceil_div dead_grace_period size + 1) ≤ now
    → (dead : List Text) × (dead_window_buckets staleness size now ≡ ok dead)
      × (alive_window_buckets staleness size now ++ dead
          ≡ consecutive
              (ceil_div staleness size + ceil_div dead_grace_period size)
              (bucket_index now size))
unfolding dead_window_buckets alive_window_buckets
alive-dead-consecutive staleness size now h hs lim big =
    let (n, e) = ceil_div-pos staleness size h hs in
    rw e (counted n (ceil_div dead_grace_period size) size now h lim (rw e at big))
