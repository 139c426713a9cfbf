-- ===== src/Api/Bucket.antt =====
-- The time buckets of windowed features: api/windows.go.
-- A time is a number of nanoseconds since the Unix epoch; times before it are not represented, and
-- a subtraction that would reach one stops at 0.
pub mod Bounds
pub mod Windows
use natun.Prelude.{
  ℕ, zero, suc, ◌+◌, ◌-◌, ◌*◌, ◌/◌, ◌%◌, ◌≤◌, ◌<◌, ◌≡◌, refl, List, [], ◌∷◌, Option, none, some,
  arith,
}
use natun.Prelude.Int.{ℤ, pos, negsuc, pos_part}
use natun.Prelude.Text.{Text}
use natun.Prelude.Digits.{format_int, parse_int}
use natun.Api.Errors.{Result, ok, err, panicked, ◌>>=◌}

-- DeadGracePeriod = time.Minute * 10
abbrev pub dead_grace_period : ℕ
dead_grace_period = 600_000_000_000

-- The nanoseconds from January 1 of year 1, from where Time.Truncate counts, to the Unix epoch.
-- A constant that stays shut: the proofs hold for any such offset.
unfoldable pub epoch : ℕ
epoch = 62_135_596_800_000_000_000

-- ts.Truncate(bucketSize).UnixNano() for a positive size
unfoldable pub truncate : ℕ → ℕ → ℕ
truncate ts size = ts - (ts + epoch) % size

unfoldable pub bucket_index : ℕ → ℕ → ℕ
bucket_index ts size = truncate ts size / size

-- BucketName
unfoldable pub bucket_name : ℕ → ℕ → Text
bucket_name ts size = format_int 34 (pos (bucket_index ts size))

-- BucketTime. The product does not wrap for a name that BucketName made: it is at most the time
-- that the name was made of.
unfoldable pub bucket_time : Text → ℕ → Result ℕ
bucket_time name size = elim (parse_int 34 name) [
  | none ↦ panicked
  | some n ↦ ok (pos_part n * size)
]

-- BucketDeadTime
unfoldable pub bucket_dead_time : Text → ℕ → ℕ → Result ℕ
bucket_dead_time name size staleness =
    bucket_time name size >>= λ t. ok (t + (staleness + dead_grace_period))

-- int(math.Ceil(float64(a) / float64(b))); the quotient is exact for durations below 2^53 ns, which
-- is 104 days.
unfoldable pub ceil_div : ℕ → ℕ → ℕ
ceil_div a b = (a + (b - 1)) / b

-- The loop `for i := …; i < numberOfBuckets; i++`, with the rounds that are left.
unfoldable pub bucket_names : ℕ → ℕ → ℕ → ℕ → List Text
bucket_names zero i time size = []
bucket_names (suc rounds) i time size =
    bucket_name (time - size * i) size ∷ bucket_names rounds (suc i) time size

-- AliveWindowBuckets at the time `now`
unfoldable pub alive_window_buckets : ℕ → ℕ → ℕ → List Text
alive_window_buckets staleness size now = bucket_names (ceil_div staleness size) 0 now size

-- ab[len(ab)-1] panics on an empty slice
unfoldable pub last : List Text → Result Text
last [] = panicked
last (x ∷ []) = ok x
last (x ∷ y ∷ ys) = last (y ∷ ys)

-- DeadWindowBuckets at the time `now`
unfoldable pub dead_window_buckets : ℕ → ℕ → ℕ → Result (List Text)
dead_window_buckets staleness size now =
    last (alive_window_buckets staleness size now) >>= λ oldest.
    bucket_time oldest size >>= λ start.
    ok (bucket_names (ceil_div dead_grace_period size) 0 (start - 1) size)
