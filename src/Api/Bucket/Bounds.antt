-- ===== src/Api/Bucket/Bounds.antt =====
-- How a time and the start that BucketTime gives for its bucket lie (api/windows.go).
use natun.Prelude.{ℕ, zero, suc, ◌+◌, ◌-◌, ◌*◌, ◌/◌, ◌%◌, ◌≤◌, ◌<◌, ◌≡◌, ◌≢◌, sym, ◌∙◌, some, arith}
use native.Mathlib.Nat.{
  mod-lt, div-add-mod', div-mul-le_self, add-mod-mod, add-zero, add_comm, add-mul-mod_self_right,
  div-eq_of_lt-le, mul-div_left,
}
use natun.Prelude.Int.{pos}
use natun.Prelude.Text.{Text}
use natun.Prelude.Digits.{format_int, parse_int, parse_int-format_int, int64_limit}
use natun.Api.Errors.{ok}
use natun.Api.Bucket.{epoch, truncate, bucket_index, bucket_name, bucket_time}

pub bucket_index-le : (ts size : ℕ) → bucket_index ts size * size ≤ ts
unfolding bucket_index truncate
bucket_index-le ts size = omega (arith, div-mul-le_self (ts - (ts + epoch) % size) size)

pub lt-bucket_index : (ts size : ℕ) → 0 < size → ts < bucket_index ts size * size + 2 * size
unfolding bucket_index truncate
lt-bucket_index ts size h =
    let t = ts - (ts + epoch) % size in
    omega (arith, div-add-mod' t size, mod-lt t h, mod-lt (ts + epoch) h)

pub index_fits : (ts size : ℕ) → 0 < size → bucket_index ts size ≤ ts
index_fits ts size h = grind (arith, bucket_index-le ts size)

bucket_time_of :
    (name : Text) (n size : ℕ)
    → parse_int 34 name ≡ some (pos n)
    → bucket_time name size ≡ ok (n * size)
unfolding bucket_time
bucket_time_of name n size h = rw (h, bucket_time)

pub bucket_time_index :
    (n size : ℕ) → n < int64_limit → bucket_time (format_int 34 (pos n)) size ≡ ok (n * size)
bucket_time_index n size h =
    bucket_time_of (format_int 34 (pos n)) n size
      (parse_int-format_int 34 (pos n) (omega arith) (omega arith) h)

-- BucketTime of a name that BucketName made is the index times the size.
pub bucket_time-bucket_name :
    (ts size : ℕ)
    → 0 < size
    → ts < int64_limit
    → bucket_time (bucket_name ts size) size ≡ ok (bucket_index ts size * size)
unfolding bucket_name
bucket_time-bucket_name ts size h lim =
    bucket_time_index (bucket_index ts size) size (omega (arith, index_fits ts size h))

-- For a positive size and a time in int64, the start of its bucket as BucketTime gives it is not
-- after the time, and less than two bucket sizes before it.
pub bucket_time_bounds :
    (ts size : ℕ)
    → 0 < size
    → ts < int64_limit
    → (t : ℕ) × (bucket_time (bucket_name ts size) size ≡ ok t) × (t ≤ ts) × (ts < t + 2 * size)
bucket_time_bounds ts size h lim = (
  bucket_index ts size * size,
  bucket_time-bucket_name ts size h lim,
  bucket_index-le ts size,
  lt-bucket_index ts size h,
)

-- If the size divides the offset of the epoch, the index is the plain quotient.
aligned_index : (ts size : ℕ) → 0 < size → epoch % size ≡ 0 → bucket_index ts size ≡ ts / size
unfolding bucket_index truncate
aligned_index ts size h al =
    let same : (ts + epoch) % size ≡ ts % size =
      sym (add-mod-mod ts epoch size) ∙ rw al (rw add-zero) in
    let whole : ts - ts % size ≡ ts / size * size = omega (arith, div-add-mod' ts size) in
    rw same (rw whole (mul-div_left (ts / size) h))

-- For a positive size that divides the offset between year 1 and the Unix epoch, a time in int64
-- lies in its bucket: not before the start that BucketTime gives, and before the start of the next.
pub bucket_time-aligned :
    (ts size : ℕ)
    → 0 < size
    → ts < int64_limit
    → epoch % size ≡ 0
    → (t : ℕ) × (bucket_time (bucket_name ts size) size ≡ ok t) × (t ≤ ts) × (ts < t + size)
bucket_time-aligned ts size h lim al = (
  bucket_index ts size * size,
  bucket_time-bucket_name ts size h lim,
  bucket_index-le ts size,
  rw (aligned_index ts size h al) (omega (arith, div-add-mod' ts size, mod-lt ts h)),
)

misaligned_step : (k size : ℕ) → 0 < size → epoch % size ≢ 0 → bucket_index (suc k * size) size ≡ k
unfolding bucket_index truncate
misaligned_step k size h al =
    let same : (suc k * size + epoch) % size ≡ epoch % size =
      rw (add_comm (suc k * size) epoch) (add-mul-mod_self_right epoch (suc k) size) in
    let below = mod-lt epoch h in rw same (div-eq_of_lt-le size (omega arith) (grind arith))

-- For a positive size that does not divide that offset, and a time at least two sizes after the Unix
-- epoch, the time that BucketTime gives lies not in the bucket, but in the one before it.
pub bucket_time-misaligned :
    (ts size : ℕ)
    → 0 < size
    → epoch % size ≢ 0
    → 2 * size ≤ ts
    → bucket_index (bucket_index ts size * size) size + 1 ≡ bucket_index ts size
bucket_time-misaligned ts size h al big = go (bucket_index ts size) (lt-bucket_index ts size h)
  where
    go : (b : ℕ) → ts < b * size + 2 * size → bucket_index (b * size) size + 1 ≡ b
    go zero lt = absurd (omega arith)
    go (suc k) lt = rw (misaligned_step k size h al) (omega arith)
