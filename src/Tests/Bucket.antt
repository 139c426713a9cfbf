-- ===== src/Tests/Bucket.antt =====
-- The theorems about the buckets of api/windows.go at concrete inputs.
use natun.Prelude.{ℕ, ◌+◌, ◌*◌, ◌≤◌, ◌%◌, ◌≡◌, ◌≢◌, refl, List, ◌++◌, arith}
use natun.Prelude.Text.{Text}
use natun.Api.Errors.{ok}
use natun.Api.Bucket.{
  dead_grace_period, epoch, bucket_index, ceil_div, alive_window_buckets, dead_window_buckets,
}
use natun.Api.Bucket.Windows.{consecutive, alive-dead-consecutive}

-- November 14, 2023, in nanoseconds.
abbrev today : ℕ
today = 1_700_000_000_000_000_000

abbrev minute : ℕ
minute = 60_000_000_000

abbrev week : ℕ
week = 604_800_000_000_000

counts : minute * (ceil_div (60 * minute) minute + ceil_div dead_grace_period minute + 1) ≤ today
unfolding ceil_div
counts = omega arith

windows_example :
    (dead : List Text) × (dead_window_buckets (60 * minute) minute today ≡ ok dead)
    × (alive_window_buckets (60 * minute) minute today ++ dead
        ≡ consecutive
            (ceil_div (60 * minute) minute + ceil_div dead_grace_period minute)
            (bucket_index today minute))
windows_example =
    alive-dead-consecutive (60 * minute) minute today (omega arith) (omega arith) (omega arith)
      counts

minute_aligned : epoch % minute ≡ 0
unfolding epoch
minute_aligned = refl

week_misaligned : epoch % week ≢ 0
unfolding epoch
week_misaligned e = omega arith
