-- ===== src/Tests/Window.antt =====
-- The theorem about the sum of a window (windows.go of internal/plugins/providers/state/redis) at a
-- concrete input.
use natun.Prelude.{◌≡◌, refl, Bool, true, false, [], ◌∷◌, ◌++◌, some, none}
use natun.Prelude.Text.{codes}
use natun.Api.Aggr.{sum, avg, count, aggr_eq, has_aggr}
use natun.Redis.Window.{RawBucket, put, window_result}
use natun.Redis.Window.Sums.{total, window_result-sum}
use natun.Tests.Data.{bits}

abbrev with_sum : RawBucket Bool
with_sum = record {
  fqn = codes "shop.price";
  bucket = codes "1a";
  encoded_keys = codes "7";
  raw = put sum true (λ g. none);
}

abbrev without_sum : RawBucket Bool
without_sum = record {
  fqn = codes "shop.price";
  bucket = codes "1b";
  encoded_keys = codes "7";
  raw = λ g. none;
}

no_sum_before : has_aggr sum (count ∷ []) ≡ false
unfolding has_aggr aggr_eq
no_sum_before = refl

no_sum_after : has_aggr sum (avg ∷ []) ≡ false
unfolding has_aggr aggr_eq
no_sum_after = refl

sum_example :
    window_result ((count ∷ []) ++ (sum ∷ avg ∷ [])) (with_sum ∷ without_sum ∷ []) sum
    ≡ some (total bits.zero_float (with_sum ∷ without_sum ∷ []))
sum_example =
    window_result-sum (count ∷ []) (avg ∷ []) with_sum (without_sum ∷ []) no_sum_before no_sum_after
