-- ===== src/Tests/Sdk.antt =====
-- The theorems about the conversions of pkg/sdk at concrete inputs.
use natun.Prelude.{ℕ, ◌<◌, ◌≡◌, ap, ◌^◌, Bool, [], ◌∷◌, arith, Option, some, none}
use natun.Prelude.Int.{ℤ, pos, negsuc}
use natun.Api.Errors.{ok}
use natun.Api.Value.{AnyValue, slice, go_int, normalize_any}
use natun.Api.Descriptor.{KeepPrevious}
use natun.Sdk.Wire.{WireValue}
use natun.Sdk.Convert.{
  boxed, to_api_value, from_value, to_api_feature_descriptor, from_api_feature_descriptor,
}
use natun.Sdk.RoundTrip.{
  IsSendable, FitsValue, from_api_feature_descriptor-to_api_feature_descriptor, arrived,
  to_api_value-arrived,
}
use natun.Tests.Data.{price, duration_pairs, nano_timestamps}

abbrev pub two_ints : AnyValue Bool
two_ints = slice go_int (pos 2_147_483_647 ∷ negsuc 2_147_483_647 ∷ [])

pub two_ints-FitsValue : FitsValue two_ints
unfolding boxed
two_ints-FitsValue = (omega arith, (omega arith, tt))

arrived_example :
    (w : Option (WireValue Bool ℤ)) × (to_api_value two_ints ≡ ok w)
    × (from_value w ≡ ok (arrived Bool ℤ two_ints))
    × (normalize_any (arrived Bool ℤ two_ints) ≡ ok two_ints)
arrived_example = to_api_value-arrived Bool ℤ two_ints two_ints-FitsValue

two_versions :
    (kp : KeepPrevious)
    → price.keep_previous ≡ some kp
    → (kp.versions < 2 ^ 32) × (kp.over < 2 ^ 63)
two_versions kp h =
    let v : 2 ≡ kp.versions =
      cc (ap (λ o. elim o as (λ _. ℕ) [ none ↦ 0 | some k ↦ k.versions ]) h) in
    let o : 86_400_000_000_000 ≡ kp.over =
      cc (ap (λ o. elim o as (λ _. ℕ) [ none ↦ 0 | some k ↦ k.over ]) h) in
    (omega arith, omega arith)

pub price-IsSendable : IsSendable price
price-IsSendable = record {
  freshness = omega arith;
  staleness = omega arith;
  timeout = omega arith;
  kept = two_versions;
}

sent_descriptor_example :
    from_api_feature_descriptor (to_api_feature_descriptor {D = ℕ × ℕ} price)
    ≡ record price { keys = []; runtime_env = []; dependencies = [] }
sent_descriptor_example =
    from_api_feature_descriptor-to_api_feature_descriptor (ℕ × ℕ) price price-IsSendable
