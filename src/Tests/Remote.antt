-- ===== src/Tests/Remote.antt =====
-- The theorems about an engine behind gRPC (pkg/sdk) at concrete inputs.
use natun.Prelude.{ℕ, ◌≡◌, refl, Bool, false, List, [], ◌∷◌}
use natun.Prelude.Int.{ℤ}
use natun.Prelude.Text.{Text, codes}
use natun.Api.Errors.{Result, ok, err, feature_not_found, value_mismatch}
use natun.Api.Value.{AnyValue, scalar, str, normalize_any}
use natun.Api.Keys.{Keys}
use natun.Api.Selector.{normalize_fqn}
use natun.Sdk.Service.{EngineOps, service_get, service_set}
use natun.Sdk.Client.{sent, client_get, client_set}
use natun.Sdk.Remote.{Relays, client_set-service_set}
use natun.Sdk.RemoteGet.{client_get-service_get}
use natun.Tests.Data.{bits, duration_pairs, nano_timestamps, price, two_keys, a_value}
use natun.Tests.Sdk.{two_ints, two_ints-FitsValue, price-IsSendable}

-- An engine that lists the values that it is given, and does not know how to increment.
abbrev Given : Type 0
Given = List (AnyValue Bool)

abbrev keep : Text → Keys → AnyValue Bool → ℕ → Given → Result (Unit {0}) × Given
keep selector keys v ts w = (ok tt, v ∷ w)

abbrev listing : EngineOps Bool Given
listing = record {
  feature_descriptor = λ selector w. err feature_not_found;
  get = λ selector keys w. (ok (a_value, price), w);
  set = keep;
  append = keep;
  incr = λ selector keys v ts w. (err feature_not_found, w);
  update = λ selector keys v ts w. (err value_mismatch, w);
  message = λ e. codes "value mismatch";
}

remote_set_example :
    (v' : AnyValue Bool) × (normalize_any v' ≡ ok two_ints)
    × (let (r, w') = listing.set (codes "shop.price") two_keys v' 5_000_000_000 [] in
        let (a, w'') =
          client_set {T = ℤ}
            (service_set {T = ℤ} listing 6_000_000_000)
            (codes "u")
            (codes "shop.price")
            two_keys
            two_ints
            5_000_000_000
            [] in
        Relays r a × (w'' ≡ w'))
remote_set_example =
    client_set-service_set ℤ listing 6_000_000_000 (codes "u") (codes "shop.price") two_keys
      two_ints 5_000_000_000 [] two_ints-FitsValue

known_name :
    normalize_fqn (codes "shop.price") (codes "undefined-namespace") ≡ ok (codes "shop.price")
unfolding normalize_fqn natun.Api.Selector.parse_selector natun.Api.Selector.of_submatch
    natun.Api.Selector.find_submatch natun.Api.Selector.match_fqn natun.Api.Selector.after_first
    natun.Api.Selector.match_name natun.Api.Selector.is_ident natun.Api.Selector.span
    natun.Api.Selector.is_word natun.Api.Selector.after_ident natun.Api.Selector.match_rest
    natun.Api.Selector.match_aggr natun.Api.Selector.match_version natun.Api.Selector.match_encoding
    natun.Api.Selector.of_match natun.Api.Selector.parse_version
known_name = refl

remote_get_example :
    client_get
      (service_get {T = ℤ} {D = ℕ × ℕ} listing)
      (codes "u")
      (codes "shop.price")
      two_keys
      []
    ≡ (
      sent (
        record { value = scalar (str (codes "9.99")); timestamp = 5_000_000_000; fresh = false },
        record price { keys = []; runtime_env = []; dependencies = [] },
      ),
      [],
    )
remote_get_example =
    client_get-service_get ℤ (ℕ × ℕ) listing (codes "u") (codes "shop.price") (codes "shop.price")
      two_keys a_value (str (codes "9.99")) price [] [] refl refl tt price-IsSendable known_name
      refl
