-- ===== src/Redis/Command.antt =====
-- The commands that the provider sends to Redis, and the keys that it sends them for: primitiveKey
-- of primitives.go, windowKey of windows.go and the timestamps of common.go, all under
-- internal/plugins/providers/state/redis. Durations are in nanoseconds unless said otherwise.
use natun.Prelude.{ℕ, ◌/◌, List, [], ◌∷◌, ◌++◌, ltb, if◌then◌else◌}
use natun.Prelude.Int.{ℤ, pos}
use natun.Prelude.Text.{Text, codes, join}
use natun.Prelude.Digits.{format_int}
use natun.Api.Errors.{Result, ok, ◌>>=◌}
use natun.Api.Value.{AnyValue}
use natun.Api.Descriptor.{FeatureDescriptor}
use natun.Api.Keys.{Keys, encode}

pub data Command (F : Type 0) : Type 0 where
  -- SET key value, with an expiration if it is not 0
  set : Text → Text → ℕ → Command F
  del : Text → Command F
  -- the values as the client is given them
  rpush : Text → List (AnyValue F) → Command F
  pexpire : Text → ℕ → Command F
  -- COPY source destination REPLACE
  copy : Text → Text → Command F
  persist : Text → Command F
  incr_by : Text → ℤ → Command F
  incr_by_float : Text → F → Command F
  hincr_by_float : Text → Text → F → Command F
  hincr_by : Text → Text → ℤ → Command F
  -- the scripts luaHMin and luaHMax: key, field, number
  run_hmin : Text → Text → F → Command F
  run_hmax : Text → Text → F → Command F
  -- luaMax: key, number, expiration in milliseconds
  run_max : Text → ℤ → ℕ → Command F
  -- luaMaxExpAt: key, number, the time in milliseconds at which it expires
  run_max_exp_at : Text → ℤ → ℕ → Command F
  pexpire_at : Text → ℕ → Command F

-- fmt.Sprintf("%s", keys) of a []string
unfoldable pub print_keys : List Text → Text
unfolding join
print_keys keys = b'[' ∷ (join b' ' keys ++ codes "]")

-- primitiveKey
unfoldable pub primitive_key : FeatureDescriptor → Keys → ℕ → Result Text
unfolding print_keys
primitive_key fd keys version = encode keys fd >>= λ e. ok (
    print_keys fd.keys
    ++ (b':' ∷ (e ++ (if ltb 0 version then b'/' ∷ format_int 10 (pos version) else []))))

-- windowKey
unfoldable pub window_key : Text → Text → Text → Text
window_key fqn bucket encoded = fqn ++ (b'/' ∷ (bucket ++ (b':' ∷ encoded)))

abbrev pub timestamp_key : Text → Text
timestamp_key key = key ++ codes ":ts"

-- time.Time.UnixMicro of a time since the epoch
abbrev pub micro : ℕ → ℤ
micro ts = pos (ts / 1000)

-- setTimestamp
unfoldable pub set_timestamp : {F : Type 0} → Text → ℕ → ℕ → Command F
set_timestamp key ts ttl =
    run_max (timestamp_key key) (micro ts) (if ltb ttl 1_000_000 then 1 else ttl / 1_000_000)

-- setTimestampExpireAt
unfoldable pub set_timestamp_expire_at : {F : Type 0} → Text → ℕ → ℕ → Command F
set_timestamp_expire_at key ts xat = run_max_exp_at (timestamp_key key) (micro ts) (xat / 1_000_000)
