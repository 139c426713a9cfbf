-- ===== src/Tests/Data.antt =====
-- Test data: a descriptor, keys, a manifest, and concrete functions for the code outside the
-- repository.
use natun.Prelude.{
  ℕ, ◌+◌, ◌*◌, ◌/◌, ◌%◌, ◌≡◌, refl, Bool, true, false, ◌||◌, ◌&&◌, not, [], ◌∷◌, Option, none, some,
  if◌then◌else◌,
}
use native.Mathlib.Nat.{div-add-mod'}
use natun.Prelude.Int.{ℤ}
use natun.Prelude.Text.{Text, codes, text_eq}
use natun.Api.Errors.{Result, ok}
use natun.Api.Primitive
use natun.Api.Value.{FloatOps, AnyValue, Value, scalar, str}
use natun.Api.Descriptor.{FeatureDescriptor, Manifest}
use natun.Api.Keys.{Keys}
use natun.Engine.Pipeline.{Context, Middleware}
use natun.Engine.Priority.{FeaturePipeliner}
use natun.Engine.World.{StateOps, World}
use natun.Sdk.Wire.{Durations, Timestamps}

-- Floats of one bit, with texts that are read back.
unfoldable pub bit_text : Bool → Text
bit_text true = codes "1"
bit_text false = codes "0"

unfoldable pub read_bit : Text → Option Bool
read_bit s =
    if text_eq s (codes "1") then some true else if text_eq s (codes "0") then some false else none

pub read_bit-bit_text : (b : Bool) → read_bit (bit_text b) ≡ some b
unfolding read_bit bit_text
read_bit-bit_text true = refl
read_bit-bit_text false = refl

instance abbrev pub bits : FloatOps Bool
bits = record {
  zero_float = false;
  one_float = true;
  add = λ a b. a || b;
  divide = λ a b. a;
  min_float = λ a b. a && b;
  max_float = λ a b. a || b;
  less = λ a b. not a && b;
  of_int = λ n. false;
  format_float = bit_text;
  parse_float = read_bit;
  parse-format = read_bit-bit_text;
}

-- A duration as seconds and nanoseconds.
abbrev join_duration : ℕ × ℕ → ℕ
join_duration (s, n) = s * 1_000_000_000 + n

instance pub duration_pairs : Durations (ℕ × ℕ)
duration_pairs = record {
  new_duration = λ d. (d / 1_000_000_000, d % 1_000_000_000);
  as_duration = join_duration;
  as_duration-new_duration = λ d h. div-add-mod' d 1_000_000_000;
}

instance pub nano_timestamps : Timestamps ℤ
nano_timestamps = record {
  new_timestamp = λ t. t;
  as_time = λ t. t;
  as_time-new_timestamp = λ t. refl;
}

abbrev pub price : FeatureDescriptor
price = record {
  fqn = codes "shop.price";
  primitive = Primitive.string;
  aggr = [];
  freshness = 60_000_000_000;
  staleness = 3_600_000_000_000;
  timeout = 1_000_000_000;
  keep_previous = some (record { versions = 2; over = 86_400_000_000_000 });
  keys = codes "id" ∷ codes "day" ∷ [];
  builder = codes "streaming";
  runtime_env = [];
  data_source = codes "events.shop";
  dependencies = [];
}

abbrev pub two_keys : Keys
two_keys = (codes "id", codes "7") ∷ (codes "day", codes "mon") ∷ []

abbrev pub price_manifest : Manifest
price_manifest = record {
  namespace = codes "shop";
  name = codes "unit-price";
  primitive = codes "int";
  freshness = 60_000_000_000;
  staleness = 3_600_000_000_000;
  timeout = 0;
  keep_previous = none;
  keys = codes "id" ∷ [];
  data_source = none;
  kind = [];
  aggr = codes "sum" ∷ codes "MEAN" ∷ [];
  aggr_granularity = 5_000_000_000;
  runtime = [];
  code = [];
  packages = [];
  dependencies = [];
  raw = [];
}

-- A state that holds one value for all keys, whatever its version.
abbrev pub Cell : Type 0
Cell = Option (Value Bool)

abbrev put : ℕ → FeatureDescriptor → Keys → AnyValue Bool → ℕ → Cell → Result (Unit {0}) × Cell
put now fd keys v ts s = (ok tt, some (record { value = v; timestamp = ts; fresh = true }))

abbrev pub cell_state : StateOps Bool Cell
cell_state = record {
  get = λ now fd keys version s. ok s;
  set = put;
  append = put;
  incr = put;
  update = put;
  window_add = put;
}

abbrev pub a_value : Value Bool
a_value = record { value = scalar (str (codes "9.99")); timestamp = 5_000_000_000; fresh = true }

abbrev pub full_world : World Bool Cell
full_world = record {
  store = some a_value;
  pending_writes = [];
  pending_collects = [];
  spawned = [];
}

abbrev pub empty_world : World Bool Cell
empty_world = record { store = none; pending_writes = []; pending_collects = []; spawned = [] }

abbrev pub background : Context
background = record {
  cache_post_get = none;
  cache_fresh = none;
  from_cache = none;
  selector = none;
  deadline = false;
}

abbrev pub Wares : Type 0
Wares = Middleware Bool (World Bool Cell)

abbrev pub price_feature : FeaturePipeliner Wares
price_feature = record {
  descriptor = price;
  pre_get = [];
  post_get = [];
  pre_set = [];
  post_set = [];
}
