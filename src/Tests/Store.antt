-- ===== src/Tests/Store.antt =====
-- The theorems about the transactions of internal/plugins/providers/state/redis at concrete inputs.
use natun.Prelude.{
  ℕ, ◌+◌, ◌*◌, ◌/◌, ◌≡◌, ◌≢◌, refl, Bool, true, false, List, [], ◌∷◌, Option, some, none, ltb,
  arith, All, lookup,
}
use natun.Prelude.Int.{pos}
use natun.Prelude.Text.{Text, codes}
use natun.Api.Errors.{ok}
use natun.Api.Primitive
use natun.Api.Aggr.{count}
use natun.Api.ScalarText.{kept}
use natun.Api.Descriptor.{FeatureDescriptor, valid_window}
use natun.Redis.Command.{
  Command, set, hincr_by, pexpire_at, set_timestamp, set_timestamp_expire_at, window_key,
}
use natun.Redis.Read.{RedisReads, get_primitive}
use natun.Redis.ReadBack.{Holds, get_primitive-set_primitive}
use natun.Redis.Unread.{target, window_add-unread}
use natun.Api.Value.{AnyValue, scalar, str, flt, type_detect}
use natun.Redis.Primitives.{set_primitive, update, window_add}
use natun.Redis.Collision.{renamed, set_primitive-renamed}
use natun.Tests.Data.{bits, price, two_keys}

abbrev pub text_value : AnyValue Bool
text_value = scalar (str (codes "9.99"))

set_example :
    set_primitive 6_000_000_000
      (renamed price (codes "shop.cost"))
      two_keys
      text_value
      5_000_000_000
    ≡ set_primitive 6_000_000_000 price two_keys text_value 5_000_000_000
set_example =
    set_primitive-renamed 6_000_000_000 price (codes "shop.cost") two_keys text_value 5_000_000_000

-- A server whose store is an association list.
abbrev pub Table : Type 0
Table = List (Text × Text)

unfoldable pub table_reads : RedisReads Table
table_reads = record { get = λ key s. ok (lookup key s); lrange = λ key s. ok [] }

abbrev pub single : FeatureDescriptor
single = record price { keep_previous = none }

abbrev pub key : Text
key = codes "[id day]:7;mon"

abbrev pub transaction : List (Command Bool)
transaction =
    set key (codes "9.99") 3_600_000_000_000
    ∷ set_timestamp key 5_000_000_999 3_600_000_000_000
    ∷ []

pub accepted : set_primitive 6_000_000_000 single two_keys text_value 5_000_000_999 ≡ ok transaction
unfolding set_primitive valid_window natun.Redis.Primitives.too_old
    natun.Redis.Command.primitive_key natun.Api.Keys.encode natun.Api.Keys.encoded_values
    natun.Api.Keys.encoded_value lookup natun.Redis.Primitives.keep_versions
    natun.Redis.Primitives.store_value Primitive.scalar natun.Api.ScalarText.scalar_string
    natun.Api.ScalarText.scalar_text
accepted = refl

abbrev pub table : Table
table = (key, codes "9.99") ∷ (codes "[id day]:7;mon:ts", codes "5000000") ∷ []

table-Holds : All (Holds table_reads table) transaction
unfolding table_reads lookup set_timestamp natun.Prelude.Digits.format_int
table-Holds = (refl, (refl, tt))

pub plain_feature : valid_window single ≡ false
unfolding valid_window
plain_feature = refl

pub detected : type_detect {F = Bool} text_value ≡ ok single.primitive
unfolding type_detect Primitive.string_to_primitive_type natun.Api.Value.type_name
    natun.Api.Value.go_type
detected = refl

read_back_example :
    get_primitive {F = Bool} table_reads 7_000_000_000 single two_keys 0 table
    ≡ ok (
        some (record {
          value = scalar (kept (str (codes "9.99")));
          timestamp = 5_000_000_999 / 1000 * 1000;
          fresh = ltb 7_000_000_000 (5_000_000_999 / 1000 * 1000 + single.freshness);
        }))
read_back_example =
    get_primitive-set_primitive table_reads 6_000_000_000 7_000_000_000 single two_keys
      (str (codes "9.99")) 5_000_000_999 transaction table plain_feature
      (unfold Primitive.scalar in refl) detected tt (omega arith) accepted table-Holds

abbrev counter : FeatureDescriptor
counter = record price { primitive = Primitive.float; aggr = count ∷ [] }

abbrev window_key_of_counter : List (Command Bool)
window_key_of_counter =
    hincr_by key (codes "count") (pos 1)
    ∷ set_timestamp_expire_at key 120_000_000_000 4_320_000_000_000
    ∷ pexpire_at key 4_320_000_000_000
    ∷ []

added :
    window_add 130_000_000_000 counter two_keys (scalar (flt true)) 120_000_000_000
    ≡ ok window_key_of_counter
unfolding window_add natun.Redis.Command.primitive_key natun.Api.Keys.encode
    natun.Api.Keys.encoded_values natun.Api.Keys.encoded_value lookup
    natun.Api.Bucket.bucket_dead_time natun.Api.Bucket.bucket_time natun.Prelude.Digits.parse_int
    natun.Api.Bucket.bucket_name natun.Prelude.Digits.format_int natun.Api.Bucket.bucket_index
    natun.Api.Bucket.truncate natun.Api.Bucket.epoch
added = refl

unread_example :
    All
      (λ x. (bucket encoded : Text) → target x ≢ window_key (codes "shop.price") bucket encoded)
      window_key_of_counter
unread_example =
    window_add-unread 130_000_000_000 counter two_keys (scalar (flt true)) 120_000_000_000
      window_key_of_counter b's' (codes "hop.price") (λ e. omega arith) added
