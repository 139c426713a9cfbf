-- ===== src/Tests/History.antt =====
-- The writers of historical data and their queries at concrete inputs.
use natun.Prelude.{
  ℕ, ◌*◌, ◌%◌, ◌≤◌, ◌==◌, ◌≡◌, refl, Bool, true, false, ◌||◌, List, [], ◌∷◌, ◌++◌, Option, none,
  some, ◌⊎◌, inl, inr, All, arith, lookup, if◌then◌else◌,
}
use natun.Prelude.Int.{ℤ, pos}
use natun.Prelude.Text.{Text, codes, text_eq}
use natun.Api.Errors.{Result, ok}
use natun.Api.Aggr
use natun.Api.Primitive
use natun.Api.Primitive.{string_to_primitive_type}
use natun.Api.Value.{
  AnyValue, Value, scalar, str, anys, slice, go_string, normalize_any, elements, element,
  type_detect, type_name, go_type,
}
use natun.Api.Descriptor.{FeatureDescriptor}
use natun.Engine.World.{WriteNotification}
use natun.History.QueryBuilder.{FeatureSetQuery, QueryBuilder, ModelSpec, set_query}
use natun.History.QueryBuilder.Padding.{IsExact, set_query-IsExact}
use natun.History.Snowflake.{
  SqlUnit, unit_name, unit_size, date_add, subtract_duration, SqlArg, text_arg, value_arg, typed,
  time_arg, nullable_text, nullable_bool, Json, insertion, snowflake_builder,
}
use natun.Prelude.Int.{pos_part, neg_part}
use natun.Prelude.Digits.{format_int}
use natun.History.Snowflake.Durations.{IsUnit, AllFiner, sql_units, subtract_duration-IsUnit}
use natun.History.Snowflake.Statements.{IsFilled, insertion-IsFilled}
use natun.History.Parquet
use natun.History.Parquet.{
  RecordOps, HistoricalRecord, ParquetFiles, BaseParquet, alive_key, new_historical_record,
  flush_all,
}
use natun.History.Parquet.Flush.{ClosingLaws, flush_all-Closed}
use natun.History.Parquet.Alive.{commit-creates}
use natun.History.Parquet.Typed
use natun.History.Parquet.Typed.{value_field-IsKept}
use natun.Tests.Data.{bits, price, a_value}

-- A windowed feature, and one without windows.
abbrev visits : FeatureDescriptor
visits = record price {
  fqn = codes "shop.visits";
  primitive = Primitive.integer;
  aggr = Aggr.sum ∷ [];
}

abbrev plain_getter : Text → Result FeatureDescriptor
plain_getter fqn = if text_eq fqn (codes "shop.visits") then ok visits else ok price

abbrev a_builder : QueryBuilder
a_builder = record {
  funcs = record {
    escape_name = λ s. s;
    subtract_duration = λ d field. field;
    cast_feature = λ fd. [];
    tmp_name = λ s. s;
  };
  feature_table = codes "FEATURES";
}

abbrev two_features : ModelSpec
two_features = record { features = codes "shop.price" ∷ codes "shop.visits" ∷ []; key_feature = [] }

abbrev two_query : FeatureSetQuery
two_query = record {
  base = record {
    features_table = codes "FEATURES";
    since = codes "$SINCE";
    until = codes "$UNTIL";
  };
  before_padding = 3_600_000_000_000;
  features = price ∷ visits ∷ [];
  key_feature = codes "shop.price";
}

two_query_lem : set_query a_builder two_features plain_getter ≡ ok two_query
unfolding set_query natun.History.QueryBuilder.key_of natun.History.QueryBuilder.first_of
    natun.History.QueryBuilder.add_features natun.History.QueryBuilder.names_with_key
    natun.History.QueryBuilder.is_listed natun.History.QueryBuilder.add_feature
    natun.Api.Descriptor.valid_window natun.Api.Descriptor.is_numeric
two_query_lem = refl

padding_example : IsExact two_query
padding_example = set_query-IsExact a_builder two_features plain_getter two_query_lem

minutes : subtract_duration 90_000_000_000 (codes "ts") ≡ codes "DATEADD('second', -90, ts)"
unfolding subtract_duration date_add natun.History.Snowflake.chosen_unit
    natun.Prelude.Digits.format_int
minutes = refl

duration_example :
    (unit : Text) × (size : ℕ) × (v : ℤ) × IsUnit unit size sql_units
    × (subtract_duration 90_000_000_000 (codes "ts")
        ≡ codes "DATEADD('"
          ++ unit
          ++ codes "', "
          ++ format_int 10 v
          ++ codes ", "
          ++ codes "ts"
          ++ codes ")")
    × (pos_part v ≡ 0)
    × (neg_part v * size ≡ 90_000_000_000)
    × AllFiner 90_000_000_000 size sql_units
duration_example = subtract_duration-IsUnit 90_000_000_000 (codes "ts")

abbrev a_write : Bool → WriteNotification Bool
a_write active = record {
  fqn = codes "shop.price";
  encoded_keys = codes "7";
  bucket = [];
  active_bucket = active;
  value = some a_value;
}

abbrev no_json : Json Bool
no_json = record { marshal_map = λ m. ok []; marshal = λ v. ok [] }

abbrev a_statement : Text × List (SqlArg Bool)
a_statement = (
  codes "INSERT INTO historical (fqn, keys, value, timestamp, bucket, bucket_active)"
      ++ codes " SELECT ?, ?, to_variant(?), ?, ?, ?",
  text_arg (codes "shop.price")
      ∷ text_arg (codes "7")
      ∷ value_arg (scalar (str (codes "9.99")))
      ∷ typed (codes "TimestampLtz")
      ∷ time_arg 5_000_000_000
      ∷ nullable_text none
      ∷ nullable_bool none
      ∷ [],
)

a_statement_lem : insertion no_json (a_write false) ≡ ok a_statement
unfolding insertion natun.History.Snowflake.bound_value natun.Api.Value.type_detect Primitive.scalar
    Primitive.string_to_primitive_type natun.Api.Value.type_name natun.Api.Value.go_type
    natun.History.Snowflake.sprintf
a_statement_lem = refl

statement_example : IsFilled a_statement
statement_example = insertion-IsFilled no_json (a_write false) a_statement_lem

-- Files with numbers for names; the storage lists the closed ones.
abbrev is_closed : ℕ → List ℕ → Bool
is_closed w [] = false
is_closed w (v ∷ vs) = w == v || is_closed w vs

abbrev number_files : ParquetFiles Bool ℕ (List ℕ)
number_files = record {
  create = λ fqn alive s. (ok 2, s);
  write = λ w r s. (ok tt, s);
  write_stop = λ w s. (ok tt, s);
  close = λ w s. (ok tt, w ∷ s);
}

abbrev IsClosed : ℕ → List ℕ → Type 0
IsClosed w s = is_closed w s ≡ true

number_laws : ClosingLaws number_files IsClosed
number_laws = record {
  close-Closed = λ w s e. ground arith;
  close_keeps = λ w v s h. ground arith;
  stop_keeps = λ w v s h. h;
}

abbrev two_writers : BaseParquet ℕ (List ℕ)
two_writers = record {
  writers = (codes "shop.price", 0) ∷ (codes "shop.visits", 1) ∷ [];
  storage = [];
}

abbrev no_writers : BaseParquet ℕ (List ℕ)
no_writers = record { writers = []; storage = 1 ∷ 0 ∷ [] }

flush_runs : flush_all number_files two_writers ≡ (ok tt, no_writers)
unfolding flush_all Parquet.flush_keys lookup Parquet.flush Parquet.flush_key Parquet.close_writer
    natun.Prelude.delete
flush_runs = refl

flush_example : IsClosed 1 (1 ∷ 0 ∷ []) × (lookup (codes "shop.visits") no_writers.writers ≡ none)
unfolding lookup
flush_example =
    flush_all-Closed number_files IsClosed number_laws two_writers no_writers (codes "shop.visits")
      1 flush_runs refl

abbrev nano_records : RecordOps Bool
nano_records = record { to_micros = λ t. t; to_int64 = λ x. pos 0 }

abbrev price_record : HistoricalRecord Bool
price_record = record {
  fqn = codes "shop.price";
  keys = codes "7";
  timestamp = pos 5_000_000_000;
  value = some (Parquet.string_value (codes "9.99"));
  bucket = none;
}

price_record_lem : new_historical_record nano_records (a_write true) ≡ ok price_record
unfolding new_historical_record natun.Api.Value.type_detect Parquet.value_field
    Primitive.string_to_primitive_type natun.Api.Value.type_name natun.Api.Value.go_type
    Parquet.as_scalar natun.Api.Value.element
price_record_lem = refl

alive_example :
    (new : BaseParquet ℕ (List ℕ)) × (Parquet.commit number_files nano_records
        (a_write true)
        two_writers
      ≡ (ok tt, new))
    × (new.storage ≡ [])
    × ((key : Text)
        → lookup key new.writers
          ≡ (if text_eq (codes "shop.price") key then some 2 else lookup key two_writers.writers))
    × (lookup (alive_key (codes "shop.price")) new.writers ≡ none)
unfolding lookup
alive_example =
    commit-creates number_files nano_records (a_write true) two_writers 2 [] price_record refl refl
      refl price_record_lem

abbrev words : AnyValue Bool
words = anys (some (str (codes "a")) ∷ some (str (codes "b")) ∷ [])

abbrev word_list : AnyValue Bool
word_list = slice go_string (codes "a" ∷ codes "b" ∷ [])

typed_example : Typed.IsKept nano_records word_list Primitive.string_list
unfolding normalize_any elements element type_detect type_name go_type string_to_primitive_type
typed_example = value_field-IsKept nano_records words word_list Primitive.string_list refl refl
