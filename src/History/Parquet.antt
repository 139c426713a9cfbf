-- ===== src/History/Parquet.antt =====
-- The writer of historical data to Parquet files: internal/plugins/providers/historical/parquet, and the names
-- of the files of its s3 package. The writer of one file (parquet-go) and the file are a parameter.
pub mod Flush
pub mod Alive
pub mod Typed
use natun.Prelude.{
  ℕ, zero, suc, ◌==◌, Bool, true, false, List, [], ◌∷◌, ◌++◌, map, Option, none, some, lookup,
  insert, delete, if◌then◌else◌,
}
use natun.Prelude.Int.{ℤ, pos}
use natun.Prelude.Text.{Text, codes}
use natun.Api.Errors.{Result, ok, err, panicked, ◌>>=◌}
use natun.Api.Primitive
use natun.Api.Primitive.{PrimitiveType}
use natun.Api.Aggr.{AggrFn, sum, max, min, count}
use natun.Api.Value.{
  FloatOps, AnyValue, Value, nil, scalar, slice, anys, window, Scalar, str, int, flt, bool, time,
  GoType, go_string, go_int, go_float, go_bool, go_time, Elem, element, type_detect,
}
use natun.Api.Descriptor.{FeatureDescriptor, is_empty}
use natun.Engine.World.{WriteNotification}
use natun.Historian.Server.{HistoricalWriter}
use natun.Redis.Window.{or_zero}

-- Value of schema.go, one of whose fields is set.
pub data RecordValue (F : Type 0) : Type 0 where
  string_value : Text → RecordValue F
  int_value : ℤ → RecordValue F
  double_value : F → RecordValue F
  timestamp_value : ℤ → RecordValue F
  string_list_value : List Text → RecordValue F
  int_list_value : List ℤ → RecordValue F
  double_list_value : List F → RecordValue F
  timestamp_list_value : List ℤ → RecordValue F

-- Bucket of schema.go
pub record BucketRecord (F : Type 0) : Type 0 where
  pub bucket_name : Text
  pub alive : Bool
  pub count_of : ℤ
  pub sum_of : F
  pub min_of : F
  pub max_of : F

-- HistoricalRecord
pub record HistoricalRecord (F : Type 0) : Type 0 where
  pub fqn : Text
  pub keys : Text
  pub timestamp : ℤ
  pub value : Option (RecordValue F)
  pub bucket : Option (BucketRecord F)

-- types.TimeToTIMESTAMP_MICROS of nanoseconds since the epoch, and int64(x) of a float64
pub record RecordOps (F : Type 0) : Type 0 where
  pub to_micros : ℤ → ℤ
  pub to_int64 : F → ℤ

module _ {F : Type 0} where
  -- ToLowLevelValue of a scalar type
  unfoldable pub as_scalar : (t : GoType) → AnyValue F → Result (Elem F t)
  as_scalar t (scalar v) = element t (some v)
  as_scalar t _ = panicked

  -- ToLowLevelValue of a slice type
  unfoldable pub as_slice : (t : GoType) → AnyValue F → Result (List (Elem F t))
  as_slice go_string (slice go_string xs) = ok xs
  as_slice go_int (slice go_int xs) = ok xs
  as_slice go_float (slice go_float xs) = ok xs
  as_slice go_bool (slice go_bool xs) = ok xs
  as_slice go_time (slice go_time xs) = ok xs
  as_slice t _ = panicked

  -- ToLowLevelValue[api.WindowResultMap]
  unfoldable pub as_results : AnyValue F → Result (AggrFn → Option F)
  as_results (window m) = ok m
  as_results _ = panicked

module _ {F : Type 0} ⦃floats : FloatOps F⦄ (ops : RecordOps F) where
  -- The switch of NewHistoricalRecord; other types leave the value nil.
  unfoldable pub value_field : AnyValue F → PrimitiveType → Result (Option (RecordValue F))
  value_field v Primitive.string = as_scalar go_string v >>= λ s. ok (some (string_value s))
  value_field v Primitive.integer = as_scalar go_int v >>= λ n. ok (some (int_value n))
  value_field v Primitive.float = as_scalar go_float v >>= λ x. ok (some (double_value x))
  value_field v Primitive.timestamp =
      as_scalar go_time v >>= λ t. ok (some (timestamp_value (ops.to_micros t)))
  value_field v Primitive.string_list =
      as_slice go_string v >>= λ xs. ok (some (string_list_value xs))
  value_field v Primitive.integer_list = as_slice go_int v >>= λ xs. ok (some (int_list_value xs))
  value_field v Primitive.float_list =
      as_slice go_float v >>= λ xs. ok (some (double_list_value xs))
  value_field v Primitive.timestamp_list =
      as_slice go_time v >>= λ xs. ok (some (timestamp_list_value (map ops.to_micros xs)))
  value_field v _ = ok none

  -- The results of a window as a bucket; the average is not stored.
  unfoldable pub bucket_record : WriteNotification F → (AggrFn → Option F) → BucketRecord F
  bucket_record wn m = record {
    bucket_name = wn.bucket;
    alive = wn.active_bucket;
    count_of = ops.to_int64 (or_zero (m count));
    sum_of = or_zero (m sum);
    min_of = or_zero (m min);
    max_of = or_zero (m max);
  }

  -- NewHistoricalRecord; a value that is nil is dereferenced.
  unfoldable pub new_historical_record : WriteNotification F → Result (HistoricalRecord F)
  new_historical_record wn = elim wn.value [
    | none ↦ panicked
    | some v ↦
        let record_of : Option (RecordValue F) → Option (BucketRecord F) → HistoricalRecord F =
          λ value bucket. record {
            fqn = wn.fqn;
            keys = wn.encoded_keys;
            timestamp = ops.to_micros (pos v.timestamp);
            value = value;
            bucket = bucket;
          } in
        if is_empty wn.bucket
        then (type_detect v.value >>= λ t. value_field v.value t >>= λ f. ok (record_of f none))
        else (as_results v.value >>= λ m. ok (record_of none (some (bucket_record wn m))))
  ]

-- The files in the storage S: newParquetFile with NewParquetWriter, and the methods of a writer of type W.
pub record ParquetFiles (F W S : Type 0) : Type 0 where
  pub create : Text → Bool → S → Result W × S
  pub write : W → HistoricalRecord F → S → Result (Unit {0}) × S
  pub write_stop : W → S → Result (Unit {0}) × S
  pub close : W → S → Result (Unit {0}) × S

-- baseParquet: the open writers, over the storage.
pub record BaseParquet (W S : Type 0) : Type 0 where
  pub writers : List (Text × W)
  pub storage : S

-- fmt.Sprintf("%s_alive", fqn)
abbrev pub alive_key : Text → Text
alive_key fqn = fqn ++ codes "_alive"

-- `idx` of getWriter
unfoldable pub writer_index : Text → Bool → Text
writer_index fqn alive = if alive then alive_key fqn else fqn

module _ {F W S : Type 0} (files : ParquetFiles F W S) where
  -- getWriter. What was created is kept under the name of the feature, and that is the entry which is
  -- returned: nil where there is none.
  unfoldable pub get_writer : Text → Bool → BaseParquet W S → Result (Option W) × BaseParquet W S
  get_writer fqn alive bw = elim (lookup (writer_index fqn alive) bw.writers) [
    | some w ↦ (ok (lookup fqn bw.writers), bw)
    | none ↦
        let (r, s) = files.create fqn alive bw.storage in
        elim r [
          | panicked ↦ (panicked, record bw { storage = s })
          | err e ↦ (err e, record bw { storage = s })
          | ok w ↦
              let writers = insert fqn w bw.writers in
              (ok (lookup fqn writers), record { writers = writers; storage = s })
        ]
  ]

  -- pw.Write of a record; the lock of a writer that is nil panics.
  unfoldable pub write_record :
      Option W → Result (HistoricalRecord F) → BaseParquet W S → Result (Unit {0}) × BaseParquet W S
  write_record none r bw = (panicked, bw)
  write_record (some w) panicked bw = (panicked, bw)
  write_record (some w) (err e) bw = (err e, bw)
  write_record (some w) (ok hr) bw =
      let (r, s) = files.write w hr bw.storage in (r, record bw { storage = s })

  -- Commit
  unfoldable pub commit :
      ⦃floats : FloatOps F⦄
      → RecordOps F
      → WriteNotification F
      → BaseParquet W S
      → Result (Unit {0}) × BaseParquet W S
  commit ops wn bw =
      let (r, bw') = get_writer wn.fqn wn.active_bucket bw in
      elim r [
        | panicked ↦ (panicked, bw')
        | err e ↦ (err e, bw')
        | ok w ↦ write_record w (new_historical_record ops wn) bw'
      ]

  -- flush, behind WriteStop
  unfoldable pub close_writer : Text → W → List (Text × W) → S → Result (Unit {0}) × BaseParquet W S
  close_writer key w writers s =
      let (r, s') = files.close w s in
      elim r [
        | panicked ↦ (panicked, record { writers = writers; storage = s' })
        | err e ↦ (err e, record { writers = writers; storage = s' })
        | ok _ ↦ (ok tt, record { writers = delete key writers; storage = s' })
      ]

  -- flush
  unfoldable pub flush_key : Text → BaseParquet W S → Result (Unit {0}) × BaseParquet W S
  flush_key key bw = elim (lookup key bw.writers) [
    | none ↦ (ok tt, bw)
    | some w ↦
        let (r, s) = files.write_stop w bw.storage in
        elim r [
          | panicked ↦ (panicked, record bw { storage = s })
          | err e ↦ (err e, record bw { storage = s })
          | ok _ ↦ close_writer key w bw.writers s
        ]
  ]

  -- A flush behind one that succeeds.
  abbrev pub then_flush :
      Result (Unit {0}) × BaseParquet W S
      → (BaseParquet W S → Result (Unit {0}) × BaseParquet W S)
      → Result (Unit {0}) × BaseParquet W S
  then_flush (panicked, bw) next = (panicked, bw)
  then_flush (err e, bw) next = (err e, bw)
  then_flush (ok _, bw) next = next bw

  -- Flush
  unfoldable pub flush : Text → BaseParquet W S → Result (Unit {0}) × BaseParquet W S
  flush fqn bw = then_flush (flush_key fqn bw) (flush_key (alive_key fqn))

  -- The loop of FlushAll over the keys of the map; a key that an earlier round deletes is not visited.
  unfoldable pub flush_keys : List Text → BaseParquet W S → Result (Unit {0}) × BaseParquet W S
  flush_keys [] bw = (ok tt, bw)
  flush_keys (key ∷ keys) bw =
      let rest = flush_keys keys in
      elim (lookup key bw.writers) [ none ↦ rest bw | some w ↦ then_flush (flush key bw) rest ]

  -- FlushAll, and Close
  unfoldable pub flush_all : BaseParquet W S → Result (Unit {0}) × BaseParquet W S
  flush_all bw = flush_keys (map (λ entry. entry.0) bw.writers) bw

  -- baseParquet as an api.HistoricalWriter; BindFeature is not implemented and succeeds.
  unfoldable pub parquet_writer :
      {M : Type 0} → ⦃floats : FloatOps F⦄ → RecordOps F → HistoricalWriter F M (BaseParquet W S)
  parquet_writer ops = record {
    commit = commit ops;
    flush_all = flush_all;
    bind = λ fd model bw. (ok tt, bw);
  }

-- The names of the files of the s3 package: `day` is the date of the clock. A directory without a name has
-- no last character.
unfoldable pub ends_with_slash : Text → Result Bool
ends_with_slash [] = panicked
ends_with_slash (c ∷ []) = ok (c == b'/')
ends_with_slash (c ∷ d ∷ s) = ends_with_slash (d ∷ s)

-- The name that sourceFactory gives to a file, and the directory that it keeps.
unfoldable pub file_name : Text → Text → Text → Bool → Result (Text × Text)
file_name basedir day fqn alive = ends_with_slash basedir >>= λ b.
    let dir = if b then basedir else basedir ++ codes "/" in
    let tag = if alive then codes "-alive" else [] in
    ok (
      dir
          ++ codes "fqn="
          ++ fqn
          ++ codes "/timestamp="
          ++ day
          ++ codes "/data"
          ++ tag
          ++ codes ".snappy.parquet",
      dir,
    )
