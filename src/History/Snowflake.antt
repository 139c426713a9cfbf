-- ===== src/History/Snowflake.antt =====
-- The writer of historical data to Snowflake: internal/plugins/providers/historical/snowflake. The driver,
-- encoding/json and text/template are parameters.
pub mod Durations
pub mod Statements
use natun.Prelude.{
  ℕ, zero, suc, ◌/◌, ◌%◌, ◌==◌, ◌&&◌, Bool, true, false, List, [], ◌∷◌, ◌++◌, Option, none, some,
  if◌then◌else◌,
}
use natun.Prelude.Int.{ℤ, pos, negsuc}
use natun.Prelude.Digits.{format_int}
use natun.Prelude.Text.{Text, codes, text_eq}
use natun.Api.Errors.{Result, ok, err, panicked, ◌>>=◌, model_required}
use natun.Api.Primitive
use natun.Api.Primitive.{PrimitiveType, scalar}
use natun.Api.Aggr.{AggrFn, unknown_fn, sum, avg, max, min, count, aggr_to_text}
use natun.Api.Value.{AnyValue, Value, window, type_detect}
use natun.Api.Descriptor.{FeatureDescriptor, is_empty, valid_window}
use natun.Engine.World.{WriteNotification}
use natun.Historian.Server.{HistoricalWriter}
use natun.History.QueryBuilder.{
  Execute, QueryBuilder, ModelSpec, feature, feature_set, default_escape_name, new_query_builder,
}

abbrev pub features_table : Text
features_table = codes "HISTORICAL_FEATURES"

-- The units of DATEADD that subtractDuration chooses from, and their nanoseconds.
pub data SqlUnit : Type 0 where
  hour minute second millisecond microsecond nanosecond : SqlUnit

abbrev pub unit_name : SqlUnit → Text
unit_name hour = codes "hour"
unit_name minute = codes "minute"
unit_name second = codes "second"
unit_name millisecond = codes "millisecond"
unit_name microsecond = codes "microsecond"
unit_name nanosecond = codes "nanosecond"

abbrev pub unit_size : SqlUnit → ℕ
unit_size hour = 3_600_000_000_000
unit_size minute = 60_000_000_000
unit_size second = 1_000_000_000
unit_size millisecond = 1_000_000
unit_size microsecond = 1_000
unit_size nanosecond = 1

-- The switch of subtractDuration
unfoldable pub chosen_unit : ℕ → SqlUnit
chosen_unit d =
    if d % unit_size hour == 0
    then hour
    else if d % unit_size minute == 0
    then minute
    else if d % unit_size second == 0
    then second
    else if d % unit_size millisecond == 0
    then millisecond
    else if d % unit_size microsecond == 0
    then microsecond
    else nanosecond

-- `if v > 0 { v *= -1 }`
abbrev pub negate_positive : ℕ → ℤ
negate_positive zero = pos 0
negate_positive (suc n) = negsuc n

-- fmt.Sprintf("DATEADD('%s', %d, %s)", unit, v, field)
unfoldable pub date_add : Text → ℤ → Text → Text
date_add unit v field =
    codes "DATEADD('" ++ unit ++ codes "', " ++ format_int 10 v ++ codes ", " ++ field ++ codes ")"

-- subtractDuration
unfoldable pub subtract_duration : ℕ → Text → Text
subtract_duration d field =
    let unit = chosen_unit d in
    date_add (unit_name unit) (negate_positive (d / unit_size unit)) field

-- castFeature
unfoldable pub cast_feature : FeatureDescriptor → Text
cast_feature ft = if valid_window ft then codes "OBJECT" else elim ft.primitive [
  | Primitive.string ↦ codes "STRING"
  | Primitive.integer ↦ codes "INT"
  | Primitive.float ↦ codes "DOUBLE"
  | Primitive.timestamp ↦ codes "TIMESTAMP"
  | Primitive.boolean ↦ codes "VARIANT"
  | Primitive.unknown ↦ codes "VARIANT"
  | _ ↦ codes "ARRAY"
]

-- fmt.Sprintf(format, a) for a format with one verb, %s.
unfoldable pub sprintf : Text → Text → Text
sprintf [] a = []
sprintf (c ∷ []) a = c ∷ []
sprintf (c ∷ d ∷ s) a = if c == b'%' && d == b's' then a ++ s else c ∷ sprintf (d ∷ s) a

abbrev pub insert_format : Text
insert_format =
    codes "INSERT INTO historical (fqn, keys, value, timestamp, bucket, bucket_active)"
    ++ codes " SELECT ?, ?, to_variant(%s), ?, ?, ?"

-- `fmt.Sprintf(q, "parse_json(%s)")`
abbrev pub json_format : Text
json_format = sprintf insert_format (codes "parse_json(%s)")

-- The statements of create.go and views.go, cut at their verbs where they have several.
abbrev pub create_format : Text
create_format =
    codes "CREATE TABLE IF NOT EXISTS %s(\n"
    ++ codes "    id            number autoincrement start 1 increment 1,\n"
    ++ codes "    fqn           string(255)   not null,\n"
    ++ codes "    keys          string(255)   not null,\n"
    ++ codes "    value         variant       not null,\n"
    ++ codes "    timestamp     timestamp_ltz not null,\n"
    ++ codes "    bucket        string(10),\n"
    ++ codes "    bucket_active boolean,\n"
    ++ codes "    UNIQUE (fqn, keys, value, timestamp, bucket, bucket_active)\n"
    ++ codes ") CLUSTER BY (fqn, timestamp);"

abbrev pub task_head : Text
task_head = codes "CREATE TASK IF NOT EXISTS "

abbrev pub task_warehouse : Text
task_warehouse =
    codes "_cleanup\n"
    ++ codes "    SCHEDULE = '60 minute'\n"
    ++ codes "    ALLOW_OVERLAPPING_EXECUTION = FALSE\n"
    ++ codes "    WAREHOUSE = '"

abbrev pub task_merge : Text
task_merge =
    codes "'\n"
    ++ codes "\tCOMMENT = 'Remove active buckets that were finalized'\n"
    ++ codes "    AS\n"
    ++ codes "        MERGE INTO historical AS target USING "

abbrev pub task_match : Text
task_match =
    codes " AS source\n"
    ++ codes "            ON target.fqn = source.fqn\n"
    ++ codes "                AND target.keys = source.keys\n"
    ++ codes "                AND target.bucket = source.bucket\n"
    ++ codes
        "            WHEN MATCHED AND target.bucket IS NOT NULL AND target.bucket_active = TRUE AND source.bucket_active = FALSE\n"
    ++ codes "                THEN DELETE;"

abbrev pub resume_format : Text
resume_format = codes "ALTER TASK %s_cleanup RESUME"

unfoldable pub view_text : Text → Text → Text → Text → Text
view_text name fqn typ query =
    codes "SET (SINCE,UNTIL) = ('2020-12-01', '2022-12-31');\n"
    ++ codes "CREATE OR REPLACE VIEW "
    ++ name
    ++ codes "\n"
    ++ codes "\tCOMMENT ='"
    ++ fqn
    ++ codes " "
    ++ typ
    ++ codes ". Requires session variables $SINCE and $UNTIL.'\n"
    ++ codes "AS "
    ++ query

abbrev pub all_fns : List AggrFn
all_fns = sum ∷ avg ∷ min ∷ max ∷ count ∷ unknown_fn ∷ []

-- The arguments of a statement; `typed` is the marker that gives the type of the next one.
pub data SqlArg (F : Type 0) : Type 0 where
  text_arg : Text → SqlArg F
  value_arg : AnyValue F → SqlArg F
  typed : Text → SqlArg F
  time_arg : ℕ → SqlArg F
  nullable_text : Option Text → SqlArg F
  nullable_bool : Option Bool → SqlArg F

-- sql.DB: Exec of a text, PrepareContext, and ExecContext of a prepared statement.
pub record Database (F S : Type 0) : Type 0 where
  pub exec : Text → S → Result (Unit {0}) × S
  pub prepare : Text → S → Result (Unit {0}) × S
  pub exec_prepared : Text → List (SqlArg F) → S → Result (Unit {0}) × S

-- json.Marshal of a map of floats and of a value.
pub record Json (F : Type 0) : Type 0 where
  pub marshal_map : List (Text × F) → Result Text
  pub marshal : AnyValue F → Result Text

module _ {F : Type 0} where
  -- api.ToLowLevelValue[api.WindowResultMap]
  unfoldable pub result_map : AnyValue F → Result (AggrFn → Option F)
  result_map (window m) = ok m
  result_map _ = panicked

  -- v[k.String()] = vv for the functions among those listed.
  unfoldable pub named_results : (AggrFn → Option F) → List AggrFn → List (Text × F)
  named_results m [] = []
  named_results m (f ∷ fs) = elim (m f) [
    | none ↦ named_results m fs
    | some x ↦ (aggr_to_text f, x) ∷ named_results m fs
  ]

  -- The value of a notification as it is bound, and the statement that takes it.
  unfoldable pub bound_value : Json F → WriteNotification F → Value F → Result (Text × SqlArg F)
  bound_value json wn v =
      if is_empty wn.bucket
      then (type_detect v.value >>= λ t.
          if scalar t
          then ok (insert_format, value_arg v.value)
          else (json.marshal v.value >>= λ raw. ok (json_format, text_arg raw)))
      else (result_map v.value >>= λ m.
          json.marshal_map (named_results m all_fns) >>= λ raw. ok (json_format, text_arg raw))

  -- The statement that Commit prepares and its arguments; a value that is nil is dereferenced.
  unfoldable pub insertion : Json F → WriteNotification F → Result (Text × List (SqlArg F))
  insertion json wn = elim wn.value [
    | none ↦ panicked
    | some v ↦
        (bound_value json wn v >>= λ p. ok (
          sprintf p.0 (codes "?"),
          text_arg wn.fqn
              ∷ text_arg wn.encoded_keys
              ∷ p.1
              ∷ typed (codes "TimestampLtz")
              ∷ time_arg v.timestamp
              ∷ nullable_text (if is_empty wn.bucket then none else some wn.bucket)
              ∷ nullable_bool (if is_empty wn.bucket then none else some wn.active_bucket)
              ∷ [],
        ))
  ]

  module _ {S : Type 0} (db : Database F S) where
    -- PrepareContext and ExecContext
    unfoldable pub run_statement : Text → List (SqlArg F) → S → Result (Unit {0}) × S
    run_statement q args s =
        let (r, s') = db.prepare q s in
        elim r [
          | panicked ↦ (panicked, s')
          | err e ↦ (err e, s')
          | ok _ ↦ db.exec_prepared q args s'
        ]

    -- Commit
    unfoldable pub commit : Json F → WriteNotification F → S → Result (Unit {0}) × S
    commit json wn s = elim (insertion json wn) [
      | panicked ↦ (panicked, s)
      | err e ↦ (err e, s)
      | ok (q, args) ↦ run_statement q args s
    ]

    -- Two statements, the second one where the first succeeds.
    abbrev pub then_exec : Result (Unit {0}) × S → Text → Result (Unit {0}) × S
    then_exec (panicked, s) q = (panicked, s)
    then_exec (err e, s) q = (err e, s)
    then_exec (ok _, s) q = db.exec q s

    -- createTable
    unfoldable pub create_table : S → Result (Unit {0}) × S
    create_table s = db.exec (sprintf create_format features_table) s

    -- createTask; fmt.Sprintf fills the verbs from the left.
    unfoldable pub create_task : Text → S → Result (Unit {0}) × S
    create_task warehouse s =
        then_exec
          (db.exec
            (task_head ++ features_table ++ task_warehouse ++ warehouse ++ task_merge
              ++ features_table ++ task_match)
            s)
          (sprintf resume_format features_table)

    -- init
    unfoldable pub init : Text → S → Result (Unit {0}) × S
    init warehouse s =
        let (r, s') = create_table s in
        elim r [ panicked ↦ (panicked, s') | err e ↦ (err e, s') | ok _ ↦ create_task warehouse s' ]

    -- The type of a view and its query.
    unfoldable pub view_of :
        Execute
        → QueryBuilder
        → (Text → Result FeatureDescriptor)
        → FeatureDescriptor
        → Option ModelSpec
        → Result (Text × Text)
    view_of execute qb getter fd model =
        if text_eq fd.builder (codes "model")
        then elim model [
          | none ↦ err model_required
          | some fs ↦ (feature_set execute qb fs getter >>= λ q. ok (codes "Model", q))
        ]
        else (feature execute qb fd >>= λ q. ok (codes "Feature", q))

    -- BindFeature
    unfoldable pub bind_feature :
        Execute
        → QueryBuilder
        → (Text → Result FeatureDescriptor)
        → FeatureDescriptor
        → Option ModelSpec
        → S
        → Result (Unit {0}) × S
    bind_feature execute qb getter fd model s = elim (view_of execute qb getter fd model) [
      | panicked ↦ (panicked, s)
      | err e ↦ (err e, s)
      | ok (typ, query) ↦ db.exec (view_text (default_escape_name fd.fqn) fd.fqn typ query) s
    ]

    -- snowflakeWriter as an api.HistoricalWriter; FlushAll does nothing.
    unfoldable pub snowflake_writer :
        Json F
        → Execute
        → QueryBuilder
        → (Text → Result FeatureDescriptor)
        → HistoricalWriter F ModelSpec S
    snowflake_writer json execute qb getter = record {
      commit = commit json;
      flush_all = λ s. (ok tt, s);
      bind = bind_feature execute qb getter;
    }

-- The query builder of HistoricalWriterFactory.
unfoldable pub snowflake_builder : Result QueryBuilder
snowflake_builder = new_query_builder (record {
  features_table = features_table;
  escape_name = none;
  subtract_duration = some subtract_duration;
  cast_feature = some cast_feature;
  tmp_name = none;
})
