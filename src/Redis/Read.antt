-- ===== src/Redis/Read.antt =====
-- The reads of the state: Get and getPrimitive of primitives.go and getTimestamp of common.go, both
-- under internal/plugins/providers/state/redis. The client's reads of a Redis server are a parameter.
use natun.Prelude.{ℕ, ◌+◌, ◌*◌, List, [], ◌∷◌, Option, none, some, ltb, if◌then◌else◌}
use natun.Prelude.Int.{pos_part}
use natun.Prelude.Text.{Text}
use natun.Prelude.Digits.{parse_int}
use natun.Api.Errors.{Result, ok, err, ◌>>=◌, bad_number, external}
use natun.Api.Primitive
use natun.Api.Primitive.{PrimitiveType, singular}
use natun.Api.Value.{FloatOps, Scalar, AnyValue, Value, scalar, anys, normalize_any}
use natun.Api.ScalarText.{scalar_from_string}
use natun.Api.Descriptor.{FeatureDescriptor}
use natun.Api.Keys.{Keys}
use natun.Redis.Command.{primitive_key, timestamp_key}

-- GET, with `none` for redis.Nil, and LRANGE key 0 -1, of what the server has at the moment of the read: a key
-- whose time to live is over is missing from it.
pub record RedisReads (S : Type 0) : Type 0 where
  pub get : Text → S → Result (Option Text)
  pub lrange : Text → S → Result (List Text)

-- strconv.ParseInt and time.UnixMicro; times before 1970 are not represented.
unfoldable pub read_timestamp : Text → Result ℕ
read_timestamp s = elim (parse_int 10 s) [ none ↦ err bad_number | some n ↦ ok (pos_part n * 1000) ]

-- getTimestamp, `none` for an error that is redis.Nil
unfoldable pub get_timestamp : {S : Type 0} → RedisReads S → Text → S → Result (Option ℕ)
unfolding read_timestamp
get_timestamp redis key s = redis.get (timestamp_key key) s >>= λ found. elim found [
  | none ↦ ok none
  | some t ↦ (read_timestamp t >>= λ ts. ok (some ts))
]

module _ {F : Type 0} ⦃ops : FloatOps F⦄ where
  -- The loop over the elements of a list.
  unfoldable pub read_elements : List Text → PrimitiveType → Result (List (Option (Scalar F)))
  read_elements [] pt = ok []
  read_elements (t ∷ ts) pt = do
    v ← scalar_from_string t pt
    vs ← read_elements ts pt
    ok (some v ∷ vs)

module _ {F S : Type 0} ⦃ops : FloatOps F⦄ (redis : RedisReads S) where
  -- The value of a key whose timestamp is there; a missing key is an error here.
  unfoldable pub read_value : FeatureDescriptor → Text → S → Result (AnyValue F)
  unfolding read_elements
  read_value fd key s =
      if Primitive.scalar fd.primitive
      then (redis.get key s >>= λ found. elim found [
        | none ↦ err external
        | some t ↦ (scalar_from_string t fd.primitive >>= λ v. ok (scalar v))
      ])
      else (redis.lrange key s >>= λ ts.
          read_elements ts (singular fd.primitive) >>= λ vs. normalize_any (anys vs))

  -- The end of getPrimitive, once the timestamp is read.
  unfoldable pub read_at : ℕ → FeatureDescriptor → Text → S → Option ℕ → Result (Option (Value F))
  read_at now fd key s none = ok none
  read_at now fd key s (some ts) = read_value fd key s >>= λ v.
      ok (some (record { value = v; timestamp = ts; fresh = ltb now (ts + fd.freshness) }))

  -- getPrimitive
  unfoldable pub get_primitive : ℕ → FeatureDescriptor → Keys → ℕ → S → Result (Option (Value F))
  get_primitive now fd keys version s = do
    key ← primitive_key fd keys version
    ts ← get_timestamp redis key s
    read_at now fd key s ts
