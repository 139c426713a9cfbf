-- ===== src/Redis/Primitives.antt =====
-- The methods of the state: primitives.go of internal/plugins/providers/state/redis, and WindowAdd
-- of windows.go beside it. A writing method is the transaction that it executes; `now` is the
-- reading of the clock.
use natun.Prelude.{
  ℕ, zero, suc, ◌+◌, ◌*◌, Bool, not, List, [], ◌∷◌, ◌++◌, map, Option, none, some, ltb, ◌==◌,
  if◌then◌else◌,
}
use natun.Prelude.Int.{pos}
use natun.Prelude.Text.{Text, codes}
use natun.Api.Errors.{
  Result, ok, err, panicked, ◌>>=◌, timestamp_too_old, append_to_window, append_to_scalar,
  incr_window, incr_list, incr_not_numeric, unsupported_value,
}
use natun.Api.Primitive
use natun.Api.Aggr.{AggrFn, sum, max, min, count}
use natun.Api.Value.{
  FloatOps, Scalar, AnyValue, Elem, GoType, str, int, flt, bool, time, go_string, go_int, go_float,
  go_bool, go_time, nil, scalar, slice, anys,
}
use natun.Api.ScalarText.{scalar_string}
use natun.Api.Descriptor.{FeatureDescriptor, KeepPrevious, valid_window}
use natun.Api.Keys.{Keys}
use natun.Api.Bucket.{bucket_name, bucket_dead_time}
use natun.Redis.Command.{
  Command, set, del, rpush, pexpire, copy, persist, incr_by, incr_by_float, hincr_by_float,
  hincr_by, run_hmin, run_hmax, pexpire_at, primitive_key, set_timestamp, set_timestamp_expire_at,
}

-- One round of the loop of keepVersions, for version `i`.
unfoldable pub keep_version :
    {F : Type 0} → KeepPrevious → FeatureDescriptor → Keys → ℕ → ℕ → Result (List (Command F))
keep_version kp fd keys ts i = do
  old ← primitive_key fd keys i
  new ← primitive_key fd keys (i + 1)
  ok (
      copy old new
      ∷ (if kp.over == 0 then persist new else set_timestamp new ts ((i + 1) * kp.over))
      ∷ [])

-- The loop, from version `n - 1` down to 0.
unfoldable pub keep_loop :
    {F : Type 0} → KeepPrevious → FeatureDescriptor → Keys → ℕ → ℕ → Result (List (Command F))
unfolding keep_version
keep_loop kp fd keys ts zero = ok []
keep_loop kp fd keys ts (suc i) = do
  first ← keep_version kp fd keys ts i
  rest ← keep_loop kp fd keys ts i
  ok (first ++ rest)

-- keepVersions
unfoldable pub keep_versions :
    {F : Type 0} → FeatureDescriptor → Keys → ℕ → Result (List (Command F))
keep_versions fd keys ts = elim fd.keep_previous [
  | none ↦ ok []
  | some kp ↦ keep_loop kp fd keys ts kp.versions
]

-- time.Since(ts) > fd.Staleness
unfoldable pub too_old : ℕ → FeatureDescriptor → ℕ → Bool
too_old now fd ts = ltb (ts + fd.staleness) now

-- if fd.Staleness > 0 { tx.PExpire(…) }
abbrev pub expire : {F : Type 0} → Text → FeatureDescriptor → List (Command F)
expire key fd = if ltb 0 fd.staleness then pexpire key fd.staleness ∷ [] else []

-- The elements of a value through package reflect. A text has its bytes as elements, here those of
-- an ASCII text; other scalars, nil and maps panic.
unfoldable pub slice_elements : {F : Type 0} (t : GoType) → List (Elem F t) → List (AnyValue F)
slice_elements go_string xs = map (λ s. scalar (str s)) xs
slice_elements go_int xs = map (λ n. scalar (int n)) xs
slice_elements go_float xs = map (λ x. scalar (flt x)) xs
slice_elements go_bool xs = map (λ b. scalar (bool b)) xs
slice_elements go_time xs = map (λ t. scalar (time t)) xs

unfoldable pub any_elements : {F : Type 0} → List (Option (Scalar F)) → List (AnyValue F)
any_elements [] = []
any_elements (none ∷ vs) = nil ∷ any_elements vs
any_elements (some v ∷ vs) = scalar v ∷ any_elements vs

unfoldable pub reflect_elements : {F : Type 0} → AnyValue F → Result (List (AnyValue F))
unfolding slice_elements any_elements
reflect_elements (slice t xs) = ok (slice_elements t xs)
reflect_elements (anys vs) = ok (any_elements vs)
reflect_elements (scalar (str s)) = ok (map (λ c. scalar (int (pos c))) s)
reflect_elements _ = panicked

module _ {F : Type 0} ⦃ops : FloatOps F⦄ where
  -- float64(v), or the float itself
  unfoldable pub float_of : AnyValue F → Result F
  float_of (scalar (int n)) = ok (ops.of_int n)
  float_of (scalar (flt x)) = ok x
  float_of _ = err unsupported_value

  -- One round of the loop of WindowAdd.
  unfoldable pub add_to_bucket : Text → F → AggrFn → List (Command F)
  add_to_bucket key val sum = hincr_by_float key (codes "sum") val ∷ []
  add_to_bucket key val count = hincr_by key (codes "count") (pos 1) ∷ []
  add_to_bucket key val min = run_hmin key (codes "min") val ∷ []
  add_to_bucket key val max = run_hmax key (codes "max") val ∷ []
  add_to_bucket key val _ = []

  unfoldable pub add_all : Text → F → List AggrFn → List (Command F)
  unfolding add_to_bucket
  add_all key val [] = []
  add_all key val (f ∷ fs) = add_to_bucket key val f ++ add_all key val fs

  -- WindowAdd
  unfoldable pub window_add :
      ℕ → FeatureDescriptor → Keys → AnyValue F → ℕ → Result (List (Command F))
  unfolding add_all float_of
  window_add now fd keys value ts = do
    key ← primitive_key fd keys 0
    val ← float_of value
    exp ← bucket_dead_time (bucket_name ts fd.freshness) fd.freshness fd.staleness
    ok (add_all key val fd.aggr ++ (set_timestamp_expire_at key ts exp ∷ pexpire_at key exp ∷ []))

  -- The part of Set that depends on the type of the feature.
  unfoldable pub store_value : FeatureDescriptor → Text → AnyValue F → Result (List (Command F))
  store_value fd key value =
      if Primitive.scalar fd.primitive
      then (scalar_string value >>= λ s. ok (set key s fd.staleness ∷ []))
      else (reflect_elements value >>= λ xs. ok ((del key ∷ rpush key xs ∷ []) ++ expire key fd))

  -- Set
  unfoldable pub set_primitive :
      ℕ → FeatureDescriptor → Keys → AnyValue F → ℕ → Result (List (Command F))
  set_primitive now fd keys value ts =
      if valid_window fd
      then window_add now fd keys value ts
      else if too_old now fd ts
      then err timestamp_too_old
      else (do
        key ← primitive_key fd keys 0
        kept ← keep_versions fd keys ts
        stored ← store_value fd key value
        ok (kept ++ (stored ++ (set_timestamp key ts fd.staleness ∷ []))))

  -- Append
  unfoldable pub append : ℕ → FeatureDescriptor → Keys → AnyValue F → ℕ → Result (List (Command F))
  append now fd keys value ts =
      if valid_window fd
      then err append_to_window
      else if too_old now fd ts
      then err timestamp_too_old
      else if Primitive.scalar fd.primitive
      then err append_to_scalar
      else (do
        key ← primitive_key fd keys 0
        kept ← keep_versions fd keys ts
        ok (
            kept
            ++ ((rpush key (value ∷ []) ∷ expire key fd)
                ++ (set_timestamp key ts fd.staleness ∷ []))))

  -- The switch over the type of the increment.
  unfoldable pub increment : Text → AnyValue F → Result (Command F)
  increment key (scalar (int n)) = ok (incr_by key n)
  increment key (scalar (flt x)) = ok (incr_by_float key x)
  increment key _ = err incr_not_numeric

  -- Incr
  unfoldable pub incr : ℕ → FeatureDescriptor → Keys → AnyValue F → ℕ → Result (List (Command F))
  unfolding increment
  incr now fd keys value ts =
      if valid_window fd
      then err incr_window
      else if too_old now fd ts
      then err timestamp_too_old
      else if not (Primitive.scalar fd.primitive)
      then err incr_list
      else (do
        key ← primitive_key fd keys 0
        kept ← keep_versions fd keys ts
        c ← increment key value
        ok (kept ++ ((c ∷ expire key fd) ++ (set_timestamp key ts fd.staleness ∷ []))))

  -- Update
  unfoldable pub update : ℕ → FeatureDescriptor → Keys → AnyValue F → ℕ → Result (List (Command F))
  update now fd keys value ts =
      if valid_window fd
      then window_add now fd keys value ts
      else if Primitive.scalar fd.primitive
      then set_primitive now fd keys value ts
      else append now fd keys value ts
