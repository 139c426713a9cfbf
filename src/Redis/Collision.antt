-- ===== src/Redis/Collision.antt =====
-- Which keys the transactions of primitives.go and windows.go (internal/plugins/providers/state/redis)
-- are about.
use natun.Prelude.{
  ℕ, zero, suc, ◌+◌, ◌*◌, ◌≡◌, refl, [], ◌∷◌, ◌++◌, Option, none, some, if◌then◌else◌, ◌==◌,
}
use natun.Prelude.Text.{Text}
use natun.Api.Errors.{ok, err, ◌>>=◌, timestamp_too_old, append_to_window, append_to_scalar}
use natun.Api.Value.{FloatOps, AnyValue}
use natun.Api.Descriptor.{FeatureDescriptor, KeepPrevious, valid_window}
use natun.Api.Keys.{Keys, encode}
use natun.Api.Bucket.{bucket_name, bucket_dead_time}
use natun.Redis.Command.{
  rpush, copy, persist, pexpire_at, primitive_key, set_timestamp, set_timestamp_expire_at,
}
use natun.Api.Primitive
use natun.Redis.Primitives.{
  expire, keep_version, keep_loop, keep_versions, too_old, store_value, float_of, add_all,
  window_add, set_primitive, append, update,
}

abbrev pub renamed : FeatureDescriptor → Text → FeatureDescriptor
renamed fd name = record fd { fqn = name }

primitive_key-renamed :
    (fd : FeatureDescriptor) (name : Text) (keys : Keys) (version : ℕ)
    → primitive_key (renamed fd name) keys version ≡ primitive_key fd keys version
unfolding primitive_key encode
primitive_key-renamed fd name keys version = refl

keep_loop-renamed :
    {F : Type 0} (kp : KeepPrevious) (fd : FeatureDescriptor) (name : Text) (keys : Keys) (ts : ℕ)
    (n : ℕ)
    → keep_loop {F = F} kp (renamed fd name) keys ts n ≡ keep_loop kp fd keys ts n
unfolding keep_loop keep_version
keep_loop-renamed kp fd name keys ts zero = refl
keep_loop-renamed kp fd name keys ts (suc i) = λ j. (do
  first ← (do
    old ← primitive_key-renamed fd name keys i j
    new ← primitive_key-renamed fd name keys (i + 1) j
    ok (
        copy old new
        ∷ (if kp.over == 0 then persist new else set_timestamp new ts ((i + 1) * kp.over))
        ∷ []))
  rest ← keep_loop-renamed kp fd name keys ts i j
  ok (first ++ rest))

keep_versions-renamed :
    {F : Type 0} (fd : FeatureDescriptor) (name : Text) (keys : Keys) (ts : ℕ)
    → keep_versions {F = F} (renamed fd name) keys ts ≡ keep_versions fd keys ts
unfolding keep_versions
keep_versions-renamed {F} fd name keys ts = kept fd.keep_previous
  where
    kept :
        (kp : Option KeepPrevious)
        → elim kp [
          | none ↦ ok []
          | some k ↦ keep_loop {F = F} k (renamed fd name) keys ts k.versions
        ]
          ≡ elim kp [ none ↦ ok [] | some k ↦ keep_loop {F = F} k fd keys ts k.versions ]
    kept none = refl
    kept (some k) = keep_loop-renamed k fd name keys ts k.versions

module _ {F : Type 0} ⦃ops : FloatOps F⦄ (now : ℕ) (fd : FeatureDescriptor) (name : Text)
    (keys : Keys) where
  store_value-renamed :
      (key : Text) (value : AnyValue F)
      → store_value (renamed fd name) key value ≡ store_value fd key value
  unfolding store_value
  store_value-renamed key value = refl

  window_add-renamed :
      (value : AnyValue F) (ts : ℕ)
      → window_add now (renamed fd name) keys value ts ≡ window_add now fd keys value ts
  unfolding window_add
  window_add-renamed value ts = λ j. (do
    key ← primitive_key-renamed fd name keys 0 j
    val ← float_of value
    exp ← bucket_dead_time (bucket_name ts fd.freshness) fd.freshness fd.staleness
    ok (add_all key val fd.aggr ++ (set_timestamp_expire_at key ts exp ∷ pexpire_at key exp ∷ [])))

  -- Set does not look at the name of a feature: for two features that differ in their FQN only, it
  -- executes the same transaction, on the same keys, or fails with the same error.
  pub set_primitive-renamed :
      (value : AnyValue F) (ts : ℕ)
      → set_primitive now (renamed fd name) keys value ts ≡ set_primitive now fd keys value ts
  unfolding set_primitive valid_window too_old store_value
  set_primitive-renamed value ts = λ j.
      if valid_window fd
      then window_add-renamed value ts j
      else if too_old now fd ts
      then err timestamp_too_old
      else (do
        key ← primitive_key-renamed fd name keys 0 j
        kept ← keep_versions-renamed fd name keys ts j
        stored ← store_value fd key value
        ok (kept ++ (stored ++ (set_timestamp key ts fd.staleness ∷ []))))

  append-renamed :
      (value : AnyValue F) (ts : ℕ)
      → append now (renamed fd name) keys value ts ≡ append now fd keys value ts
  unfolding append valid_window too_old
  append-renamed value ts = λ j.
      if valid_window fd
      then err append_to_window
      else if too_old now fd ts
      then err timestamp_too_old
      else if Primitive.scalar fd.primitive
      then err append_to_scalar
      else (do
        key ← primitive_key-renamed fd name keys 0 j
        kept ← keep_versions-renamed fd name keys ts j
        ok (
            kept
            ++ ((rpush key (value ∷ []) ∷ expire key fd)
                ++ (set_timestamp key ts fd.staleness ∷ []))))

  -- For two features that differ in their FQN only, Update executes the same transaction, or fails
  -- with the same error, whichever of WindowAdd, Set and Append it calls.
  pub update-renamed :
      (value : AnyValue F) (ts : ℕ)
      → update now (renamed fd name) keys value ts ≡ update now fd keys value ts
  unfolding update valid_window
  update-renamed value ts = λ j.
      if valid_window fd
      then window_add-renamed value ts j
      else if Primitive.scalar fd.primitive
      then set_primitive-renamed value ts j
      else append-renamed value ts j
