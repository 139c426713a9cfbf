-- ===== src/Redis/ReadBack.antt =====
-- A read of what the transaction of Set has written (primitives.go of
-- internal/plugins/providers/state/redis).
use natun.Prelude.{
  ℕ, ◌+◌, ◌*◌, ◌/◌, ◌<◌, ◌≡◌, refl, sym, subst, Bool, true, false, List, [], ◌∷◌, ◌++◌, some, arith,
  ltb, All, if◌then◌else◌, ◌∙◌,
}
use natun.Prelude.Int.{pos}
use natun.Prelude.Text.{Text}
use natun.Prelude.Digits.{format_int, parse_int, parse_int-format_int, int64_limit}
use natun.Api.Errors.{Error, Result, ok, err, ◌>>=◌, >>=-eq-ok, ok-injective}
use natun.Api.Primitive
use natun.Api.Primitive.{PrimitiveType}
use natun.Api.Value.{FloatOps, Scalar, scalar, type_detect}
use natun.Api.ScalarText.{
  scalar_string, scalar_text, scalar_from_string, kept, IsStorable,
  scalar_from_string-scalar_string,
}
use natun.Api.Descriptor.{FeatureDescriptor, valid_window}
use natun.Api.Keys.{Keys}
use natun.Redis.Command.{Command, set, run_max, primitive_key, timestamp_key, micro, set_timestamp}
use natun.Redis.Primitives.{set_primitive, too_old, store_value, keep_versions}
use natun.Redis.Read.{RedisReads, read_timestamp, get_timestamp, read_value, read_at, get_primitive}

module _ {A : Type 0} {c : A} where
  then_ok : (b : Bool) (x y : Result A) → b ≡ true → (if b then x else y) ≡ ok c → x ≡ ok c
  then_ok true x y e h = h
  then_ok false x y e h = cc e

  else_ok : (b : Bool) (x y : Result A) → b ≡ false → (if b then x else y) ≡ ok c → y ≡ ok c
  else_ok true x y e h = cc e
  else_ok false x y e h = h

  guard_ok : (b : Bool) (e : Error) (y : Result A) → (if b then err e else y) ≡ ok c → y ≡ ok c
  guard_ok true e y h = cc h
  guard_ok false e y h = h

module _ {A : Type 0} (P : A → Type 0) where
  All-append_right : (xs ys : List A) → All P (xs ++ ys) → All P ys
  All-append_right [] ys h = h
  All-append_right (x ∷ xs) ys (_, h) = All-append_right xs ys h

read_timestamp_of :
    (t : Text) (n : ℕ) → parse_int 10 t ≡ some (pos n) → read_timestamp t ≡ ok (n * 1000)
unfolding read_timestamp
read_timestamp_of t n h = rw (h, read_timestamp)

read_timestamp-format_int :
    (ts : ℕ) → ts < int64_limit → read_timestamp (format_int 10 (micro ts)) ≡ ok (ts / 1000 * 1000)
read_timestamp-format_int ts h =
    read_timestamp_of _ (ts / 1000)
      (parse_int-format_int 10 (pos (ts / 1000)) (omega arith) (omega arith) (omega arith))

module _ {F S : Type 0} ⦃ops : FloatOps F⦄ (redis : RedisReads S) where
  -- The store has at the key of a command what the command sets it to.
  abbrev pub Holds : S → Command F → Type 0
  Holds s (set key t ttl) = redis.get key s ≡ ok (some t)
  Holds s (run_max key n ttl) = redis.get key s ≡ ok (some (format_int 10 n))
  Holds s _ = Unit

  -- The last two commands of the transaction of Set for a scalar.
  set_primitive-tail :
      (now : ℕ) (fd : FeatureDescriptor) (keys : Keys) (v : Scalar F) (ts : ℕ)
      (cs : List (Command F))
      → valid_window fd ≡ false
      → Primitive.scalar fd.primitive ≡ true
      → set_primitive now fd keys (scalar v) ts ≡ ok cs
      → (key : Text) × (before : List (Command F)) × (primitive_key fd keys 0 ≡ ok key)
        × (cs
            ≡ before
              ++ (set key (scalar_text v) fd.staleness ∷ set_timestamp key ts fd.staleness ∷ []))
  unfolding set_primitive store_value scalar_string
  set_primitive-tail now fd keys v ts cs plain sc h =
      let h1 = guard_ok (too_old now fd ts) _ _ (else_ok (valid_window fd) _ _ plain h) in
      let (key, ek, h2) = >>=-eq-ok (primitive_key fd keys 0) _ h1 in
      let (before, eb, h3) = >>=-eq-ok (keep_versions fd keys ts) _ h2 in
      let (stored, es, h4) = >>=-eq-ok (store_value fd key (scalar v)) _ h3 in
      let one : set key (scalar_text v) fd.staleness ∷ [] ≡ stored =
        ok-injective (then_ok (Primitive.scalar fd.primitive) _ _ sc es) in
      (key, before, ek, sym (ok-injective h4) ∙ rw (← one) refl)

  text_back :
      (v : Scalar F) (pt : PrimitiveType)
      → IsStorable v
      → type_detect (scalar v) ≡ ok pt
      → scalar_from_string (scalar_text v) pt ≡ ok (kept v)
  unfolding scalar_string
  text_back v pt st typed =
      subst (λ r. (r >>= λ p. scalar_from_string (scalar_text v) p) ≡ ok (kept v)) typed
        (scalar_from_string-scalar_string v st)

  -- A scalar that Set has accepted for a feature without windows, if it has the type of the feature
  -- and fits int64, is what a read gets from a store that holds the values and timestamps of the
  -- transaction: the value up to the microsecond, with its timestamp cut to the microsecond, fresh
  -- exactly until the freshness of the feature has passed.
  pub get_primitive-set_primitive :
      (now later : ℕ) (fd : FeatureDescriptor) (keys : Keys) (v : Scalar F) (ts : ℕ)
      (cs : List (Command F)) (s : S)
      → valid_window fd ≡ false
      → Primitive.scalar fd.primitive ≡ true
      → type_detect (scalar v) ≡ ok fd.primitive
      → IsStorable v
      → ts < int64_limit
      → set_primitive now fd keys (scalar v) ts ≡ ok cs
      → All (Holds s) cs
      → get_primitive redis later fd keys 0 s
        ≡ ok (
            some (record {
              value = scalar (kept v);
              timestamp = ts / 1000 * 1000;
              fresh = ltb later (ts / 1000 * 1000 + fd.freshness);
            }))
  unfolding get_primitive get_timestamp read_at read_value set_timestamp
  get_primitive-set_primitive now later fd keys v ts cs s plain sc typed st small h holds =
      let (key, before, ek, ec) = set_primitive-tail now fd keys v ts cs plain sc h in
      let (here, (stamp, _)) =
        All-append_right (Holds s) before _ (subst (All (Holds s)) ec holds) in
      let text : scalar_from_string (scalar_text v) fd.primitive ≡ ok (kept v) =
        text_back v fd.primitive st typed in
      let at_stamp : redis.get (timestamp_key key) s ≡ ok (some (format_int 10 (micro ts))) =
        stamp in
      rw ek (rw at_stamp (rw (read_timestamp-format_int ts small) (rw sc (rw here (rw text refl)))))
