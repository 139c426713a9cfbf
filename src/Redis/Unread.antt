-- ===== src/Redis/Unread.antt =====
-- The keys that a write to a window is about, and those that a read of it looks at (windows.go of
-- internal/plugins/providers/state/redis).
use natun.Prelude.{ℕ, ◌≡◌, ◌≢◌, refl, subst, List, [], ◌∷◌, ◌++◌, All}
use natun.Prelude.Text.{Text}
use natun.Api.Errors.{ok, >>=-eq-ok, ok-injective}
use natun.Api.Aggr.{AggrFn, unknown_fn, sum, avg, max, min, count}
use natun.Api.Value.{FloatOps, AnyValue}
use natun.Api.Descriptor.{FeatureDescriptor}
use natun.Api.Keys.{Keys, encode}
use natun.Api.Bucket.{bucket_name, bucket_dead_time}
use natun.Redis.Command.{
  Command, set, del, rpush, pexpire, copy, persist, incr_by, incr_by_float, hincr_by_float,
  hincr_by, run_hmin, run_hmax, run_max, run_max_exp_at, pexpire_at, print_keys, primitive_key,
  window_key, set_timestamp_expire_at,
}
use natun.Redis.Primitives.{window_add, add_all, add_to_bucket, float_of}

-- The key that a command changes.
abbrev pub target : {F : Type 0} → Command F → Text
target (set key _ _) = key
target (del key) = key
target (rpush key _) = key
target (pexpire key _) = key
target (copy _ key) = key
target (persist key) = key
target (incr_by key _) = key
target (incr_by_float key _) = key
target (hincr_by_float key _ _) = key
target (hincr_by key _ _) = key
target (run_hmin key _ _) = key
target (run_hmax key _ _) = key
target (run_max key _ _) = key
target (run_max_exp_at key _ _) = key
target (pexpire_at key _) = key

-- A key of the form that primitiveKey gives.
abbrev IsBracketed : Text → Type 0
IsBracketed [] = ⊥
IsBracketed (c ∷ s) = c ≡ b'['

IsBracketed-append : (s t : Text) → IsBracketed s → IsBracketed (s ++ t)
IsBracketed-append [] t h = absurd h
IsBracketed-append (c ∷ s) t h = h

primitive_key-IsBracketed :
    (fd : FeatureDescriptor) (keys : Keys) (version : ℕ) (key : Text)
    → primitive_key fd keys version ≡ ok key
    → IsBracketed key
unfolding primitive_key print_keys
primitive_key-IsBracketed fd keys version key h =
    let (e, _, h') = >>=-eq-ok (encode keys fd) _ h in subst IsBracketed (ok-injective h') refl

-- A window key of a feature whose name does not begin with a bracket.
unbracketed :
    (c : ℕ) (name bucket encoded key : Text)
    → c ≢ b'['
    → IsBracketed key
    → key ≢ window_key (c ∷ name) bucket encoded
unfolding window_key
unbracketed c name bucket encoded [] ne h e = absurd h
unbracketed c name bucket encoded (d ∷ key) ne h e = ne (cc (h, e))

module _ {F : Type 0} ⦃ops : FloatOps F⦄ where
  abbrev Bracketed : Command F → Type 0
  Bracketed c = IsBracketed (target c)

  All-append :
      (xs ys : List (Command F)) → All Bracketed xs → All Bracketed ys → All Bracketed (xs ++ ys)
  All-append [] ys hx hy = hy
  All-append (x ∷ xs) ys (h, hx) hy = (h, All-append xs ys hx hy)

  add_to_bucket-Bracketed :
      (key : Text) (val : F) (f : AggrFn)
      → IsBracketed key
      → All Bracketed (add_to_bucket key val f)
  unfolding add_to_bucket
  add_to_bucket-Bracketed key val unknown_fn h = tt
  add_to_bucket-Bracketed key val sum h = (h, tt)
  add_to_bucket-Bracketed key val avg h = tt
  add_to_bucket-Bracketed key val max h = (h, tt)
  add_to_bucket-Bracketed key val min h = (h, tt)
  add_to_bucket-Bracketed key val count h = (h, tt)

  add_all-Bracketed :
      (key : Text) (val : F) (fs : List AggrFn)
      → IsBracketed key
      → All Bracketed (add_all key val fs)
  unfolding add_all
  add_all-Bracketed key val [] h = tt
  add_all-Bracketed key val (f ∷ fs) h =
      All-append _ _ (add_to_bucket-Bracketed key val f h) (add_all-Bracketed key val fs h)

  unread :
      (c : ℕ) (name : Text) (cs : List (Command F))
      → c ≢ b'['
      → All Bracketed cs
      → All (λ x. (bucket encoded : Text) → target x ≢ window_key (c ∷ name) bucket encoded) cs
  unread c name [] ne h = tt
  unread c name (x ∷ cs) ne (h, hs) =
      (λ bucket encoded. unbracketed c name bucket encoded (target x) ne h, unread c name cs ne hs)

  -- WindowAdd changes no key that a read of windows can look at: none of its commands is for a
  -- window key of any feature whose name does not begin with a bracket, whatever the bucket and the
  -- entity.
  pub window_add-unread :
      (now : ℕ) (fd : FeatureDescriptor) (keys : Keys) (value : AnyValue F) (ts : ℕ)
      (cs : List (Command F)) (c : ℕ) (name : Text)
      → c ≢ b'['
      → window_add now fd keys value ts ≡ ok cs
      → All (λ x. (bucket encoded : Text) → target x ≢ window_key (c ∷ name) bucket encoded) cs
  unfolding window_add set_timestamp_expire_at
  window_add-unread now fd keys value ts cs c name ne h =
      let (key, ek, h1) = >>=-eq-ok (primitive_key fd keys 0) _ h in
      let (val, _, h2) = >>=-eq-ok (float_of value) _ h1 in
      let (exp, _, h3) =
        >>=-eq-ok (bucket_dead_time (bucket_name ts fd.freshness) fd.freshness fd.staleness) _ h2 in
      let b = primitive_key-IsBracketed fd keys 0 key ek in
      let all =
        All-append _ (set_timestamp_expire_at key ts exp ∷ pexpire_at key exp ∷ [])
          (add_all-Bracketed key val fd.aggr b) (IsBracketed-append key _ b, (b, tt)) in
      unread c name cs ne (subst (All Bracketed) (ok-injective h3) all)
