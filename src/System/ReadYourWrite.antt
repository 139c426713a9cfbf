-- ===== src/System/ReadYourWrite.antt =====
-- A request that sets a value and one that gets it: engine.Set and engine.Get of
-- internal/engine/engine.go over the methods of internal/plugins/providers/state/redis.
use natun.Prelude.{
  ℕ, ◌+◌, ◌*◌, ◌/◌, ◌<◌, ◌≤◌, ◌≡◌, refl, ◌∙◌, ap, true, false, List, none, some, arith, All, inl,
  inr, Bool-cases, ltb,
}
use natun.Prelude.Text.{Text}
use natun.Prelude.Digits.{int64_limit}
use natun.Api.Errors.{ok}
use natun.Api.Primitive
use natun.Api.Value.{
  FloatOps, Scalar, Value, str, int, flt, bool, time, scalar, type_detect, go_type,
}
use natun.Api.ScalarText.{kept, IsStorable}
use natun.Api.Descriptor.{FeatureDescriptor, is_empty, valid_window}
use natun.Api.Keys.{Keys, encode}
use natun.Api.Selector.{Selector, parse_selector}
use natun.Engine.Pipeline.{Context, Middleware, closed}
use natun.Engine.Priority.{FeaturePipeliner}
use natun.Engine.World.{World, method_set, add_collect_notification, add_write_notification}
use natun.Engine.Write.{is_retrospective, run_method, notify_historian}
use natun.Engine.Read.{version_error, is_expired}
use natun.Engine.Request.{feature_for_request, got, set, get}
use natun.Engine.Request.Reads.{IsHookless, served, get-served}
use natun.Engine.Request.Writes.{IsUnhookedOnWrite, given, after_write, write-taken}
use natun.Redis.Command.{Command}
use natun.Redis.Primitives.{set_primitive}
use natun.Redis.ReadBack.{Holds, get_primitive-set_primitive}
use natun.Redis.Window.{get_state}
use natun.Redis.State.{RedisServer, redis_state}

type_detect-kept :
    {F : Type 0} ⦃ops : FloatOps F⦄ (v : Scalar F)
    → type_detect (scalar (kept v)) ≡ type_detect (scalar v)
unfolding kept type_detect go_type
type_detect-kept (str s) = refl
type_detect-kept (int n) = refl
type_detect-kept (flt x) = refl
type_detect-kept (bool b) = refl
type_detect-kept (time t) = refl

version_error-zero : (fd : FeatureDescriptor) (n : ℕ) → n ≡ 0 → version_error fd n ≡ none
unfolding version_error
version_error-zero fd n e = rw e refl

module _ {F S : Type 0} ⦃ops : FloatOps F⦄ (server : RedisServer F S) where
  -- What a read of a scalar that was set at `ts` finds at the time `later`.
  abbrev pub stored : ℕ → FeatureDescriptor → Scalar F → ℕ → Value F
  stored later fd v ts = record {
    value = scalar (kept v);
    timestamp = ts / 1000 * 1000;
    fresh = ltb later (ts / 1000 * 1000 + fd.freshness);
  }

  notify-store :
      (now : ℕ) (fd : FeatureDescriptor) (encoded : Text) (v : Value F) (w : World F S)
      → (notify_historian (redis_state server) now fd encoded v w).store ≡ w.store
  unfolding notify_historian
  notify-store now fd encoded v w = elim (Bool-cases (valid_window fd)) [
    | inl e ↦ rw e (unfold add_collect_notification in refl)
    | inr e ↦ rw e (unfold add_write_notification in refl)
  ]

  state_get-stored :
      (now later : ℕ) (fd : FeatureDescriptor) (keys : Keys) (v : Scalar F) (ts n : ℕ)
      (cs : List (Command F)) (s : S)
      → n ≡ 0
      → valid_window fd ≡ false
      → Primitive.scalar fd.primitive ≡ true
      → type_detect (scalar v) ≡ ok fd.primitive
      → IsStorable v
      → ts < int64_limit
      → set_primitive now fd keys (scalar v) ts ≡ ok cs
      → All (Holds server.reads s) cs
      → (redis_state server).get later fd keys n s ≡ ok (some (stored later fd v ts))
  unfolding redis_state get_state
  state_get-stored now later fd keys v ts n cs s e plain sc td st small tx holds = rw plain (
      rw e (
        get_primitive-set_primitive server.reads now later fd keys v ts cs s plain sc td st small tx
          holds))

  taken :
      (now : ℕ) (fd : FeatureDescriptor) (keys : Keys) (v : Scalar F) (ts : ℕ)
      (cs : List (Command F)) (r s : S)
      → set_primitive now fd keys (scalar v) ts ≡ ok cs
      → server.exec now cs r ≡ (ok tt, s)
      → run_method
          (redis_state server)
          now
          method_set
          fd
          keys
          (given (redis_state server) now (scalar v) ts)
          r
        ≡ (ok tt, s)
  unfolding run_method redis_state
  taken now fd keys v ts cs r s tx ran = rw tx ran

  not_late :
      (now : ℕ) (fd : FeatureDescriptor) (v : Value F)
      → now ≤ v.timestamp + fd.staleness
      → is_retrospective (redis_state server) now fd v ≡ false
  unfolding is_retrospective
  not_late now fd v h = ground arith

  served-live :
      (later : ℕ) (fd : FeatureDescriptor) (v : Value F)
      → later ≤ v.timestamp + fd.staleness
      → served (redis_state server) later fd (some v) ≡ v
  unfolding is_expired
  served-live later fd v h =
      let e : ltb (v.timestamp + fd.staleness) later ≡ false = ground arith in rw e refl

  -- For a feature without windows and hooks, with a data source and of a scalar type: Set accepts a
  -- value of the feature's type that fits int64 and is not past its staleness, with keys that can be
  -- encoded, if the server executes the transaction and then holds the values and the timestamps that
  -- it sets; and a later Get of the latest version, with the same keys and before the value is past
  -- its staleness, answers with that value (its time and its timestamp cut to the microsecond) and no
  -- error. Both pipelines end before their deadlines, if they have one.
  pub get-set :
      (features : List (Text × FeaturePipeliner (Middleware F (World F S))))
      (f : FeaturePipeliner (Middleware F (World F S))) (ctx ctx' : Context) (selector : Text)
      (sel : Selector) (keys : Keys) (v : Scalar F) (ts now later : ℕ) (w : World F S)
      (encoded : Text) (cs : List (Command F)) (s : S)
      → feature_for_request features selector ≡ ok f
      → parse_selector selector ≡ ok sel
      → sel.version ≡ 0
      → IsHookless F S f
      → IsUnhookedOnWrite F S f
      → is_empty f.descriptor.data_source ≡ false
      → valid_window f.descriptor ≡ false
      → Primitive.scalar f.descriptor.primitive ≡ true
      → type_detect (scalar v) ≡ ok f.descriptor.primitive
      → IsStorable v
      → ts < int64_limit
      → encode keys f.descriptor ≡ ok encoded
      → now ≤ ts + f.descriptor.staleness
      → later ≤ ts / 1000 * 1000 + f.descriptor.staleness
      → set_primitive now f.descriptor keys (scalar v) ts ≡ ok cs
      → server.exec now cs w.store ≡ (ok tt, s)
      → All (Holds server.reads s) cs
      → let (done, w') =
          set (redis_state server) now closed features ctx selector keys (scalar v) ts w in
        (done ≡ ok tt)
        × ((get (redis_state server) later closed features ctx' selector keys w').0
            ≡ got (stored later f.descriptor v ts) (some f.descriptor) none)
  get-set features f ctx ctx' selector sel keys v ts now later w encoded cs s found parsed latest
        hookless unhooked ds plain sc td st small en young live tx ran holds =
      let state = redis_state server in
      let fd = f.descriptor in
      let w' = after_write state now fd encoded (given state now (scalar v) ts) s w in
      let wrote : set state now closed features ctx selector keys (scalar v) ts w ≡ (ok tt, w') =
        unfold set in
        write-taken state now features f ctx selector keys (scalar v) ts method_set w encoded s
          found unhooked ds td en (not_late now fd (given state now (scalar v) ts) young)
          (taken now fd keys v ts cs w.store s tx ran) in
      let held : state.get later fd keys sel.version w'.store ≡ ok (some (stored later fd v ts)) =
        rw (notify-store now fd encoded (given state now (scalar v) ts) (record w { store = s })) (
          state_get-stored now later fd keys v ts sel.version cs s latest plain sc td st small tx
            holds) in
      let served_it =
        get-served state later features f ctx' selector sel keys w' (some (stored later fd v ts))
          found hookless ds plain parsed (version_error-zero fd sel.version latest) held
          (inr (type_detect-kept v ∙ td)) in
      rw wrote (
        refl,
        served_it
            ∙ ap (λ x. got x (some fd) none) (served-live later fd (stored later fd v ts) live),
      )
