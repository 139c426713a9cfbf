-- ===== src/Engine/Write/Notify.antt =====
-- A write and its notification (setMiddleware of internal/engine/engine_pipeline.go).
use natun.Prelude.{
  ℕ, ◌+◌, ◌<◌, ◌≤◌, ◌≡◌, refl, ap, true, false, [], ◌∷◌, ◌++◌, some, arith, if◌then◌else◌,
  Bool-cases, inl, inr,
}
use natun.Prelude.Text.{Text}
use natun.Api.Errors.{Result, ok, err, panicked}
use natun.Api.Primitive.{PrimitiveType, primitive_eq}
use natun.Api.Value.{Value, type_detect}
use natun.Api.Descriptor.{FeatureDescriptor, is_empty, valid_window}
use natun.Api.Keys.{Keys, encode}
use natun.Engine.Pipeline.{Context, Decision, pass, stop, halt}
use natun.Engine.Pipeline.Timeout.{Forwards}
use natun.Api.Bucket.{bucket_name}
use natun.Engine.World.{
  StateOps, StateMethod, method_get, method_set, method_append, method_incr, method_update,
  method_window_add, World, WriteNotification, CollectNotification, add_write_notification,
  add_collect_notification,
}
use natun.Engine.Write.{
  run_method, is_retrospective, notify_historian, after_method, write_encoded, write_typed,
  set_decision, set_middleware,
}

module _ {F S : Type 0} (state : StateOps F S) (now : ℕ) where
  -- The state behind an accepted write: a retrospective value is not given to it.
  abbrev pub written : StateMethod → FeatureDescriptor → Keys → Value F → World F S → World F S
  written method fd keys val w =
      if is_retrospective state now fd val
      then w
      else record w { store = (run_method state now method fd keys val w.store).1 }

  -- What a decision of the set middleware hands on, by the functions of the middleware itself.
  abbrev HandsOn :
      StateMethod → FeatureDescriptor → Keys → Value F → World F S → Decision F (World F S) → Type 0
  HandsOn method fd keys val w (pass ctx keys' val' w') =
      (keys' ≡ keys)
      × (val' ≡ val)
      × (encoded : Text) × (encode keys fd ≡ ok encoded)
      × (w' ≡ notify_historian state now fd encoded val (written method fd keys val w))
      × (is_retrospective state now fd val ≡ false
          → (run_method state now method fd keys val w.store).0 ≡ ok tt)
  HandsOn method fd keys val w (stop e w') =
      (w'.pending_writes ≡ w.pending_writes) × (w'.pending_collects ≡ w.pending_collects)
  HandsOn method fd keys val w (halt w') =
      (w'.pending_writes ≡ w.pending_writes) × (w'.pending_collects ≡ w.pending_collects)

  notify_of_retrospective :
      (fd : FeatureDescriptor) (encoded : Text) (val : Value F) (w : World F S)
      → is_retrospective state now fd val ≡ true
      → add_write_notification fd.fqn encoded [] val w ≡ notify_historian state now fd encoded val w
  unfolding is_retrospective notify_historian
  notify_of_retrospective fd encoded val w h =
      let plain : valid_window fd ≡ false = ground arith in rw plain

  after_method-HandsOn :
      (method : StateMethod) (ctx : Context) (fd : FeatureDescriptor) (keys : Keys) (encoded : Text)
      (val : Value F) (w : World F S) (r : Result (Unit {0}) × S)
      → run_method state now method fd keys val w.store ≡ r
      → encode keys fd ≡ ok encoded
      → is_retrospective state now fd val ≡ false
      → HandsOn method fd keys val w (after_method state now ctx fd keys encoded val w r)
  unfolding after_method
  after_method-HandsOn method ctx fd keys encoded val w (err e, s) er ee fresh = (refl, refl)
  after_method-HandsOn method ctx fd keys encoded val w (panicked, s) er ee fresh = (refl, refl)
  after_method-HandsOn method ctx fd keys encoded val w (ok _, s) er ee fresh =
      (refl, refl, encoded, ee, rw fresh (rw er), λ f. ap (λ p. p.0) er)

  write_encoded-HandsOn :
      (method : StateMethod) (ctx : Context) (fd : FeatureDescriptor) (keys : Keys) (val : Value F)
      (w : World F S) (r : Result Text)
      → encode keys fd ≡ r
      → HandsOn method fd keys val w (write_encoded state now method ctx fd keys val w r)
  unfolding write_encoded
  write_encoded-HandsOn method ctx fd keys val w panicked e = (refl, refl)
  write_encoded-HandsOn method ctx fd keys val w (err x) e = (refl, refl)
  write_encoded-HandsOn method ctx fd keys val w (ok encoded) e =
      elim (Bool-cases (is_retrospective state now fd val)) [
        | inl old ↦ rw old (
          refl,
          refl,
          encoded,
          e,
          rw old (notify_of_retrospective fd encoded val w old),
          λ f. cc f,
        )
        | inr fresh ↦ rw fresh (
            after_method-HandsOn method ctx fd keys encoded val w
              (run_method state now method fd keys val w.store) refl e fresh)
      ]

  write_typed-HandsOn :
      (method : StateMethod) (ctx : Context) (fd : FeatureDescriptor) (keys : Keys) (val : Value F)
      (w : World F S) (r : Result PrimitiveType)
      → HandsOn method fd keys val w (write_typed state now method ctx fd keys val w r)
  unfolding write_typed
  write_typed-HandsOn method ctx fd keys val w panicked = (refl, refl)
  write_typed-HandsOn method ctx fd keys val w (err x) = (refl, refl)
  write_typed-HandsOn method ctx fd keys val w (ok p) =
      elim (Bool-cases (primitive_eq p fd.primitive)) [
        | inl same ↦ rw same (write_encoded-HandsOn method ctx fd keys val w (encode keys fd) refl)
        | inr other ↦ rw other (refl, refl)
      ]

  set_decision-HandsOn :
      (method : StateMethod) (ctx : Context) (fd : FeatureDescriptor) (keys : Keys) (val : Value F)
      (w : World F S)
      → is_empty fd.data_source ≡ false
      → HandsOn method fd keys val w (set_decision state now method ctx fd keys val w)
  unfolding set_decision
  set_decision-HandsOn method ctx fd keys val w h =
      rw h (write_typed-HandsOn method ctx fd keys val w (type_detect val.value))

  -- The call of the state that belongs to a method.
  abbrev pub called : StateMethod → FeatureDescriptor → Keys → Value F → S → Result (Unit {0}) × S
  called method_get fd keys val s = (ok tt, s)
  called method_set fd keys val s = state.set now fd keys val.value val.timestamp s
  called method_append fd keys val s = state.append now fd keys val.value val.timestamp s
  called method_incr fd keys val s = state.incr now fd keys val.value val.timestamp s
  called method_update fd keys val s = state.update now fd keys val.value val.timestamp s
  called method_window_add fd keys val s = state.window_add now fd keys val.value val.timestamp s

  run_method-called :
      (method : StateMethod) (fd : FeatureDescriptor) (keys : Keys) (val : Value F) (s : S)
      → run_method state now method fd keys val s ≡ called method fd keys val s
  unfolding run_method
  run_method-called method_get fd keys val s = refl
  run_method-called method_set fd keys val s = refl
  run_method-called method_append fd keys val s = refl
  run_method-called method_incr fd keys val s = refl
  run_method-called method_update fd keys val s = refl
  run_method-called method_window_add fd keys val s = refl

  -- The notifications that belong to a write.
  abbrev pub write_of : FeatureDescriptor → Text → Value F → WriteNotification F
  write_of fd encoded val = record {
    fqn = fd.fqn;
    encoded_keys = encoded;
    bucket = [];
    active_bucket = false;
    value = some val;
  }

  abbrev pub collect_of : FeatureDescriptor → Text → Value F → CollectNotification
  collect_of fd encoded val = record {
    fqn = fd.fqn;
    encoded_keys = encoded;
    bucket = bucket_name val.timestamp fd.freshness;
  }

  -- The world behind a write that is handed on.
  pub record Leaves (method : StateMethod) (fd : FeatureDescriptor) (keys : Keys) (val : Value F)
      (encoded : Text) (w w' : World F S) : Type 0 where
    pub late :
        valid_window fd ≡ false
        → val.timestamp + fd.staleness < now
        → w' ≡ record w { pending_writes = w.pending_writes ++ (write_of fd encoded val ∷ []) }
    pub in_time :
        valid_window fd ≡ false
        → now ≤ val.timestamp + fd.staleness
        → ((called method fd keys val w.store).0 ≡ ok tt)
          × (w' ≡ record w {
            store = (called method fd keys val w.store).1;
            pending_writes = w.pending_writes ++ (write_of fd encoded val ∷ []);
          })
    pub windowed :
        valid_window fd ≡ true
        → ((called method fd keys val w.store).0 ≡ ok tt)
          × (w' ≡ record w {
            store = (called method fd keys val w.store).1;
            pending_collects = w.pending_collects ++ (collect_of fd encoded val ∷ []);
          })

  -- What a decision of the set middleware leaves. Handing on: the same keys and value. An error or a panic:
  -- queues as they were.
  abbrev pub Notifies :
      StateMethod → FeatureDescriptor → Keys → Value F → World F S → Decision F (World F S) → Type 0
  Notifies method fd keys val w (pass ctx keys' val' w') =
      (keys' ≡ keys)
      × (val' ≡ val)
      × (encoded : Text) × (encode keys fd ≡ ok encoded)
      × Leaves method fd keys val encoded w w'
  Notifies method fd keys val w (stop e w') =
      (w'.pending_writes ≡ w.pending_writes) × (w'.pending_collects ≡ w.pending_collects)
  Notifies method fd keys val w (halt w') =
      (w'.pending_writes ≡ w.pending_writes) × (w'.pending_collects ≡ w.pending_collects)

  retrospective_late :
      (fd : FeatureDescriptor) (val : Value F)
      → valid_window fd ≡ false
      → val.timestamp + fd.staleness < now
      → is_retrospective state now fd val ≡ true
  unfolding is_retrospective
  retrospective_late fd val plain late = ground arith

  retrospective_in_time :
      (fd : FeatureDescriptor) (val : Value F)
      → valid_window fd ≡ false
      → now ≤ val.timestamp + fd.staleness
      → is_retrospective state now fd val ≡ false
  unfolding is_retrospective
  retrospective_in_time fd val plain young = ground arith

  retrospective_windowed :
      (fd : FeatureDescriptor) (val : Value F)
      → valid_window fd ≡ true
      → is_retrospective state now fd val ≡ false
  unfolding is_retrospective
  retrospective_windowed fd val window = ground arith

  notify-Leaves :
      (method : StateMethod) (fd : FeatureDescriptor) (keys : Keys) (val : Value F) (encoded : Text)
      (w : World F S)
      → (is_retrospective state now fd val ≡ false
          → (run_method state now method fd keys val w.store).0 ≡ ok tt)
      → Leaves method fd keys val encoded w
          (notify_historian state now fd encoded val (written method fd keys val w))
  unfolding notify_historian add_write_notification add_collect_notification
  notify-Leaves method fd keys val encoded w done = record {
    late = λ plain late. rw (plain, retrospective_late fd val plain late) refl;
    in_time = λ plain young.
        let fresh = retrospective_in_time fd val plain young in
        rw (← run_method-called method fd keys val w.store) (done fresh, rw (plain, fresh) refl);
    windowed = λ window.
        let fresh = retrospective_windowed fd val window in
        rw (← run_method-called method fd keys val w.store) (done fresh, rw (window, fresh) refl);
  }

  HandsOn-Notifies :
      (method : StateMethod) (fd : FeatureDescriptor) (keys : Keys) (val : Value F) (w : World F S)
      (d : Decision F (World F S))
      → HandsOn method fd keys val w d
      → Notifies method fd keys val w d
  HandsOn-Notifies method fd keys val w (pass ctx keys' val' w') (ke, ve, encoded, ee, we, done) =
      (ke, ve, encoded, ee, rw we (notify-Leaves method fd keys val encoded w done))
  HandsOn-Notifies method fd keys val w (stop e w') h = h
  HandsOn-Notifies method fd keys val w (halt w') h = h

  -- For a feature with a data source, the set middleware hands on exactly the keys and the value that it was
  -- given, or ends with an error or a panic, which leaves the queues of the historian as they were. Where it
  -- hands on, one notification is new. Of a feature without windows it is a write of the value; if the value
  -- is past its staleness, the state is not called, and otherwise the method of the state was called and
  -- succeeded. Of a feature with windows it is a collection of the bucket of the value's time, behind the call.
  pub set_decision-Notifies :
      (method : StateMethod) (ctx : Context) (fd : FeatureDescriptor) (keys : Keys) (val : Value F)
      (w : World F S)
      → is_empty fd.data_source ≡ false
      → Notifies method fd keys val w (set_decision state now method ctx fd keys val w)
  set_decision-Notifies method ctx fd keys val w h =
      HandsOn-Notifies method fd keys val w (set_decision state now method ctx fd keys val w)
        (set_decision-HandsOn method ctx fd keys val w h)

  -- The set middleware decides before it hands on.
  pub set_middleware-Forwards : (method : StateMethod) → Forwards (set_middleware state now method)
  unfolding set_middleware
  set_middleware-Forwards method = record {
    decide = set_decision state now method;
    follows = λ next ctx fd keys val w. refl;
  }
