-- ===== src/Engine/Request/Reads.antt =====
-- A read of a feature without hooks (engine.Get of internal/engine/engine.go).
use natun.Prelude.{
  ℕ, ◌+◌, ◌≤◌, ◌<◌, ltb, arith, ◌≡◌, refl, Bool, true, false, List, [], ◌∷◌, Option, none, some,
  if◌then◌else◌, Bool-cases, inl, inr, ◌⊎◌,
}
use natun.Prelude.Text.{Text}
use natun.Api.Errors.{ok}
use natun.Api.Primitive.{primitive_eq_refl}
use natun.Api.Value.{FloatOps, Value, nil, type_detect}
use natun.Api.Descriptor.{FeatureDescriptor, is_empty, valid_window}
use natun.Api.Keys.{Keys}
use natun.Api.Selector.{Selector, parse_selector}
use natun.Engine.Pipeline.{
  Context, Decision, pass, follow, returned, Middleware, closed, chain, finish, apply,
  apply_pipeline,
}
use natun.Engine.Pipeline.Timeout.{Forwards, apply_with_timeout-closed}
use natun.Engine.Priority.{FeaturePipeliner, middlewares, sort}
use natun.Engine.World.{StateOps, World}
use natun.Engine.Read.{
  is_nil, version_error, is_expired, cache_context, use_stored, read_selected, get_decision,
  get_value_middleware, cache_typed, cache_decision, cache_post_get_middleware, read_pipeline,
}
use natun.Engine.Request.{feature_context, feature_for_request, got, get_outcome, get_feature, get}

-- A feature to which no plugin has added a hook on reads.
pub record IsHookless (F S : Type 0) (f : FeaturePipeliner (Middleware F (World F S)))
    : Type 0 where
  pub no_pre_get : f.pre_get ≡ []
  pub no_post_get : f.post_get ≡ []

same_branches : {A : Type 0} (b : Bool) {x y : A} → x ≡ y → (if b then x else y) ≡ y
same_branches true e = e
same_branches false e = refl

module _ {F S : Type 0} ⦃ops : FloatOps F⦄ (state : StateOps F S) (now : ℕ) where
  pub get_value-Forwards : Forwards (get_value_middleware state now)
  unfolding get_value_middleware
  get_value-Forwards = record {
    decide = get_decision state now;
    follows = λ next ctx fd keys val w. refl;
  }

  pub cache-Forwards : Forwards (cache_post_get_middleware state now)
  unfolding cache_post_get_middleware
  cache-Forwards = record {
    decide = cache_decision state now;
    follows = λ next ctx fd keys val w. refl;
  }

  abbrev own : List (Middleware F (World F S))
  own = get_value_middleware state now ∷ cache_post_get_middleware state now ∷ []

  read_pipeline-hookless :
      (f : FeaturePipeliner (Middleware F (World F S)))
      → IsHookless F S f
      → read_pipeline state now f ≡ own
  unfolding read_pipeline middlewares sort
  read_pipeline-hookless f h = rw (h.no_pre_get, h.no_post_get)

  -- With and without a deadline, the pipeline is the chain of its two middlewares.
  apply-own :
      (ctx : Context) (fd : FeatureDescriptor) (keys : Keys) (v : Value F) (w : World F S)
      → apply_pipeline closed own ctx fd keys v w ≡ apply own ctx fd keys v w
  unfolding apply_pipeline
  apply-own ctx fd keys v w =
      same_branches ctx.deadline
        (apply_with_timeout-closed own ctx fd keys v w (get_value-Forwards, (cache-Forwards, tt)))

  -- What a read serves of what the state has: nothing if it is past its staleness.
  abbrev pub served : FeatureDescriptor → Option (Value F) → Value F
  served fd none = record { value = nil; timestamp = now; fresh = false }
  served fd (some v) =
      if is_expired state now fd v
      then record { value = nil; timestamp = now; fresh = false }
      else v

  -- A value that a read can serve is nil or has the type of its feature.
  abbrev pub FitsType : FeatureDescriptor → Option (Value F) → Type 0
  FitsType fd none = Unit
  FitsType fd (some v) = (is_nil v.value ≡ true) ⊎ (type_detect v.value ≡ ok fd.primitive)

  -- A decision that hands on what it got, in some state.
  abbrev HandsOn : Context → Keys → Value F → Decision F (World F S) → Type 0
  HandsOn ctx keys v d = (w : World F S) × (d ≡ pass ctx keys v w)

  HandsOn-if :
      (ctx : Context) (keys : Keys) (v : Value F) (b : Bool) (d d' : Decision F (World F S))
      → HandsOn ctx keys v d
      → HandsOn ctx keys v d'
      → HandsOn ctx keys v (if b then d else d')
  HandsOn-if ctx keys v true d d' h h' = h
  HandsOn-if ctx keys v false d d' h h' = h'

  -- A value of the right type passes the cache, whether or not a write of it is left.
  cache_typed-HandsOn :
      (ctx : Context) (fd : FeatureDescriptor) (keys : Keys) (v : Value F) (w : World F S)
      → HandsOn ctx keys v (cache_typed state now ctx fd keys v w (ok fd.primitive))
  unfolding cache_typed
  cache_typed-HandsOn ctx fd keys v w =
      rw (primitive_eq_refl fd.primitive)
        (HandsOn-if ctx keys v _ _ _ (w, refl) (HandsOn-if ctx keys v _ _ _ (w, refl) (_, refl)))

  cache_decision-HandsOn :
      (ctx : Context) (fd : FeatureDescriptor) (keys : Keys) (v : Value F) (w : World F S)
      → FitsType fd (some v)
      → HandsOn ctx keys v (cache_decision state now ctx fd keys v w)
  unfolding cache_decision
  cache_decision-HandsOn ctx fd keys v w (inl e) = rw e (w, refl)
  cache_decision-HandsOn ctx fd keys v w (inr e) =
      let typed : HandsOn ctx keys v (cache_typed state now ctx fd keys v w (type_detect v.value)) =
        rw e (cache_typed-HandsOn ctx fd keys v w) in
      HandsOn-if ctx keys v _ _ _ (w, refl) typed

  end_of_chain :
      (ctx : Context) (fd : FeatureDescriptor) (keys : Keys) (v : Value F) (w : World F S)
      → FitsType fd (some v)
      → (cache_post_get_middleware state now finish ctx fd keys v w).outcome ≡ returned v none
  unfolding cache_post_get_middleware finish
  end_of_chain ctx fd keys v w fits =
      let (w', e) = cache_decision-HandsOn ctx fd keys v w fits in rw e

  use_stored-served :
      (ctx : Context) (fd : FeatureDescriptor) (keys : Keys) (w : World F S) (s : Selector)
      (o : Option (Value F))
      → valid_window fd ≡ false
      → (ctx' : Context) × (use_stored state now s.aggr_fn ctx fd keys (served fd none) w (ok o)
          ≡ pass ctx' keys (served fd o) w)
  unfolding use_stored
  use_stored-served ctx fd keys w s none plain = (ctx, refl)
  use_stored-served ctx fd keys w s (some v) plain = elim (Bool-cases (is_expired state now fd v)) [
    | inl old ↦ (ctx, rw old)
    | inr live ↦ (cache_context state now ctx v, rw (live, plain))
  ]

  served-FitsType :
      (fd : FeatureDescriptor) (o : Option (Value F))
      → FitsType fd o
      → FitsType fd (some (served fd o))
  served-FitsType fd none h = inl refl
  served-FitsType fd (some v) h = elim (Bool-cases (is_expired state now fd v)) [
    | inl old ↦ rw old (inl refl)
    | inr live ↦ rw live h
  ]

  chain_after :
      (ctx : Context) (fd : FeatureDescriptor) (keys : Keys) (w : World F S) (s : Selector)
      (o : Option (Value F))
      → valid_window fd ≡ false
      → FitsType fd o
      → (follow
          (use_stored state now s.aggr_fn ctx fd keys (served fd none) w (ok o))
          (cache_post_get_middleware state now finish)
          fd
          (served fd none)).outcome
        ≡ returned (served fd o) none
  chain_after ctx fd keys w s o plain fits =
      let (ctx', e) = use_stored-served ctx fd keys w s o plain in
      rw e (end_of_chain ctx' fd keys (served fd o) w (served-FitsType fd o fits))

  -- The first decision of a read whose selector parses, and whose version is kept.
  get_decision-selected :
      (ctx : Context) (fd : FeatureDescriptor) (keys : Keys) (v : Value F) (w : World F S)
      (selector : Text) (s : Selector)
      → is_empty fd.data_source ≡ false
      → ctx.selector ≡ some selector
      → parse_selector selector ≡ ok s
      → version_error fd s.version ≡ none
      → get_decision state now ctx fd keys v w
        ≡ use_stored state now s.aggr_fn ctx fd keys v w (state.get now fd keys s.version w.store)
  unfolding get_decision
  get_decision-selected ctx fd keys v w selector s ds cs ps ve =
      rw ds (simp (cs, ps) (unfold read_selected in rw (ve, read_selected)))

  first_chain :
      (ctx : Context) (fd : FeatureDescriptor) (keys : Keys) (w : World F S) (selector : Text)
      (s : Selector) (o : Option (Value F))
      → is_empty fd.data_source ≡ false
      → ctx.selector ≡ some selector
      → valid_window fd ≡ false
      → parse_selector selector ≡ ok s
      → version_error fd s.version ≡ none
      → state.get now fd keys s.version w.store ≡ ok o
      → FitsType fd o
      → (apply own ctx fd keys (served fd none) w).0 ≡ returned (served fd o) none
  unfolding apply chain get_value_middleware
  first_chain ctx fd keys w selector s o ds cs plain ps ve stored fits =
      let e = get_decision-selected ctx fd keys (served fd none) w selector s ds cs ps ve in
      rw e (rw stored (chain_after ctx fd keys w s o plain fits))

  -- The answer of such a read, as a function of what the state has.
  pub get-served :
      (features : List (Text × FeaturePipeliner (Middleware F (World F S))))
      (f : FeaturePipeliner (Middleware F (World F S))) (ctx : Context) (selector : Text)
      (s : Selector) (keys : Keys) (w : World F S) (o : Option (Value F))
      → feature_for_request features selector ≡ ok f
      → IsHookless F S f
      → is_empty f.descriptor.data_source ≡ false
      → valid_window f.descriptor ≡ false
      → parse_selector selector ≡ ok s
      → version_error f.descriptor s.version ≡ none
      → state.get now f.descriptor keys s.version w.store ≡ ok o
      → FitsType f.descriptor o
      → (get state now closed features ctx selector keys w).0
        ≡ got (served f.descriptor o) (some f.descriptor) none
  unfolding get get_feature get_outcome feature_context
  get-served features f ctx selector s keys w o found hookless ds plain ps ve stored fits =
      let ctx' = feature_context f.descriptor selector ctx in
      let none_yet = served f.descriptor none in
      let run : (apply_pipeline closed (read_pipeline state now f) ctx' f.descriptor keys none_yet
            w).0
          ≡ returned (served f.descriptor o) none =
        rw (read_pipeline-hookless f hookless) (
          rw (apply-own ctx' f.descriptor keys none_yet w)
            (first_chain ctx' f.descriptor keys w selector s o ds refl plain ps ve stored fits)) in
      rw found (rw run refl)

  -- What a read may serve of what the state has: the value itself up to its staleness, and nil at the
  -- present time from then on, or where there is none.
  abbrev nothing : Value F
  nothing = record { value = nil; timestamp = now; fresh = false }

  abbrev pub Serves : FeatureDescriptor → Option (Value F) → Value F → Type 0
  Serves fd none v = v ≡ nothing
  Serves fd (some x) v =
      (now ≤ x.timestamp + fd.staleness → v ≡ x) × (x.timestamp + fd.staleness < now → v ≡ nothing)

  served-Serves : (fd : FeatureDescriptor) (o : Option (Value F)) → Serves fd o (served fd o)
  unfolding is_expired
  served-Serves fd none = refl
  served-Serves fd (some x) = (
    λ young. let live : ltb (x.timestamp + fd.staleness) now ≡ false = ground arith in rw live refl,
    λ late. let old : ltb (x.timestamp + fd.staleness) now ≡ true = ground arith in rw old refl,
  )

  -- A read of a feature with a data source, without hooks and windows, whose selector parses to a
  -- version that the feature keeps, and whose pipeline ends before its deadline, if it has one: it
  -- answers with what the state has for that version, if that is not past its staleness, and with nil
  -- at the present time if it is or if there is nothing; never with an error. What the state has is
  -- assumed to be nil or of the feature's type.
  pub get-Serves :
      (features : List (Text × FeaturePipeliner (Middleware F (World F S))))
      (f : FeaturePipeliner (Middleware F (World F S))) (ctx : Context) (selector : Text)
      (s : Selector) (keys : Keys) (w : World F S) (o : Option (Value F))
      → feature_for_request features selector ≡ ok f
      → IsHookless F S f
      → is_empty f.descriptor.data_source ≡ false
      → valid_window f.descriptor ≡ false
      → parse_selector selector ≡ ok s
      → version_error f.descriptor s.version ≡ none
      → state.get now f.descriptor keys s.version w.store ≡ ok o
      → FitsType f.descriptor o
      → (v : Value F) × ((get state now closed features ctx selector keys w).0
          ≡ got v (some f.descriptor) none)
        × Serves f.descriptor o v
  get-Serves features f ctx selector s keys w o found hookless ds plain ps ve stored fits = (
    served f.descriptor o,
    get-served features f ctx selector s keys w o found hookless ds plain ps ve stored fits,
    served-Serves f.descriptor o,
  )
