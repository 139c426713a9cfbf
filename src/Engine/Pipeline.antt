-- ===== src/Engine/Pipeline.antt =====
-- Middlewares and how a pipeline runs them: api/middlewares.go and internal/engine/pipeline.go.
-- `W` is all the state that the handlers act on.
pub mod Timeout
use natun.Prelude.{
  ℕ, zero, suc, ◌≡◌, refl, Bool, true, false, List, [], ◌∷◌, ◌++◌, Option, none, some,
  if◌then◌else◌,
}
use natun.Prelude.Text.{Text}
use natun.Api.Errors.{Error, deadline_exceeded}
use natun.Api.Value.{Value}
use natun.Api.Descriptor.{FeatureDescriptor}
use natun.Api.Keys.{Keys}

-- The values of a context that the middlewares read.
pub record Context : Type 0 where
  pub cache_post_get : Option Bool
  pub cache_fresh : Option Bool
  pub from_cache : Option Bool
  pub selector : Option Text
  -- ctx.Deadline() is set
  pub deadline : Bool

-- A handler returns a value together with an error or nil, or it panics.
pub data Outcome (F : Type 0) : Type 0 where
  returned : Value F → Option Error → Outcome F
  crashed : Outcome F

-- What a call of a handler leaves: its outcome, the state, and the values that were sent on the
-- channel of applyWithTimeout meanwhile, the first one first.
pub record Reply (F W : Type 0) : Type 0 where
  pub outcome : Outcome F
  pub world : W
  pub sent : List (Value F)

-- MiddlewareHandler
abbrev pub Handler : Type 0 → Type 0 → Type 0
Handler F W = Context → FeatureDescriptor → Keys → Value F → W → Reply F W

abbrev pub Middleware : Type 0 → Type 0 → Type 0
Middleware F W = Handler F W → Handler F W

module _ {F W : Type 0} where
  -- return val, err
  abbrev pub reply : Value F → Option Error → W → Reply F W
  reply v e w = record { outcome = returned v e; world = w; sent = [] }

  abbrev pub crash : W → Reply F W
  crash w = record { outcome = crashed; world = w; sent = [] }

  -- The innermost handler of apply.
  unfoldable pub finish : Handler F W
  finish ctx fd keys val w = reply val none w

  -- The loop of apply, from the last middleware to the first.
  unfoldable pub chain : List (Middleware F W) → Handler F W
  chain [] = finish
  chain (m ∷ ms) = m (chain ms)

  -- handlerWithTimeout: `c <- val`, then the next handler.
  unfoldable pub announce : Handler F W → Handler F W
  announce next ctx fd keys val w =
      let r = next ctx fd keys val w in record r { sent = val ∷ r.sent }

  -- The handler that applyWithTimeout builds.
  unfoldable pub announced_chain : List (Middleware F W) → Handler F W
  announced_chain [] = announce finish
  announced_chain (m ∷ ms) = announce (m (announced_chain ms))

-- The end of a middleware's body: `return next(ctx, fd, keys, val)` with what the body made of these,
-- `return val, err` with the value that it was called with, or a panic.
pub data Decision (F W : Type 0) : Type 0 where
  pass : Context → Keys → Value F → W → Decision F W
  stop : Error → W → Decision F W
  halt : W → Decision F W

module _ {F W : Type 0} where
  abbrev pub follow : Decision F W → Handler F W → FeatureDescriptor → Value F → Reply F W
  follow (pass ctx keys val w) next fd _ = next ctx fd keys val w
  follow (stop e w) next fd val = reply val (some e) w
  follow (halt w) next fd val = crash w

-- The value of `first` after the values that were received.
unfoldable pub last_sent : {F : Type 0} → Value F → List (Value F) → Value F
last_sent v [] = v
last_sent v (w ∷ ws) = last_sent w ws

abbrev pub take : {F : Type 0} → ℕ → List (Value F) → List (Value F)
take zero vs = []
take (suc n) [] = []
take (suc n) (v ∷ vs) = v ∷ take n vs

-- The value and the error that the loop over `select` returns once the channel is closed.
abbrev pub with_last : {F : Type 0} → Value F → List (Value F) → Outcome F → Outcome F
with_last first sent (returned v e) = returned (last_sent first sent) e
with_last first sent crashed = crashed

-- How the wait of applyWithTimeout ends, which is not up to the program: the channel is closed
-- behind the last value, or the context is done after some values were received, when the part of
-- the chain that ran has left some state.
pub data Wait (W : Type 0) : Type 0 where
  closed : Wait W
  expired : ℕ → W → Wait W

module _ {F W : Type 0} where
  unfoldable pub await : Wait W → Value F → Reply F W → Outcome F × W
  await closed first r = (with_last first r.sent r.outcome, r.world)
  await (expired n w) first r =
      (returned (last_sent first (take n r.sent)) (some deadline_exceeded), w)

  unfoldable pub apply :
      List (Middleware F W) → Context → FeatureDescriptor → Keys → Value F → W → Outcome F × W
  apply ms ctx fd keys first w = let r = chain ms ctx fd keys first w in (r.outcome, r.world)

  unfoldable pub apply_with_timeout :
      Wait W
      → List (Middleware F W)
      → Context
      → FeatureDescriptor
      → Keys
      → Value F
      → W
      → Outcome F × W
  apply_with_timeout wait ms ctx fd keys first w =
      await wait first (announced_chain ms ctx fd keys first w)

  -- Pipeline.Apply
  unfoldable pub apply_pipeline :
      Wait W
      → List (Middleware F W)
      → Context
      → FeatureDescriptor
      → Keys
      → Value F
      → W
      → Outcome F × W
  apply_pipeline wait [] ctx fd keys first w = (returned first none, w)
  apply_pipeline wait (m ∷ ms) ctx fd keys first w =
      if ctx.deadline
      then apply_with_timeout wait (m ∷ ms) ctx fd keys first w
      else apply (m ∷ ms) ctx fd keys first w
