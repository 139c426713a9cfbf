-- ===== src/Engine/Pipeline/Timeout.antt =====
-- The two appliers of internal/engine/pipeline.go give the same, for middlewares that hand on.
use natun.Prelude.{◌≡◌, refl, ◌∙◌, List, [], ◌∷◌, All}
use natun.Api.Value.{Value}
use natun.Api.Descriptor.{FeatureDescriptor}
use natun.Api.Keys.{Keys}
use natun.Engine.Pipeline.{
  Context, Decision, pass, stop, halt, follow, Reply, Handler, Middleware, finish, chain, announce,
  announced_chain, last_sent, closed, await, with_last, apply, apply_with_timeout,
}

module _ {F W : Type 0} where
  -- A middleware that decides before it calls the next one, and returns what that one returns.
  pub record Forwards (m : Middleware F W) : Type 0 where
    pub decide : Context → FeatureDescriptor → Keys → Value F → W → Decision F W
    pub follows :
        (next : Handler F W) (ctx : Context) (fd : FeatureDescriptor) (keys : Keys) (val : Value F)
        (w : W)
        → m next ctx fd keys val w ≡ follow (decide ctx fd keys val w) next fd val

  -- The reply to the announced chain and the reply to the plain one agree.
  record Agrees (plain announced : Reply F W) : Type 0 where
    outcomes : (first : Value F) → with_last first announced.sent announced.outcome ≡ plain.outcome
    worlds : announced.world ≡ plain.world

  Agrees-follow :
      (d : Decision F W) (next announced : Handler F W) (fd : FeatureDescriptor) (val : Value F)
      → ((ctx : Context) (keys : Keys) (v : Value F) (w : W)
          → Agrees (next ctx fd keys v w) (announced ctx fd keys v w))
      → let r = follow d announced fd val in
        Agrees (follow d next fd val) (record r { sent = val ∷ r.sent })
  Agrees-follow (pass ctx keys v w) next announced fd val ih =
      let h = ih ctx keys v w in
      record {
        outcomes = λ first. shift (announced ctx fd keys v w) first ∙ h.outcomes val;
        worlds = h.worlds;
      }
    where
      shift :
          (r : Reply F W) (first : Value F)
          → with_last first (val ∷ r.sent) r.outcome ≡ with_last val r.sent r.outcome
      shift r first = unfold last_sent in refl
  Agrees-follow (stop e w) next announced fd val ih = record {
    outcomes = λ first. unfold last_sent in refl;
    worlds = refl;
  }
  Agrees-follow (halt w) next announced fd val ih = record {
    outcomes = λ first. refl;
    worlds = refl;
  }

  -- Every middleware of a list hands on.
  abbrev pub AllForward : List (Middleware F W) → Type 0
  AllForward = All Forwards

  chain-Agrees :
      (ms : List (Middleware F W))
      → AllForward ms
      → (fd : FeatureDescriptor) → (ctx : Context) (keys : Keys) (val : Value F) (w : W)
      → Agrees (chain ms ctx fd keys val w) (announced_chain ms ctx fd keys val w)
  unfolding chain announced_chain announce finish
  chain-Agrees [] h fd ctx keys val w = record {
    outcomes = λ first. unfold last_sent in refl;
    worlds = refl;
  }
  chain-Agrees (m ∷ ms) (f, h) fd ctx keys val w = rw (f.follows (chain ms) ctx fd keys val w) (
      rw (f.follows (announced_chain ms) ctx fd keys val w) (
        Agrees-follow (f.decide ctx fd keys val w) (chain ms) (announced_chain ms) fd val
          (chain-Agrees ms h fd)))

  -- If all middlewares hand on, the applier with a timeout gives the outcome and the state of the
  -- plain applier, whenever the chain ends before the context is done.
  pub apply_with_timeout-closed :
      (ms : List (Middleware F W)) (ctx : Context) (fd : FeatureDescriptor) (keys : Keys)
      (first : Value F) (w : W)
      → AllForward ms
      → apply_with_timeout closed ms ctx fd keys first w ≡ apply ms ctx fd keys first w
  unfolding apply_with_timeout apply await
  apply_with_timeout-closed ms ctx fd keys first w h =
      let a = chain-Agrees ms h fd ctx keys first w in λ i. (a.outcomes first i, a.worlds i)
