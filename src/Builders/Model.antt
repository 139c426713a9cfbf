-- ===== src/Builders/Model.antt =====
-- Features that are models: internal/plugins/builders/model/model.go. The order in which the goroutines of
-- a read finish is that of the features; the servers of models and encoding/json are parameters.
pub mod Refusal
use natun.Prelude.{
  ℕ, ◌≡◌, Bool, true, false, ◌||◌, List, [], ◌∷◌, length, Option, none, some, ltb, insert,
  if◌then◌else◌,
}
use natun.Prelude.Int.{ℤ, pos}
use natun.Prelude.Text.{Text}
use natun.Api.Errors.{Error, Result, ok, err, panicked, ◌>>=◌, model_too_small, model_set}
use natun.Api.Value.{Value}
use natun.Api.Descriptor.{FeatureDescriptor, Manifest}
use natun.Api.Keys.{Keys}
use natun.Api.Selector.{parse_selector, normalize_selector}
use natun.Engine.Pipeline.{Context, Reply, reply, crash, Handler, Middleware}
use natun.Engine.Priority.{FeaturePipeliner, add_post_get_middleware, add_pre_set_middleware}
use natun.Engine.Registry.{DataSource}
use natun.Engine.Request.{GetReply, got, get_crashed}
use natun.Builders.Programs.{is_cached}

-- api.ModelDescriptor, with an inference configuration of type I
pub record ModelDescriptor (I : Type 0) : Type 0 where
  pub features : List Text
  pub key_feature : Text
  pub keys : List Text
  pub model_framework : Text
  pub model_server : Text
  pub inference_config : I

-- What a server of models gives for a call of Serve: a value with an error or nil, or a panic.
pub data ServeReply (F : Type 0) : Type 0 where
  served : Value F → Option Error → ServeReply F
  serve_crashed : ServeReply F

-- The engine that a model reads its features from, and plugins.ModelServer.
pub record ModelPlugins (F W I : Type 0) : Type 0 where
  pub get : Context → Text → Keys → W → GetReply F × W
  pub server :
      Text
      → Option (Context → FeatureDescriptor → ModelDescriptor I → Value F → W → ServeReply F × W)

-- md.Features[i], err = api.NormalizeSelector(f, ns) for every feature
unfoldable pub normalize_features : Text → List Text → Result (List Text)
normalize_features ns [] = ok []
normalize_features ns (f ∷ fs) = do
  g ← normalize_selector f ns
  gs ← normalize_features ns fs
  ok (g ∷ gs)

-- A feature that could not be read is left out.
unfoldable pub with_result :
    {F : Type 0} → Text → GetReply F → List (Text × Value F) → List (Text × Value F)
with_result f (got v fd none) results = insert f v results
with_result f _ results = results

-- A model has at least two features.
unfoldable pub check_size : {I : Type 0} → ModelDescriptor I → Result (Unit {0})
check_size md = if ltb (length md.features) 2 then err model_too_small else ok tt

module _ {F W I : Type 0} (plugins : ModelPlugins F W I) (md : ModelDescriptor I) where
  -- The features that were found, by their names; a panic in a goroutine ends the process.
  unfoldable pub read_features :
      Context → Keys → List Text → List (Text × Value F) → W → Result (List (Text × Value F)) × W
  read_features ctx keys [] results w = (ok results, w)
  read_features ctx keys (f ∷ fs) results w =
      let (r, w') = plugins.get ctx f keys w in
      let rest = read_features ctx keys fs (with_result f r results) w' in
      elim r [ get_crashed ↦ (panicked, w') | got v fd e ↦ rest ]

  -- What follows Serve, whose value is returned with its error.
  unfoldable pub after_serve :
      Handler F W → Context → FeatureDescriptor → Keys → ServeReply F × W → Reply F W
  after_serve next ctx fd keys (serve_crashed, w) = crash w
  after_serve next ctx fd keys (served v (some e), w) = reply v (some e) w
  after_serve next ctx fd keys (served v none, w) = next ctx fd keys v w

  -- What follows the reads: the server gets the value that came with the call, and so does the next handler
  -- where there is no server. The results are not used.
  unfoldable pub after_reads :
      Handler F W
      → Context
      → FeatureDescriptor
      → Keys
      → Value F
      → Result (List (Text × Value F)) × W
      → Reply F W
  after_reads next ctx fd keys val (panicked, w) = crash w
  after_reads next ctx fd keys val (_, w) = elim (plugins.server md.model_server) [
    | none ↦ next ctx fd keys val w
    | some serve ↦ after_serve next ctx fd keys (serve ctx fd md val w)
  ]

  -- preGetMiddleware
  unfoldable pub model_get_middleware : Middleware F W
  model_get_middleware next ctx fd keys val w =
      if is_cached ctx val
      then next ctx fd keys val w
      else after_reads next ctx fd keys val (read_features ctx keys md.features [] w)

-- preSetMiddleware
unfoldable pub model_set_middleware : {F W : Type 0} → Middleware F W
model_set_middleware next ctx fd keys val w = reply val (some model_set) w

-- FeatureApply; `read_model` decodes the raw builder of the manifest.
unfoldable pub model_apply :
    {F W I C : Type 0}
    → ModelPlugins F W I
    → (Manifest → Result (ModelDescriptor I))
    → FeatureDescriptor
    → Manifest
    → List (Text × DataSource C)
    → FeaturePipeliner (Middleware F W)
    → Result (FeaturePipeliner (Middleware F W))
model_apply plugins read_model fd m sources f = do
  md ← read_model m
  _ ← check_size md
  selector ← parse_selector fd.fqn
  features ← normalize_features selector.namespace md.features
  ok (
      add_pre_set_middleware (pos 0) (some model_set_middleware) (
        add_post_get_middleware (pos 0)
          (some (model_get_middleware plugins (record md { features = features }))) f))
