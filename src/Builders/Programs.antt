-- ===== src/Builders/Programs.antt =====
-- Features whose value is computed by a program: internal/plugins/builders/sourceless/sourceless.go, and
-- what rest.go shares with it. The runtime that executes a program is a parameter.
use natun.Prelude.{ℕ, Bool, true, false, not, ◌&&◌, List, Option, none, some, ltb, if◌then◌else◌}
use natun.Prelude.Int.{pos}
use natun.Prelude.Text.{Text}
use natun.Api.Errors.{Error, Result, ok}
use natun.Api.Value.{Value}
use natun.Api.Descriptor.{FeatureDescriptor, Manifest, valid_window}
use natun.Api.Keys.{Keys}
use natun.Engine.Pipeline.{Context, Reply, reply, crash, Handler, Middleware}
use natun.Engine.Priority.{FeaturePipeliner, add_pre_get_middleware, add_post_get_middleware}
use natun.Engine.Registry.{DataSource}

-- What ExecuteProgram gives: a value, the keys and an error or nil, or it panics.
pub data ProgramReply (F : Type 0) : Type 0 where
  ran : Value F → Keys → Option Error → ProgramReply F
  program_crashed : ProgramReply F

-- api.RuntimeManager: ExecuteProgram(env, fqn, keys, row, timestamp, dryRun) for a row of type P or nil.
pub record Runtime (F W P : Type 0) : Type 0 where
  pub execute_program : Text → Text → Keys → Option P → ℕ → Bool → W → ProgramReply F × W

-- The value comes from the state and is fresh.
unfoldable pub is_cached : {F : Type 0} → Context → Value F → Bool
is_cached ctx val = elim ctx.from_cache [ none ↦ false | some cache ↦ cache && val.fresh ]

module _ {F W : Type 0} where
  -- What follows the execution of a program: `val` and `keys` are those that it gave, also with an error.
  unfoldable pub after_program :
      Handler F W → Context → FeatureDescriptor → ProgramReply F × W → Reply F W
  after_program next ctx fd (program_crashed, w) = crash w
  after_program next ctx fd (ran val keys (some e), w) = reply val (some e) w
  after_program next ctx fd (ran val keys none, w) = next ctx fd keys val w

  -- The getMiddleware of sourceless.go
  unfoldable pub sourceless_middleware : {P : Type 0} → Runtime F W P → Middleware F W
  sourceless_middleware runtime next ctx fd keys val w =
      if is_cached ctx val && not (valid_window fd)
      then next ctx fd keys val w
      else after_program next ctx fd
          (runtime.execute_program fd.runtime_env fd.fqn keys none val.timestamp true w)

-- A hook on reads: in front of the read of the state for a feature without a freshness, behind it otherwise.
unfoldable pub add_get_middleware :
    {M : Type 0} → FeatureDescriptor → M → FeaturePipeliner M → FeaturePipeliner M
add_get_middleware fd m f =
    if ltb 0 fd.freshness
    then add_post_get_middleware (pos 0) (some m) f
    else add_pre_get_middleware (pos 0) (some m) f

-- FeatureApply of sourceless.go
unfoldable pub sourceless_apply :
    {F W P C : Type 0}
    → Runtime F W P
    → FeatureDescriptor
    → Manifest
    → List (Text × DataSource C)
    → FeaturePipeliner (Middleware F W)
    → Result (FeaturePipeliner (Middleware F W))
sourceless_apply runtime fd m sources f =
    ok (add_get_middleware fd (sourceless_middleware runtime) f)
