-- ===== src/Runtime/Manager.antt =====
-- The manager of the runtimes: pkg/runtimemanager/rm.go. The servers behind the sockets (gRPC), the files of
-- the sockets and the new uuids are parameters.
pub mod Connections
pub mod Answers
pub mod History
use natun.Prelude.{
  ℕ, zero, Bool, true, false, not, ◌&&◌, List, [], ◌∷◌, ◌++◌, Option, none, some, lookup, insert,
  map, if◌then◌else◌,
}
use natun.Prelude.Int.{pos, pos_part}
use natun.Prelude.Text.{Text, codes, text_eq}
use natun.Api.Errors.{
  Error, Result, ok, err, panicked, ◌>>=◌, runtime_not_found, socket_not_found, uuid_mismatch,
  missing_dependency,
}
use natun.Api.Primitive.{PrimitiveType}
use natun.Api.Value.{AnyValue, Value, nil}
use natun.Api.Descriptor.{is_empty}
use natun.Api.Keys.{Keys}
use natun.Builders.Programs.{ProgramReply, ran, program_crashed, Runtime}
use natun.Sdk.Wire.{Timestamps, WirePrimitive, WireValue}
use natun.Sdk.Convert.{to_api_value, from_value, from_api_primitive}
use natun.Runtime.Pods.{Container}
use natun.Runtime.Discovery.{RuntimeManager}

-- The messages of api/proto/py_runtime/v1alpha1/api.proto.
pub record LoadRequest : Type 0 where
  pub uuid : Text
  pub fqn : Text
  pub program : Text
  pub packages : List Text

pub record SideEffect : Type 0 where
  pub kind : Text
  pub args : List (Text × Text)

pub record LoadResponse : Type 0 where
  pub uuid : Text
  pub primitive : WirePrimitive
  pub side_effects : List SideEffect

pub record ExecuteRequest (F T : Type 0) : Type 0 where
  pub uuid : Text
  pub fqn : Text
  pub keys : Keys
  pub row : List (Text × Option (WireValue F T))
  pub timestamp : T
  pub dry_run : Bool

-- A response; `timestamp` is `none` for a message that is nil.
pub record ExecuteResponse (F T : Type 0) : Type 0 where
  pub uuid : Text
  pub result : Option (WireValue F T)
  pub keys : Keys
  pub timestamp : Option T

-- api.ParsedProgram
pub record ParsedProgram : Type 0 where
  pub primitive : PrimitiveType
  pub dependencies : List Text

-- The world W outside: os.Stat of a path (false where it says that the file does not exist), grpc.Dial, uuid.NewString, the two
-- methods of a server, and of a timestamp whether it is valid and not the zero time.
pub record RuntimeServers (F T C W : Type 0) : Type 0 where
  pub socket_exists : Text → W → Bool
  pub dial : Text → W → Result C × W
  pub new_uuid : W → Text × W
  pub load : C → LoadRequest → W → Result LoadResponse × W
  pub execute : C → ExecuteRequest F T → W → Result (ExecuteResponse F T) × W
  pub is_instant : T → Bool

-- The manager with the world outside.
pub record Managed (L C W : Type 0) : Type 0 where
  pub manager : RuntimeManager L C
  pub outside : W

-- /tmp/raptor/runtime/<name>.sock
abbrev pub socket_path : Text → Text
socket_path name = codes "/tmp/raptor/runtime/" ++ name ++ codes ".sock"

-- The loop of LoadProgram over the side effects
unfoldable pub dependencies_of : List SideEffect → Result (List Text)
dependencies_of [] = ok []
dependencies_of (e ∷ es) =
    let rest = dependencies_of es in
    if text_eq e.kind (codes "get_feature")
    then elim (lookup (codes "fqn") e.args) [
      | some v ↦ (rest >>= λ others. ok (v ∷ others))
      | none ↦ elim (lookup (codes "1") e.args) [
        | some v ↦ (rest >>= λ others. ok (v ∷ others))
        | none ↦ err missing_dependency
      ]
    ]
    else rest

-- The environment that an empty name stands for
unfoldable pub environment : {L C : Type 0} → Text → RuntimeManager L C → Text
environment name rm = if is_empty name then rm.default_env else name

-- What LoadProgram makes of a response
unfoldable pub parse_response : Text → LoadResponse → Result ParsedProgram
parse_response uuid resp =
    if text_eq resp.uuid uuid
    then (dependencies_of resp.side_effects >>= λ fqns.
        ok (record { primitive = from_api_primitive resp.primitive; dependencies = fqns }))
    else err uuid_mismatch

-- A row of nil has no entries.
unfoldable pub row_of : {F : Type 0} → Option (List (Text × AnyValue F)) → List (Text × AnyValue F)
row_of none = []
row_of (some row) = row

-- The time of a response, or that of the call. Times before 1970 are 0 here.
unfoldable pub response_time : {T : Type 0} ⦃proto : Timestamps T⦄ → (T → Bool) → Option T → ℕ → ℕ
response_time is_instant none ts = ts
response_time ⦃proto⦄ is_instant (some t) ts =
    if is_instant t then pos_part (proto.as_time t) else ts

-- api.Value{} with an error
abbrev pub failure : {F : Type 0} → Keys → Error → ProgramReply F
failure keys e = ran (record { value = nil; timestamp = zero; fresh = false }) keys (some e)

module _ {F T : Type 0} ⦃proto : Timestamps T⦄ where
  -- The loop that converts a row
  unfoldable pub convert_row :
      List (Text × AnyValue F) → Result (List (Text × Option (WireValue F T)))
  convert_row [] = ok []
  convert_row ((k, v) ∷ row) = do w ← to_api_value v; ws ← convert_row row; ok ((k, w) ∷ ws)

  -- What ExecuteProgram makes of a response
  unfoldable pub answer : (T → Bool) → Text → Keys → ℕ → ExecuteResponse F T → ProgramReply F
  answer is_instant uuid keys ts resp =
      if text_eq resp.uuid uuid
      then elim (from_value resp.result) [
        | panicked ↦ program_crashed
        | err e ↦ program_crashed
        | ok v ↦
            ran
              (record {
                value = v;
                timestamp = response_time is_instant resp.timestamp ts;
                fresh = true;
              })
              (if is_empty resp.keys then keys else resp.keys) none
      ]
      else failure keys uuid_mismatch

  -- What ExecuteProgram makes of the end of the call
  unfoldable pub reply_of :
      (T → Bool) → Text → Keys → ℕ → Result (ExecuteResponse F T) → ProgramReply F
  reply_of is_instant uuid keys ts panicked = program_crashed
  reply_of is_instant uuid keys ts (err e) = failure keys e
  reply_of is_instant uuid keys ts (ok resp) = answer is_instant uuid keys ts resp

-- What grpc.Dial gives is kept under the name.
unfoldable pub keep_connection :
    {L C W : Type 0} → Text → Managed L C W → Result C × W → Result C × Managed L C W
keep_connection name m (panicked, w) = (panicked, record m { outside = w })
keep_connection name m (err e, w) = (err e, record m { outside = w })
keep_connection name m (ok c, w) = (
  ok c,
  record { manager = record m.manager { conns = insert name c m.manager.conns }; outside = w },
)

module _ {F T L C W : Type 0} (servers : RuntimeServers F T C W) where
  -- What follows the test of the socket
  unfoldable pub dial_runtime : Text → Managed L C W → Result C × Managed L C W
  unfolding keep_connection
  dial_runtime name m =
      keep_connection name m (servers.dial (codes "unix://" ++ socket_path name) m.outside)

  -- getRuntime of a name that is not empty
  unfoldable pub connect : Text → Managed L C W → Result C × Managed L C W
  connect name m = elim (lookup name m.manager.conns) [
    | some c ↦ (ok c, m)
    | none ↦ elim (lookup name m.manager.environments) [
      | none ↦ (err runtime_not_found, m)
      | some container ↦
          if servers.socket_exists (socket_path name) m.outside
          then dial_runtime name m
          else (err socket_not_found, m)
    ]
  ]

  -- getRuntime
  unfoldable pub get_runtime : Text → Managed L C W → Result C × Managed L C W
  get_runtime name m = connect (environment name m.manager) m

  -- LoadProgram behind getRuntime
  unfoldable pub load_with :
      C → Text → Text → List Text → Managed L C W → Result ParsedProgram × Managed L C W
  load_with c fqn program packages m =
      let (uuid, w) = servers.new_uuid m.outside in
      let (r, w') =
        servers.load c (record { uuid = uuid; fqn = fqn; program = program; packages = packages })
          w in
      (r >>= parse_response uuid, record m { outside = w' })

  -- LoadProgram
  unfoldable pub load_program :
      Text → Text → Text → List Text → Managed L C W → Result ParsedProgram × Managed L C W
  load_program env fqn program packages m =
      let (r, m') = get_runtime env m in
      elim r [
        | panicked ↦ (panicked, m')
        | err e ↦ (err e, m')
        | ok c ↦ load_with c fqn program packages m'
      ]

  module _ ⦃proto : Timestamps T⦄ where
    -- ExecuteProgram behind the conversion of the row
    unfoldable pub execute_with :
        C
        → Text
        → Keys
        → List (Text × Option (WireValue F T))
        → ℕ
        → Bool
        → Managed L C W
        → ProgramReply F × Managed L C W
    execute_with c fqn keys row ts dry_run m =
        let (uuid, w) = servers.new_uuid m.outside in
        let (r, w') =
          servers.execute c
            (record {
              uuid = uuid;
              fqn = fqn;
              keys = keys;
              row = row;
              timestamp = proto.new_timestamp (pos ts);
              dry_run = dry_run;
            })
            w in
        (reply_of servers.is_instant uuid keys ts r, record m { outside = w' })

    -- ExecuteProgram behind getRuntime; the conversion of the row ends in values or a panic.
    unfoldable pub execute_converted :
        C
        → Text
        → Keys
        → Result (List (Text × Option (WireValue F T)))
        → ℕ
        → Bool
        → Managed L C W
        → ProgramReply F × Managed L C W
    unfolding execute_with
    execute_converted c fqn keys panicked ts dry_run m = (program_crashed, m)
    execute_converted c fqn keys (err e) ts dry_run m = (program_crashed, m)
    execute_converted c fqn keys (ok row) ts dry_run m = execute_with c fqn keys row ts dry_run m

    unfoldable pub execute_on :
        Text
        → Keys
        → Option (List (Text × AnyValue F))
        → ℕ
        → Bool
        → Result C × Managed L C W
        → ProgramReply F × Managed L C W
    unfolding execute_converted
    execute_on fqn keys row ts dry_run (panicked, m) = (program_crashed, m)
    execute_on fqn keys row ts dry_run (err e, m) = (failure keys e, m)
    execute_on fqn keys row ts dry_run (ok c, m) =
        execute_converted c fqn keys (convert_row (row_of row)) ts dry_run m

    -- ExecuteProgram
    unfoldable pub execute_program :
        Text
        → Text
        → Keys
        → Option (List (Text × AnyValue F))
        → ℕ
        → Bool
        → Managed L C W
        → ProgramReply F × Managed L C W
    unfolding execute_on
    execute_program env fqn keys row ts dry_run m =
        execute_on fqn keys row ts dry_run (get_runtime env m)

    -- The manager as the api.RuntimeManager of the builders.
    unfoldable pub managed_runtime : Runtime F (Managed L C W) (List (Text × AnyValue F))
    managed_runtime = record { execute_program = execute_program }

-- GetSidecars, in one order of the map: that of the list.
unfoldable pub get_sidecars : {L C : Type 0} → RuntimeManager L C → List (Container L)
get_sidecars rm = map (λ e. e.1) rm.environments

-- GetDefaultEnv
unfoldable pub get_default_env : {L C : Type 0} → RuntimeManager L C → Text
get_default_env rm = rm.default_env
