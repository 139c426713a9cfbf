-- ===== src/Tests/Runtime.antt =====
-- The runtimes of programs and the deployments at concrete inputs.
use natun.Prelude.{
  ℕ, ◌≡◌, refl, Bool, true, false, not, ◌&&◌, List, [], ◌∷◌, Option, none, some, if◌then◌else◌, All,
}
use natun.Prelude.Int.{ℤ}
use natun.Prelude.Text.{Text, codes}
use natun.Api.Errors.{ok}
use natun.Api.Value.{Value, scalar, str}
use natun.Builders.Programs.{ran}
use natun.Sdk.Convert.{from_value, from_scalar}
use natun.Sdk.Wire
use natun.Sdk.Wire.{WireValue, scalar_value, string_value}
use mathlib.Core.List.Perm
use mathlib.Core.List.{Perm}
use natun.Runtime.Pods.{Container}
use natun.Runtime.Discovery.{RuntimeManager, zero_container, new_runtime}
use natun.Runtime.Manager.{
  RuntimeServers, Managed, ExecuteResponse, get_runtime, execute_program, managed_runtime,
  response_time,
}
use natun.Runtime.Manager.Answers.{IsServed, execute_program-IsServed}
use natun.Runtime.Manager.History.{Call, loads, executes, IsSound, after_calls, after_calls-IsSound}
use natun.Runtime.Runner.{BaseRunner, Deployment, ReconcileRequest, update_deployment}
use natun.Runtime.Runner.Settled.{update_deployment-Perm}
use natun.Runtime.Runner.Wired.{IsWired, update_deployment-IsWired}
use natun.Tests.Data.{nano_timestamps, two_keys}

-- A server that answers every request with a text.
abbrev a_response : ExecuteResponse Bool ℤ
a_response = record {
  uuid = codes "u";
  result = some (scalar_value (some (string_value (codes "done"))));
  keys = [];
  timestamp = none;
}

abbrev echo : RuntimeServers Bool ℤ Text ℕ
echo = record {
  socket_exists = λ path w. true;
  dial = λ target w. (ok target, w);
  new_uuid = λ w. (codes "u", w);
  load = λ c request w.
      (ok (record { uuid = request.uuid; primitive = Wire.p_string; side_effects = [] }), w);
  execute = λ c request w. (ok a_response, w);
  is_instant = λ t. true;
}

abbrev Limits : Type 0
Limits = ℕ

-- A pod with the runtime "default".
abbrev python : Container Limits
python = record (zero_container 0) {
  name = codes "runtime";
  env = record { name = codes "RUNTIME_NAME"; value = codes "default" } ∷ [];
}

abbrev a_manager : RuntimeManager Limits Text
a_manager = record {
  environments = (codes "default", python) ∷ [];
  default_env = codes "default";
  conns = [];
}

a_manager_lem : new_runtime 0 true [] [] (ok (python ∷ [])) ≡ ok a_manager
unfolding new_runtime natun.Runtime.Discovery.from_pod natun.Runtime.Discovery.default_of
    natun.Runtime.Discovery.scan_containers natun.Runtime.Discovery.scan_container
    natun.Runtime.Discovery.runtime_name natun.Prelude.insert zero_container
    natun.Runtime.Discovery.remove_mount
a_manager_lem = refl

abbrev connected : Managed Limits Text ℕ
connected = record {
  manager = record a_manager {
    conns = (codes "default", codes "unix:///tmp/raptor/runtime/default.sock") ∷ [];
  };
  outside = 0;
}

abbrev fresh_manager : Managed Limits Text ℕ
fresh_manager = record { manager = a_manager; outside = 0 }

abbrev done : Value Bool
done = record { value = scalar (str (codes "done")); timestamp = 5; fresh = true }

executed :
    execute_program echo [] (codes "shop.price") two_keys none 5 true fresh_manager
    ≡ (ran done two_keys none, connected)
unfolding execute_program get_runtime natun.Runtime.Manager.connect natun.Prelude.lookup
    natun.Runtime.Manager.environment natun.Runtime.Manager.dial_runtime
    natun.Runtime.Manager.convert_row natun.Runtime.Manager.row_of natun.Runtime.Manager.reply_of
    natun.Prelude.insert natun.Runtime.Manager.answer natun.Sdk.Convert.from_value
    natun.Sdk.Convert.from_scalar response_time
executed = refl

served_example :
    (c : Text) × ((get_runtime echo [] fresh_manager).0 ≡ ok c)
    × IsServed echo (codes "shop.price") two_keys 5 c done two_keys
served_example =
    execute_program-IsServed echo [] (codes "shop.price") two_keys none 5 true fresh_manager
      connected done two_keys executed

abbrev two_calls : List (Call Bool)
two_calls =
    loads [] (codes "shop.price") (codes "def price(): pass") []
    ∷ executes (codes "default") (codes "shop.price") two_keys none 5 true
    ∷ []

IsSound-example : IsSound echo a_manager (after_calls echo two_calls fresh_manager).manager
IsSound-example =
    after_calls-IsSound echo 0 true [] [] (ok (python ∷ [])) a_manager two_calls 0 a_manager_lem

abbrev a_runner : BaseRunner
a_runner = record {
  image = codes "streaming-runner";
  command = codes "/runner" ∷ [];
  security_context = none;
}

abbrev a_request : ReconcileRequest Limits ℕ
a_request = record {
  source = record {
    name = codes "events";
    namespace = codes "shop";
    kind = codes "streaming";
    replicas = none;
    limits = 4;
  };
  core_address = codes "core:60000";
  sidecars = python ∷ [];
  default_env = codes "default";
  no_source = 0;
}

abbrev no_deployment : Deployment Limits ℕ
no_deployment = record {
  is_new = true;
  labels = [];
  replicas = none;
  selector = none;
  template_labels = [];
  annotations = [];
  volumes = [];
  containers = [];
}

-- The same sidecars in another order.
abbrev two_sidecars : ReconcileRequest Limits ℕ
two_sidecars = record a_request { sidecars = python ∷ zero_container 0 ∷ [] }

abbrev swapped : List (Container Limits)
swapped = zero_container 0 ∷ python ∷ []

settled_example :
    let once = update_deployment a_runner two_sidecars no_deployment in
    let twice =
      update_deployment a_runner
        (record two_sidecars { sidecars = swapped })
        (record once { is_new = false }) in
    (twice ≡ record once { is_new = false; containers = twice.containers })
    × Perm twice.containers once.containers
    × (swapped ≡ two_sidecars.sidecars → twice.containers ≡ once.containers)
settled_example =
    update_deployment-Perm a_runner two_sidecars no_deployment false swapped refl
      (Perm.swap python (zero_container 0) [])

IsWired-example :
    All
      (IsWired (codes "core:60000"))
      (update_deployment a_runner a_request no_deployment).containers
IsWired-example = update_deployment-IsWired a_runner a_request no_deployment
