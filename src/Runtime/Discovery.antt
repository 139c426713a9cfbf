-- ===== src/Runtime/Discovery.antt =====
-- How the runtimes are found: New of pkg/runtimemanager/rm.go. The pod comes from the Kubernetes API, and the
-- files in /tmp/raptor/runtime from the file system; both are parameters.
pub mod Default
use natun.Prelude.{
  ℕ, zero, suc, ◌-◌, Bool, true, false, not, ◌||◌, List, [], ◌∷◌, ◌++◌, Option, none, some, length,
  get_elem?, insert, if◌then◌else◌,
}
use natun.Prelude.Text.{Text, codes, text_eq}
use natun.Api.Errors.{Result, ok, err, panicked, ◌>>=◌, no_runtimes}
use natun.Api.Descriptor.{is_empty}
use natun.Runtime.Pods.{EnvVar, VolumeMount, Container}

-- runtime, with the connections of type C that it keeps in `conns`.
pub record RuntimeManager (L C : Type 0) : Type 0 where
  pub environments : List (Text × Container L)
  pub default_env : Text
  pub conns : List (Text × C)

abbrev pub service_account_path : Text
service_account_path = codes "/var/run/secrets/kubernetes.io/serviceaccount"

abbrev pub runtime_dir : Text
runtime_dir = codes "/tmp/raptor/runtime/"

abbrev pub socket_suffix : Text
socket_suffix = codes ".sock"

-- v[n:] and v[:n]
unfoldable pub skip : ℕ → Text → Text
skip zero v = v
skip (suc n) [] = []
skip (suc n) (c ∷ v) = skip n v

unfoldable pub front : ℕ → Text → Text
front zero v = []
front (suc n) [] = []
front (suc n) (c ∷ v) = c ∷ front n v

-- v[len(path):len(v)-len(suffix)] for a path that the pattern of the Glob matches
unfoldable pub environment_name : Text → Text
unfolding skip front
environment_name v = skip (length runtime_dir) (front (length v - length socket_suffix) v)

-- v1.Container{}
unfoldable pub zero_container : {L : Type 0} → L → Container L
zero_container limits = record {
  name = [];
  image = [];
  command = [];
  env = [];
  volume_mounts = [];
  limits = limits;
  termination_message_path = [];
  termination_message_policy = [];
  image_pull_policy = [];
  security_context = none;
}

-- The loop of checkFn over the matches
unfoldable pub add_matches :
    {L : Type 0} → L → List Text → List (Text × Container L) → List (Text × Container L)
add_matches limits [] environments = environments
add_matches limits (v ∷ vs) environments =
    add_matches limits vs (insert (environment_name v) (zero_container limits) environments)

-- wait.ExponentialBackoff of checkFn, for what the calls of Glob give: it ends at the first error, at the
-- first call that leaves an environment, or with its last step.
unfoldable pub poll :
    {L : Type 0}
    → L
    → List (Result (List Text))
    → List (Text × Container L)
    → Result (List (Text × Container L))
poll limits [] environments = err no_runtimes
poll limits (matches ∷ polls) environments =
    let rest = poll limits polls in
    elim matches [
      | panicked ↦ panicked
      | err e ↦ err no_runtimes
      | ok vs ↦
          let found = add_matches limits vs environments in
          if is_empty found then rest found else ok found
    ]

-- The loop that removes the mount of the service account, the first one
unfoldable pub remove_mount : List VolumeMount → List VolumeMount
remove_mount [] = []
remove_mount (v ∷ vs) =
    if text_eq v.mount_path service_account_path then vs else v ∷ remove_mount vs

-- The loop that detects the name: the last variable of that name counts.
unfoldable pub runtime_name : List EnvVar → Text → Text
runtime_name [] name = name
runtime_name (e ∷ es) name =
    runtime_name es (if text_eq e.name (codes "RUNTIME_NAME") then e.value else name)

-- The loop for the default environment: the first variable of that name, or what was there.
unfoldable pub first_runtime_name : List EnvVar → Text → Text
first_runtime_name [] name = name
first_runtime_name (e ∷ es) name =
    if text_eq e.name (codes "RUNTIME_NAME") then e.value else first_runtime_name es name

-- The variables of the loop over the containers; `first_rt` is `none` where it is -1.
pub record Scan (L : Type 0) : Type 0 where
  pub first_rt : Option ℕ
  pub found : List (Text × Container L)
  pub default_env : Text

abbrev or_index : Option ℕ → ℕ → Option ℕ
or_index none i = some i
or_index (some j) i = some j

module _ {L : Type 0} where
  -- The body of the loop, at index `i`
  unfoldable pub scan_container : ℕ → Container L → Scan L → Scan L
  scan_container i c s =
      let name = runtime_name c.env [] in
      if is_empty name then s else record {
        first_rt = or_index s.first_rt i;
        found = insert name (record c { volume_mounts = remove_mount c.volume_mounts }) s.found;
        default_env = if text_eq name (codes "default") then name else s.default_env;
      }

  unfoldable pub scan_containers : ℕ → List (Container L) → Scan L → Scan L
  scan_containers i [] s = s
  scan_containers i (c ∷ cs) s = scan_containers (suc i) cs (scan_container i c s)

  -- pod.Spec.Containers[firstRt].Env
  unfoldable pub env_of : List (Container L) → Option ℕ → Result (List EnvVar)
  env_of cs none = panicked
  env_of cs (some i) = elim (get_elem? cs i) [ none ↦ panicked | some c ↦ ok c.env ]

  -- What follows the loop
  unfoldable pub default_of : Text → List (Container L) → Scan L → Result Text
  default_of default_runtime cs s =
      if not (is_empty s.default_env)
      then ok s.default_env
      else if not (is_empty default_runtime)
      then ok default_runtime
      else (env_of cs s.first_rt >>= λ env. ok (first_runtime_name env []))

  -- The part of New for a pod
  unfoldable pub from_pod : {C : Type 0} → Text → List (Container L) → Result (RuntimeManager L C)
  from_pod default_runtime cs =
      let s : Scan L =
        scan_containers zero cs (record { first_rt = none; found = []; default_env = [] }) in
      default_of default_runtime cs s >>= λ env.
      if is_empty s.found
      then err no_runtimes
      else ok (record { environments = s.found; default_env = env; conns = [] })

  -- New. `managed` is mgr != nil, `default_runtime` the variable DEFAULT_RUNTIME, `polls` what the calls of
  -- Glob give, and `containers` what the Kubernetes API gives.
  unfoldable pub new_runtime :
      {C : Type 0}
      → L
      → Bool
      → Text
      → List (Result (List Text))
      → Result (List (Container L))
      → Result (RuntimeManager L C)
  new_runtime limits managed default_runtime polls containers =
      if not managed || not (is_empty default_runtime)
      then (poll limits polls [] >>= λ found.
          ok (record { environments = found; default_env = default_runtime; conns = [] }))
      else (containers >>= λ cs. from_pod default_runtime cs)
