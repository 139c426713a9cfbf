-- ===== src/Runtime/Runner.antt =====
-- The deployments of the data sources: pkg/runner/base.go. The Kubernetes client is a parameter. The
-- runner writes CORE_GRPC_URL and the mount through the slices of the manager's environments; the manager
-- reads neither, and the next deployment overwrites both.
pub mod Settled
pub mod Wired
use natun.Prelude.{
  ℕ, Bool, true, false, ◌||◌, List, [], ◌∷◌, ◌++◌, Option, none, some, map, if◌then◌else◌,
}
use natun.Prelude.Text.{Text, codes, text_eq}
use natun.Api.Errors.{Result, ok, err, image_required, command_required}
use natun.Api.Descriptor.{is_empty}
use natun.Runtime.Pods.{EnvVar, VolumeMount, SecurityContext, Container}

-- BaseRunner
pub record BaseRunner : Type 0 where
  pub image : Text
  pub command : List Text
  pub security_context : Option SecurityContext

-- What the runner reads of a manifests.DataSource.
pub record SourceSpec (L : Type 0) : Type 0 where
  pub name : Text
  pub namespace : Text
  pub kind : Text
  pub replicas : Option ℕ
  pub limits : L

-- corev1.Volume; other sources are of type V.
pub record Volume (V : Type 0) : Type 0 where
  pub name : Text
  pub empty_dir : Bool
  pub other : V

abbrev pub Labels : Type 0
Labels = List (Text × Text)

-- What the runner reads and writes of an appsv1.Deployment; `is_new` is CreationTimestamp.IsZero().
pub record Deployment (L V : Type 0) : Type 0 where
  pub is_new : Bool
  pub labels : Labels
  pub replicas : Option ℕ
  pub selector : Option Labels
  pub template_labels : Labels
  pub annotations : Labels
  pub volumes : List (Volume V)
  pub containers : List (Container L)

-- The parts of api.DataSourceReconcileRequest. `sidecars` is what one call of GetSidecars gives: it ranges over a
-- map, so the next call may give them in another order. `no_source` is the zero value of the other
-- sources of a volume.
pub record ReconcileRequest (L V : Type 0) : Type 0 where
  pub source : SourceSpec L
  pub core_address : Text
  pub sidecars : List (Container L)
  pub default_env : Text
  pub no_source : V

abbrev pub uds_volume_name : Text
uds_volume_name = codes "grpc-uds"

abbrev pub uds_volume_mount_path : Text
uds_volume_mount_path = codes "/tmp/raptor"

abbrev pub core_grpc_env_name : Text
core_grpc_env_name = codes "CORE_GRPC_URL"

-- `found` of a loop over items: one of them has the name.
unfoldable pub has_named {ℓ} : {I : Type ℓ} → (I → Text) → Text → List I → Bool
has_named name_of name [] = false
has_named name_of name (i ∷ is) = text_eq (name_of i) name || has_named name_of name is

-- A loop that changes the items of a name, with the item that is appended where there is none.
module _ {ℓ} {I : Type ℓ} (name_of : I → Text) (name : Text) (change : I → I) where
  unfoldable pub change_named : List I → List I
  change_named [] = []
  change_named (i ∷ is) = (if text_eq (name_of i) name then change i else i) ∷ change_named is

  unfoldable pub upsert : I → List I → List I
  upsert new is =
      if has_named name_of name is then change_named is else change_named is ++ (new ∷ [])

-- The three loops of updateDeployment.
unfoldable pub set_core_url : Text → List EnvVar → List EnvVar
set_core_url core =
    upsert (λ e. e.name) core_grpc_env_name (λ e. record e { value = core })
      (record { name = core_grpc_env_name; value = core })

unfoldable pub set_uds_mount : List VolumeMount → List VolumeMount
set_uds_mount =
    upsert (λ v. v.name) uds_volume_name (λ v. record v { mount_path = uds_volume_mount_path })
      (record { name = uds_volume_name; mount_path = uds_volume_mount_path })

unfoldable pub set_uds_volume : {V : Type 0} → V → List (Volume V) → List (Volume V)
set_uds_volume no_source =
    upsert (λ v. v.name) uds_volume_name (λ v. record v { empty_dir = true })
      (record { name = uds_volume_name; empty_dir = true; other = no_source })

-- deploymentName
unfoldable pub deployment_name : {L : Type 0} → SourceSpec L → Text
deployment_name src = codes "raptor-dsrc-" ++ src.name

abbrev or_text : Text → Text → Text
or_text [] d = d
or_text (c ∷ s) d = c ∷ s

-- containerWithDefaults
unfoldable pub container_with_defaults : {L : Type 0} → Container L → Container L
container_with_defaults c = record c {
  termination_message_path = or_text c.termination_message_path (codes "/dev/termination-log");
  termination_message_policy = or_text c.termination_message_policy (codes "File");
  image_pull_policy = or_text c.image_pull_policy (codes "IfNotPresent");
  security_context = elim c.security_context [
    | none ↦ some (record { run_as_user = none; run_as_non_root = some true })
    | some s ↦ some s
  ];
}

-- The body of the loop over the sidecars
unfoldable pub wire_sidecar : {L : Type 0} → Text → Container L → Container L
wire_sidecar core c = record c {
  env = set_core_url core c.env;
  volume_mounts = set_uds_mount c.volume_mounts;
}

module _ {L V : Type 0} (r : BaseRunner) (req : ReconcileRequest L V) where
  abbrev pub source_labels : Labels
  source_labels =
      (codes "data-source-kind", req.source.kind) ∷ (codes "data-source", req.source.name) ∷ []

  -- The container of the runner; its security context is not that of `r`.
  unfoldable pub runner_container : Container L
  unfolding container_with_defaults
  runner_container = container_with_defaults (record {
    name = codes "runner";
    image = r.image;
    command =
        r.command
        ++ (codes "--data-source-resource"
            ∷ req.source.name
            ∷ codes "--data-source-namespace"
            ∷ req.source.namespace
            ∷ []);
    env =
        record { name = codes "DEFAULT_RUNTIME"; value = req.default_env }
        ∷ record { name = core_grpc_env_name; value = req.core_address }
        ∷ [];
    volume_mounts = record { name = uds_volume_name; mount_path = uds_volume_mount_path } ∷ [];
    limits = req.source.limits;
    termination_message_path = [];
    termination_message_policy = [];
    image_pull_policy = [];
    security_context = some (record { run_as_user = some 65532; run_as_non_root = some true });
  })

  abbrev or_one : Option ℕ → ℕ
  or_one none = 1
  or_one (some n) = n

  abbrev or_replicas : Option ℕ → Option ℕ
  or_replicas none = some (or_one req.source.replicas)
  or_replicas (some n) = some n

  -- updateDeployment
  unfoldable pub update_deployment : Deployment L V → Deployment L V
  update_deployment deploy = record {
    is_new = deploy.is_new;
    labels = source_labels;
    replicas = or_replicas deploy.replicas;
    selector = if deploy.is_new then some source_labels else deploy.selector;
    template_labels = source_labels;
    annotations = (codes "kubectl.kubernetes.io/default-container", codes "runner") ∷ [];
    volumes = set_uds_volume req.no_source deploy.volumes;
    containers = runner_container ∷ map (wire_sidecar req.core_address) req.sidecars;
  }

  -- reconcile: CreateOrUpdate of the deployment of this name and namespace, which says whether it
  -- changed anything, with SetControllerReference.
  unfoldable pub reconcile :
      {S : Type 0}
      → (Text → Text → (Deployment L V → Result (Deployment L V)) → S → Result Bool × S)
      → (Deployment L V → Result (Deployment L V))
      → S
      → Result Bool × S
  unfolding update_deployment
  reconcile create_or_update set_controller_reference s =
      create_or_update (deployment_name req.source) req.source.namespace
        (λ deploy. set_controller_reference (update_deployment deploy)) s

-- Reconciler, as far as it fails
unfoldable pub reconciler : BaseRunner → Result BaseRunner
reconciler r =
    if is_empty r.image
    then err image_required
    else if is_empty r.command
    then err command_required
    else ok r
