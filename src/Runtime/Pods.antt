-- ===== src/Runtime/Pods.antt =====
-- The fields of Kubernetes' containers that pkg/runtimemanager/rm.go and pkg/runner/base.go use.
use natun.Prelude.{ℕ, Bool, List, Option}
use natun.Prelude.Text.{Text}

pub record EnvVar : Type 0 where
  pub name : Text
  pub value : Text

pub record VolumeMount : Type 0 where
  pub name : Text
  pub mount_path : Text

-- corev1.SecurityContext
pub record SecurityContext : Type 0 where
  pub run_as_user : Option ℕ
  pub run_as_non_root : Option Bool

-- corev1.Container; resources are limits of type L.
pub record Container (L : Type 0) : Type 0 where
  pub name : Text
  pub image : Text
  pub command : List Text
  pub env : List EnvVar
  pub volume_mounts : List VolumeMount
  pub limits : L
  pub termination_message_path : Text
  pub termination_message_policy : Text
  pub image_pull_policy : Text
  pub security_context : Option SecurityContext
