-- ===== src/Runtime/Runner/Wired.antt =====
-- The address of the core in the containers of a deployment: updateDeployment of pkg/runner/base.go.
use natun.Prelude.{
  ◌≡◌, ◌⊎◌, refl, true, List, [], ◌∷◌, ◌++◌, arith, All, map, if◌then◌else◌, Bool-cases, inl, inr,
}
use natun.Prelude.Text.{Text, text_eq, text_eq_refl}
use natun.Runtime.Pods.{Container}
use natun.Runtime.Runner.{
  BaseRunner, Deployment, ReconcileRequest, uds_volume_name, uds_volume_mount_path,
  core_grpc_env_name, change_named, has_named, upsert, set_core_url, set_uds_mount, wire_sidecar,
  container_with_defaults, runner_container, update_deployment,
}

-- Some item has the name.
abbrev pub IsNamed : {I : Type 0} → (I → Text) → Text → List I → Type 0
IsNamed name_of name [] = ⊥
IsNamed name_of name (i ∷ is) = (text_eq (name_of i) name ≡ true) ⊎ IsNamed name_of name is

-- All items of the name are good, and there is one.
abbrev pub IsPlaced : {I : Type 0} → (I → Text) → Text → (I → Type 0) → List I → Type 0
IsPlaced name_of name Good is =
    All (λ i. text_eq (name_of i) name ≡ true → Good i) is × IsNamed name_of name is

module _ {I : Type 0} (name_of : I → Text) (name : Text) (change : I → I) (Good : I → Type 0)
    (keeps : (i : I) → name_of (change i) ≡ name_of i) (good : (i : I) → Good (change i)) where
  changed_good :
      (i : I)
      → text_eq (name_of (if text_eq (name_of i) name then change i else i)) name ≡ true
      → Good (if text_eq (name_of i) name then change i else i)
  changed_good i h = elim (Bool-cases (text_eq (name_of i) name)) [
    | inl same ↦ rw same (good i)
    | inr other ↦ absurd (ground arith)
  ]

  change_named-All :
      (is : List I)
      → All (λ i. text_eq (name_of i) name ≡ true → Good i) (change_named name_of name change is)
  unfolding change_named
  change_named-All [] = tt
  change_named-All (i ∷ is) = (changed_good i, change_named-All is)

  change_named-IsNamed :
      (is : List I)
      → has_named name_of name is ≡ true
      → IsNamed name_of name (change_named name_of name change is)
  unfolding has_named change_named
  change_named-IsNamed [] h = cc h
  change_named-IsNamed (i ∷ is) h = elim (Bool-cases (text_eq (name_of i) name)) [
    | inl same ↦ inl (rw same (ground (arith, keeps i)))
    | inr other ↦ inr (change_named-IsNamed is (ground arith))
  ]

  All-append :
      (P : I → Type 0) (is : List I) (new : I) → All P is → P new → All P (is ++ (new ∷ []))
  All-append P [] new h p = (p, tt)
  All-append P (i ∷ is) new h p = (h.0, All-append P is new h.1 p)

  IsNamed-append :
      (is : List I) (new : I) → name_of new ≡ name → IsNamed name_of name (is ++ (new ∷ []))
  IsNamed-append [] new named = inl (rw named (text_eq_refl name))
  IsNamed-append (i ∷ is) new named = inr (IsNamed-append is new named)

  upsert-IsPlaced :
      (new : I) (is : List I)
      → name_of new ≡ name
      → Good new
      → IsPlaced name_of name Good (upsert name_of name change new is)
  unfolding upsert
  upsert-IsPlaced new is named fits = elim (Bool-cases (has_named name_of name is)) [
    | inl there ↦ rw there (change_named-All is, change_named-IsNamed is there)
    | inr missing ↦ rw missing (
      All-append (λ i. text_eq (name_of i) name ≡ true → Good i)
          (change_named name_of name change is) new (change_named-All is) (λ _. fits),
      IsNamed-append (change_named name_of name change is) new named,
    )
  ]

-- A container reaches the core at the address, and the sockets in their directory.
abbrev pub IsWired : {L : Type 0} → Text → Container L → Type 0
IsWired core c =
    IsPlaced (λ e. e.name) core_grpc_env_name (λ e. e.value ≡ core) c.env
    × IsPlaced (λ v. v.name) uds_volume_name (λ v. v.mount_path ≡ uds_volume_mount_path)
        c.volume_mounts

wire_sidecar-IsWired :
    {L : Type 0} (core : Text) (c : Container L) → IsWired core (wire_sidecar core c)
unfolding wire_sidecar set_core_url set_uds_mount
wire_sidecar-IsWired core c = (
  upsert-IsPlaced (λ e. e.name) core_grpc_env_name (λ e. record e { value = core })
      (λ e. e.value ≡ core) (λ e. refl) (λ e. refl)
      (record { name = core_grpc_env_name; value = core }) c.env refl refl,
  upsert-IsPlaced (λ v. v.name) uds_volume_name
      (λ v. record v { mount_path = uds_volume_mount_path })
      (λ v. v.mount_path ≡ uds_volume_mount_path) (λ v. refl) (λ v. refl)
      (record { name = uds_volume_name; mount_path = uds_volume_mount_path }) c.volume_mounts refl
      refl,
)

sidecars-IsWired :
    {L : Type 0} (core : Text) (cs : List (Container L))
    → All (IsWired core) (map (wire_sidecar core) cs)
sidecars-IsWired core [] = tt
sidecars-IsWired core (c ∷ cs) = (wire_sidecar-IsWired core c, sidecars-IsWired core cs)

runner_container-IsWired :
    {L V : Type 0} (r : BaseRunner) (req : ReconcileRequest L V)
    → IsWired req.core_address (runner_container r req)
unfolding runner_container container_with_defaults
runner_container-IsWired r req =
    (((λ e. cc e, (λ e. refl, tt)), inr (inl refl)), (((λ e. refl, tt)), inl refl))

-- Every container of an updated deployment, the runner and each of the sidecars, has the variable
-- CORE_GRPC_URL, with the address of the core as its value wherever it stands, and has a mount of the
-- volume of the sockets, at its directory wherever it stands.
pub update_deployment-IsWired :
    {L V : Type 0} (r : BaseRunner) (req : ReconcileRequest L V) (deploy : Deployment L V)
    → All (IsWired req.core_address) (update_deployment r req deploy).containers
unfolding update_deployment
update_deployment-IsWired r req deploy =
    (runner_container-IsWired r req, sidecars-IsWired req.core_address req.sidecars)
