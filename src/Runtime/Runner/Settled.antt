-- ===== src/Runtime/Runner/Settled.antt =====
-- Updating a deployment again changes nothing: updateDeployment of pkg/runner/base.go.
use natun.Prelude.{
  ℕ, ◌≡◌, ◌∙◌, refl, ap, map, Bool, true, false, not, ◌&&◌, List, [], ◌∷◌, ◌++◌, Option, none, some,
  arith, Bool-cases, inl, inr,
}
use natun.Prelude.Text.{Text, text_eq_refl}
use mathlib.Core.List.Perm
use mathlib.Core.List.{Perm}
use natun.Runtime.Pods.{Container}
use natun.Runtime.Runner.{
  BaseRunner, Volume, Deployment, ReconcileRequest, uds_volume_name, change_named, has_named,
  upsert, set_uds_volume, or_replicas, runner_container, wire_sidecar, update_deployment,
}

module _ {ℓ} {I : Type ℓ} (name_of : I → Text) (name : Text) (change : I → I)
    (keeps : (i : I) → name_of (change i) ≡ name_of i)
    (again : (i : I) → change (change i) ≡ change i) where
  has_named-change_named :
      (is : List I)
      → has_named name_of name (change_named name_of name change is) ≡ has_named name_of name is
  unfolding has_named change_named
  has_named-change_named [] = refl
  has_named-change_named (i ∷ is) = ground (arith, has_named-change_named is, keeps i)

  change_named-change_named :
      (is : List I)
      → change_named name_of name change (change_named name_of name change is)
        ≡ change_named name_of name change is
  unfolding change_named
  change_named-change_named [] = refl
  change_named-change_named (i ∷ is) =
      ground (arith, change_named-change_named is, keeps i, again i)

  module _ (new : I) (named : name_of new ≡ name) (fixed : change new ≡ new) where
    has_named-append : (is : List I) → has_named name_of name (is ++ (new ∷ [])) ≡ true
    unfolding has_named
    has_named-append [] = rw named (rw (text_eq_refl name) refl)
    has_named-append (i ∷ is) = ground (arith, has_named-append is)

    change_named-append :
        (is : List I)
        → change_named name_of name change (is ++ (new ∷ []))
          ≡ change_named name_of name change is ++ (new ∷ [])
    unfolding change_named
    change_named-append [] = ground (arith, fixed)
    change_named-append (i ∷ is) = ground (arith, change_named-append is)

    pub upsert-upsert :
        (is : List I)
        → upsert name_of name change new (upsert name_of name change new is)
          ≡ upsert name_of name change new is
    unfolding upsert
    upsert-upsert is = elim (Bool-cases (has_named name_of name is)) [
      | inl there ↦ rw there (rw (has_named-change_named is ∙ there) (change_named-change_named is))
      | inr missing ↦ rw missing (
          rw (has_named-append (change_named name_of name change is)) (
            change_named-append (change_named name_of name change is)
            ∙ ap (λ (l : List I). l ++ (new ∷ [])) (change_named-change_named is)))
    ]

set_uds_volume_twice :
    {V : Type 0} (no_source : V) (vs : List (Volume V))
    → set_uds_volume no_source (set_uds_volume no_source vs) ≡ set_uds_volume no_source vs
unfolding set_uds_volume
set_uds_volume_twice no_source vs =
    upsert-upsert (λ v. v.name) uds_volume_name (λ v. record v { empty_dir = true }) (λ i. refl)
      (λ i. refl) (record { name = uds_volume_name; empty_dir = true; other = no_source }) refl refl
      vs

or_replicas_twice :
    {L V : Type 0} (r : BaseRunner) (req : ReconcileRequest L V) (n : Option ℕ)
    → or_replicas r req (or_replicas r req n) ≡ or_replicas r req n
or_replicas_twice r req none = refl
or_replicas_twice r req (some n) = refl

-- The sidecars of a request are those of one call of GetSidecars, whose order is not fixed. A second update of
-- a deployment with the same request, but for the order of its sidecars, leaves all of the deployment
-- but its containers as the first update made it, also where the deployment is created in between, and
-- the same containers, of which the runner stays the first one. In the same order they are the same list. A
-- deployment that was there does not become new.
pub update_deployment-Perm :
    {L V : Type 0} (r : BaseRunner) (req : ReconcileRequest L V) (deploy : Deployment L V)
    (still_new : Bool) (again : List (Container L))
    → (still_new && not deploy.is_new) ≡ false
    → Perm again req.sidecars
    → let once = update_deployment r req deploy in
      let twice =
        update_deployment r
          (record req { sidecars = again })
          (record once { is_new = still_new }) in
      (twice ≡ record once { is_new = still_new; containers = twice.containers })
      × Perm twice.containers once.containers
      × (again ≡ req.sidecars → twice.containers ≡ once.containers)
unfolding update_deployment runner_container
update_deployment-Perm r req deploy still_new again h same = (
  ground (
    arith,
    set_uds_volume_twice req.no_source deploy.volumes,
    or_replicas_twice r req deploy.replicas,
  ),
  Perm.cons (runner_container r req) (Perm.map (wire_sidecar req.core_address) same),
  λ e. ap (λ cs. runner_container r req ∷ map (wire_sidecar req.core_address) cs) e,
)
