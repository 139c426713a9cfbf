-- ===== src/Controllers/Gone.antt =====
-- Objects that are deleted: Reconcile of internal/engine/controllers, for features and models.
use natun.Prelude.{◌≡◌, refl, Bool, true, not, ◌&&◌, none, arith, lookup-delete}
use natun.Prelude.Text.{Text, text_eq}
use natun.Api.Errors.{Result, ok}
use natun.Api.Descriptor.{Manifest, feature_fqn}
use natun.Engine.Registry
use natun.Engine.Registry.{Plugins}
use natun.Engine.Registry.Bind.{unbind_feature-has_feature}
use natun.Historian.Server
use natun.Historian.Server.{HistoricalWriter}
use natun.Operator.Controllers.{Reconciled, finished, got_object}
use natun.Controllers.{
  FeatureManager, engine_manager, historian_manager, release_feature, reconcile_feature,
}

-- The laws of api.FeatureManager that the controllers rely on: an unbind does not fail, and it frees the
-- name and no other.
pub record ManagerLaws {S : Type 0} (mgr : FeatureManager S) : Type 0 where
  pub unbind_succeeds : (fqn : Text) (s : S) → (mgr.unbind fqn s).0 ≡ none
  pub has-unbind :
      (fqn other : Text) (s : S)
      → mgr.has other (mgr.unbind fqn s).1 ≡ (not (text_eq fqn other) && mgr.has other s)

pub engine_laws : {M C : Type 0} (p : Plugins M C) → ManagerLaws (engine_manager p)
unfolding Registry.unbind_feature
engine_laws p = record { unbind_succeeds = λ fqn e. refl; has-unbind = unbind_feature-has_feature }

pub historian_laws :
    {F M H C : Type 0} (writer : HistoricalWriter F M H) (read_model : Manifest → Result M)
    → ManagerLaws (historian_manager {C = C} writer read_model)
unfolding Server.unbind_feature Server.has_feature
historian_laws writer read_model = record {
  unbind_succeeds = λ fqn h. refl;
  has-unbind = λ fqn other h. ground (arith, lookup-delete fqn other h.fds);
}

module _ {S : Type 0} (mgr : FeatureManager S) (laws : ManagerLaws mgr) where
  -- A name is free, and the others are as they were.
  abbrev pub IsReleased : Text → S → Result Reconciled × S → Type 0
  IsReleased fqn s a =
      (a.0 ≡ ok (finished none))
      × ((other : Text) → mgr.has other a.1 ≡ (not (text_eq fqn other) && mgr.has other s))

  release_feature-IsReleased : (fqn : Text) (s : S) → IsReleased fqn s (release_feature mgr fqn s)
  unfolding release_feature
  release_feature-IsReleased fqn s =
      (rw (laws.unbind_succeeds fqn s) refl, λ other. laws.has-unbind fqn other s)

  -- A feature that has a time of deletion is unbound, whatever updates are allowed, without an error: its
  -- name is free afterwards, and every other feature is bound exactly if it was. This holds for the
  -- engine and for the historian, which both fulfil the laws.
  pub reconcile_feature-IsReleased :
      (updates_allowed : Bool) (m : Manifest) (s : S)
      → IsReleased (feature_fqn m) s (
          reconcile_feature mgr updates_allowed
            (got_object (record { manifest = m; deleting = true }))
            s)
  unfolding reconcile_feature
  reconcile_feature-IsReleased updates_allowed m s = release_feature-IsReleased (feature_fqn m) s
