-- ===== src/Operator/Controllers/Deletion.antt =====
-- A data source with features is not deleted: addToSource of internal/operator/feature_controller.go and
-- Reconcile of internal/operator/datasource_controller.go.
use natun.Prelude.{
  ◌≡◌, refl, ap, Bool, true, false, List, [], ◌∷◌, ◌++◌, Option, none, some, arith, if◌then◌else◌,
  Bool-cases, inl, inr,
}
use natun.Prelude.Text.{Text, text_eq_refl}
use natun.Api.Errors.{Error, Result, ok}
use natun.Api.Descriptor.{Manifest, ResourceReference, is_empty}
use natun.Operator.Controllers.{
  ClusterError, other_error, SourceObject, ObjectAnswer, got_object, get_failed, ObjectClient,
  finished, own_reference, source_reference, lists_name, add_to_source, release_source,
  reconcile_source,
}

-- A status that was updated without an error is there.
abbrev pub KeepsStatus : {O W : Type 0} → ObjectClient O W → Type 0
KeepsStatus {O = O} {W = W} objects =
    (name : ResourceReference) (o : O) (w w' : W)
    → objects.update_status name o w ≡ (none, w')
    → objects.get name w' ≡ got_object o

lists_name-append :
    (f : ResourceReference) (fs : List ResourceReference)
    → lists_name f.name (fs ++ (f ∷ [])) ≡ true
unfolding lists_name
lists_name-append f [] = rw (text_eq_refl f.name) refl
lists_name-append f (g ∷ fs) = ground (arith, lists_name-append f fs)

lists_name-not_empty :
    (name : Text) (fs : List ResourceReference) → lists_name name fs ≡ true → is_empty fs ≡ false
unfolding lists_name
lists_name-not_empty name [] h = cc h
lists_name-not_empty name (f ∷ fs) h = refl

module _ {W : Type 0} (sources : ObjectClient SourceObject W) (keeps : KeepsStatus sources) where
  -- The data source that a feature refers to lists the feature's name.
  abbrev Lists : Manifest → ResourceReference → W → Type 0
  Lists m r w =
      (src : SourceObject) × (sources.get (source_reference m r) w ≡ got_object src)
      × (lists_name m.name src.features ≡ true)

  found-Lists :
      (m : Manifest) (r : ResourceReference) (w w' : W) (src : SourceObject)
      → sources.get (source_reference m r) w ≡ got_object src
      → (if lists_name m.name src.features
          then (none, w)
          else sources.update_status
              (source_reference m r)
              (record src { features = src.features ++ (own_reference m ∷ []) })
              w)
        ≡ (none, w')
      → Lists m r w'
  found-Lists m r w w' src there e = elim (Bool-cases (lists_name m.name src.features)) [
    | inl listed ↦
        let same : w ≡ w' = ap (λ p. p.1) (rw listed at e) in (src, rw (← same) there, listed)
    | inr free ↦ (
      record src { features = src.features ++ (own_reference m ∷ []) },
      keeps (source_reference m r) _ w w' (rw free at e),
      lists_name-append (own_reference m) src.features,
    )
  ]

  answered-Lists :
      (m : Manifest) (r : ResourceReference) (w w' : W) (a : ObjectAnswer SourceObject)
      → sources.get (source_reference m r) w ≡ a
      → (elim a as (λ _. Option ClusterError × W) [
        | get_failed e ↦ (some e, w)
        | got_object src ↦
            if lists_name m.name src.features
            then (none, w)
            else sources.update_status
                (source_reference m r)
                (record src { features = src.features ++ (own_reference m ∷ []) })
                w
      ])
        ≡ (none, w')
      → Lists m r w'
  answered-Lists m r w w' (get_failed e) there added = cc (ap (λ p. p.0) added)
  answered-Lists m r w w' (got_object src) there added = found-Lists m r w w' src there added

  add_to_source-Lists :
      (m : Manifest) (r : ResourceReference) (w w' : W)
      → m.data_source ≡ some r
      → add_to_source sources m w ≡ (none, w')
      → Lists m r w'
  unfolding add_to_source source_reference
  add_to_source-Lists m r w w' refers added =
      answered-Lists m r w w' (sources.get (source_reference m r) w) refl (rw refers at added)

  -- After a feature was added to its data source, that data source has the feature's name in its status; and
  -- as long as it has it, a data source that is being deleted is not released: its reconciliation fails and
  -- leaves the cluster, and with it the finalizer, as it was.
  pub add_to_source-reconcile_source :
      (reconcile : Text → Option (SourceObject → W → Result Bool × W)) (has_features : Error)
      (m : Manifest) (r : ResourceReference) (w w' : W)
      → m.data_source ≡ some r
      → add_to_source sources m w ≡ (none, w')
      → (src : SourceObject) × (sources.get (source_reference m r) w' ≡ got_object src)
        × (lists_name m.name src.features ≡ true)
        × (reconcile_source sources reconcile has_features
              (source_reference m r)
              (record src { deleting = true; finalizer = true })
              w'
            ≡ (ok (finished (some (other_error has_features))), w'))
  unfolding reconcile_source release_source
  add_to_source-reconcile_source reconcile has_features m r w w' refers added =
      let (src, there, listed) = add_to_source-Lists m r w w' refers added in
      (src, there, listed, rw (lists_name-not_empty m.name src.features listed) refl)
