-- ===== src/History/QueryBuilder/KeyFeature.antt =====
-- The features of a query over a set of features: pkg/querybuilder/fs.go.
use mathlib.Core.List.{append-nil, append_assoc}
use natun.Prelude.{◌≡◌, ◌∙◌, true, List, [], ◌∷◌, ◌++◌, arith, Bool-cases, inl, subst, sym, inr}
use natun.Prelude.Text.{Text, text_eq_refl}
use natun.Api.Errors.{Result, ok, >>=-eq-ok}
use natun.Api.Descriptor.{FeatureDescriptor}
use natun.History.QueryBuilder.{
  FeatureSetQuery, QueryBuilder, ModelSpec, is_listed, key_of, names_with_key, add_feature,
  add_features, set_query,
}

-- The descriptors of the names, in their order.
abbrev pub Describes :
    (Text → Result FeatureDescriptor) → List Text → List FeatureDescriptor → Type 0
Describes getter [] [] = Unit
Describes getter [] (ft ∷ fts) = ⊥
Describes getter (name ∷ names) [] = ⊥
Describes getter (name ∷ names) (ft ∷ fts) = (getter name ≡ ok ft) × Describes getter names fts

is_listed-append : (key : Text) (names : List Text) → is_listed key (names ++ (key ∷ [])) ≡ true
unfolding is_listed
is_listed-append key [] = rw (text_eq_refl key)
is_listed-append key (f ∷ fs) = ground (arith, is_listed-append key fs)

is_listed-names_with_key :
    (key : Text) (names : List Text) → is_listed key (names_with_key key names) ≡ true
unfolding names_with_key
is_listed-names_with_key key names = elim (Bool-cases (is_listed key names)) [
  | inl found ↦ rw found found
  | inr missing ↦ rw missing (is_listed-append key names)
]

-- What the loop adds to a query: the descriptors of the names, and it keeps the key.
Describes-append :
    (getter : Text → Result FeatureDescriptor) (names : List Text) (q : FeatureSetQuery)
    {r : FeatureSetQuery}
    → add_features getter names q ≡ ok r
    → (fts : List FeatureDescriptor) × (r.features ≡ q.features ++ fts)
      × Describes getter names fts
      × (r.key_feature ≡ q.key_feature)
unfolding add_features add_feature
Describes-append getter [] q eq = ([], ground (arith, append-nil q.features), tt, ground arith)
Describes-append getter (name ∷ names) q eq =
    let (ft, got, rest) = >>=-eq-ok (getter name) _ eq in
    let (fts, added, described, kept) = Describes-append getter names (add_feature ft q) rest in
    (ft ∷ fts, added ∙ append_assoc q.features (ft ∷ []) fts, (got, described), kept)

-- The query of a set of features that could be read has the descriptors of all of its features in
-- their order, with the key feature behind them where it is none of them, and the key feature is
-- among the names.
pub set_query-features :
    (qb : QueryBuilder) (fs : ModelSpec) (getter : Text → Result FeatureDescriptor)
    {q : FeatureSetQuery}
    → set_query qb fs getter ≡ ok q
    → (key_of fs ≡ ok q.key_feature)
      × (is_listed q.key_feature (names_with_key q.key_feature fs.features) ≡ true)
      × Describes getter (names_with_key q.key_feature fs.features) q.features
unfolding set_query
set_query-features qb fs getter {q} eq =
    let (key, found, rest) = >>=-eq-ok (key_of fs) _ eq in
    let (fts, added, described, kept) =
      Describes-append getter (names_with_key key fs.features) _ rest in
    subst
      (λ k.
        (key_of fs ≡ ok k)
        × (is_listed k (names_with_key k fs.features) ≡ true)
        × Describes getter (names_with_key k fs.features) q.features)
      (sym kept)
      (
        found,
        is_listed-names_with_key key fs.features,
        subst (Describes getter (names_with_key key fs.features)) (sym added) described,
      )
