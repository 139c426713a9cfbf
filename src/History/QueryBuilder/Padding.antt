-- ===== src/History/QueryBuilder/Padding.antt =====
-- The time in front of a query over a set of features: BeforePadding of pkg/querybuilder/fs.go.
use natun.Prelude.{
  ℕ, ◌≤◌, ◌≡◌, ◌⊎◌, refl, Bool, true, false, ◌&&◌, List, [], ◌∷◌, ◌++◌, arith, ltb, if◌then◌else◌,
  inl, inr, All, subst,
}
use natun.Prelude.Text.{Text}
use natun.Api.Errors.{Result, ok, >>=-eq-ok, ok-injective}
use natun.Api.Descriptor.{FeatureDescriptor, valid_window}
use natun.History.QueryBuilder.{
  FeatureSetQuery, QueryBuilder, ModelSpec, key_of, names_with_key, add_feature, add_features,
  set_query,
}

-- No feature with a window looks back further than the padding.
abbrev pub CoversAll : ℕ → List FeatureDescriptor → Type 0
CoversAll padding = All (λ ft. valid_window ft ≡ true → ft.staleness ≤ padding)

-- Some feature with a window looks back as far as the padding.
abbrev pub IsReached : ℕ → List FeatureDescriptor → Type 0
IsReached padding [] = ⊥
IsReached padding (ft ∷ fts) =
    ((valid_window ft ≡ true) × (ft.staleness ≡ padding)) ⊎ IsReached padding fts

CoversAll-append :
    (n m : ℕ) (ft : FeatureDescriptor) (fts : List FeatureDescriptor)
    → n ≤ m
    → (valid_window ft ≡ true → ft.staleness ≤ m)
    → CoversAll n fts
    → CoversAll m (fts ++ (ft ∷ []))
CoversAll-append n m ft [] le new old = (new, tt)
CoversAll-append n m ft (f ∷ fts) le new old =
    (λ w. omega (arith, old.0 w), CoversAll-append n m ft fts le new old.1)

IsReached-append_left :
    (n : ℕ) (ft : FeatureDescriptor) (fts : List FeatureDescriptor)
    → IsReached n fts
    → IsReached n (fts ++ (ft ∷ []))
IsReached-append_left n ft [] r = absurd r
IsReached-append_left n ft (f ∷ fts) (inl now) = inl now
IsReached-append_left n ft (f ∷ fts) (inr later) = inr (IsReached-append_left n ft fts later)

IsReached-append_right :
    (n : ℕ) (ft : FeatureDescriptor) (fts : List FeatureDescriptor)
    → valid_window ft ≡ true
    → ft.staleness ≡ n
    → IsReached n (fts ++ (ft ∷ []))
IsReached-append_right n ft [] w e = inl (w, e)
IsReached-append_right n ft (f ∷ fts) w e = inr (IsReached-append_right n ft fts w e)

-- The padding is exact: as long as the windows ask for, and no longer.
pub record IsExact (q : FeatureSetQuery) : Type 0 where
  pub covers : CoversAll q.before_padding q.features
  pub reached : (q.before_padding ≡ 0) ⊎ IsReached q.before_padding q.features

covered :
    (b : Bool) (ft : FeatureDescriptor) (n : ℕ)
    → (valid_window ft && ltb n ft.staleness) ≡ b
    → valid_window ft ≡ true
    → ft.staleness ≤ (if b then ft.staleness else n)
covered true ft n e w = omega arith
covered false ft n e w = ground arith

grown :
    (b : Bool) (ft : FeatureDescriptor) (n : ℕ)
    → (valid_window ft && ltb n ft.staleness) ≡ b
    → n ≤ (if b then ft.staleness else n)
grown true ft n e = ground arith
grown false ft n e = omega arith

still-IsReached :
    (b : Bool) (ft : FeatureDescriptor) (n : ℕ) (fts : List FeatureDescriptor)
    → (valid_window ft && ltb n ft.staleness) ≡ b
    → (n ≡ 0) ⊎ IsReached n fts
    → ((if b then ft.staleness else n) ≡ 0)
      ⊎ IsReached (if b then ft.staleness else n) (fts ++ (ft ∷ []))
still-IsReached true ft n fts e r =
    inr (IsReached-append_right ft.staleness ft fts (ground arith) refl)
still-IsReached false ft n fts e (inl zero_yet) = inl zero_yet
still-IsReached false ft n fts e (inr r) = inr (IsReached-append_left n ft fts r)

add_feature-IsExact :
    (ft : FeatureDescriptor) (q : FeatureSetQuery) → IsExact q → IsExact (add_feature ft q)
unfolding add_feature
add_feature-IsExact ft q h =
    let test = valid_window ft && ltb q.before_padding ft.staleness in
    record {
      covers =
          CoversAll-append q.before_padding (if test then ft.staleness else q.before_padding) ft
            q.features (grown test ft q.before_padding refl) (covered test ft q.before_padding refl)
            h.covers;
      reached = still-IsReached test ft q.before_padding q.features refl h.reached;
    }

add_features-IsExact :
    (getter : Text → Result FeatureDescriptor) (names : List Text) (q : FeatureSetQuery)
    {r : FeatureSetQuery}
    → add_features getter names q ≡ ok r
    → IsExact q
    → IsExact r
unfolding add_features
add_features-IsExact getter [] q eq h = subst IsExact (ok-injective eq) h
add_features-IsExact getter (name ∷ names) q eq h =
    let (ft, got, rest) = >>=-eq-ok (getter name) _ eq in
    add_features-IsExact getter names (add_feature ft q) rest (add_feature-IsExact ft q h)

-- The padding of a query over a set of features that could be read is exact: every feature with a valid
-- window has a staleness of at most the padding, and where the padding is not zero, some feature with a
-- valid window has it as its staleness.
pub set_query-IsExact :
    (qb : QueryBuilder) (fs : ModelSpec) (getter : Text → Result FeatureDescriptor)
    {q : FeatureSetQuery}
    → set_query qb fs getter ≡ ok q
    → IsExact q
unfolding set_query
set_query-IsExact qb fs getter eq =
    let (key, found, rest) = >>=-eq-ok (key_of fs) _ eq in
    add_features-IsExact getter (names_with_key key fs.features) _ rest
      (record { covers = tt; reached = inl refl })
