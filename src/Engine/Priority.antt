-- ===== src/Engine/Priority.antt =====
-- The hooks of a feature and their order: internal/engine/feature.go.
use natun.Prelude.{
  ◌+◌, ◌≤◌, ◌≡◌, refl, sym, ap, ◌∙◌, Bool, List, [], ◌∷◌, ◌++◌, map, Option, none, some, arith,
  if◌then◌else◌, Bool-cases, inl, inr, All, ◌==◌,
}
use mathlib.Core.List.{append-nil, append_assoc}
use natun.Prelude.Int.{ℤ, pos_part, neg_part, ltb_ℤ}
use natun.Api.Descriptor.{FeatureDescriptor}

-- mw, for any type of functions
pub record Hook (M : Type 0) : Type 0 where
  pub fn : M
  pub priority : ℤ

-- FeaturePipeliner
pub record FeaturePipeliner (M : Type 0) : Type 0 where
  pub descriptor : FeatureDescriptor
  pub pre_get : List (Hook M)
  pub post_get : List (Hook M)
  pub pre_set : List (Hook M)
  pub post_set : List (Hook M)

module _ {M : Type 0} where
  -- append(hooks, mw{fn: fn, priority: priority}), unless fn is nil
  unfoldable pub add_hook : ℤ → Option M → List (Hook M) → List (Hook M)
  add_hook priority none hooks = hooks
  add_hook priority (some fn) hooks = hooks ++ (record { fn = fn; priority = priority } ∷ [])

  unfoldable pub add_pre_get_middleware : ℤ → Option M → FeaturePipeliner M → FeaturePipeliner M
  add_pre_get_middleware priority fn f = record f { pre_get = add_hook priority fn f.pre_get }

  unfoldable pub add_post_get_middleware : ℤ → Option M → FeaturePipeliner M → FeaturePipeliner M
  add_post_get_middleware priority fn f = record f { post_get = add_hook priority fn f.post_get }

  unfoldable pub add_pre_set_middleware : ℤ → Option M → FeaturePipeliner M → FeaturePipeliner M
  add_pre_set_middleware priority fn f = record f { pre_set = add_hook priority fn f.pre_set }

  unfoldable pub add_post_set_middleware : ℤ → Option M → FeaturePipeliner M → FeaturePipeliner M
  add_post_set_middleware priority fn f = record f { post_set = add_hook priority fn f.post_set }

  -- The hook goes in front of the first one that comes strictly after it.
  unfoldable pub insert_hook : Hook M → List (Hook M) → List (Hook M)
  insert_hook h [] = h ∷ []
  insert_hook h (k ∷ ks) = if ltb_ℤ k.priority h.priority then k ∷ insert_hook h ks else h ∷ k ∷ ks

  -- sort.SliceStable by priority, for which Go documents no more than that it sorts and is stable
  unfoldable pub sort : List (Hook M) → List (Hook M)
  sort [] = []
  sort (h ∷ hs) = insert_hook h (sort hs)

  -- mws.Middlewares
  unfoldable pub middlewares : List (Hook M) → List M
  middlewares hooks = map (λ h. h.fn) (sort hooks)

  abbrev pub same_priority : ℤ → Hook M → Bool
  same_priority p h = pos_part h.priority + neg_part p == pos_part p + neg_part h.priority

  -- The hooks of one priority.
  abbrev pub at_priority : ℤ → List (Hook M) → List (Hook M)
  at_priority p [] = []
  at_priority p (h ∷ hs) = if same_priority p h then h ∷ at_priority p hs else at_priority p hs

  abbrev pub LePriority : Hook M → Hook M → Type 0
  LePriority h k =
      pos_part h.priority + neg_part k.priority ≤ pos_part k.priority + neg_part h.priority

  -- No hook stands behind one of a higher priority.
  abbrev pub IsOrdered : List (Hook M) → Type 0
  IsOrdered [] = Unit
  IsOrdered (h ∷ ks) = All (LePriority h) ks × IsOrdered ks

  All-le_trans :
      (h k : Hook M) (ks : List (Hook M))
      → LePriority h k
      → All (LePriority k) ks
      → All (LePriority h) ks
  All-le_trans h k [] le all = tt
  All-le_trans h k (l ∷ ks) le (a, all) = (omega arith, All-le_trans h k ks le all)

  All-insert_hook :
      (k h : Hook M) (ks : List (Hook M))
      → LePriority k h
      → All (LePriority k) ks
      → All (LePriority k) (insert_hook h ks)
  unfolding insert_hook
  All-insert_hook k h [] le all = (le, tt)
  All-insert_hook k h (l ∷ ks) le (a, all) = elim (Bool-cases (ltb_ℤ l.priority h.priority)) [
    | inl e ↦ rw e (a, All-insert_hook k h ks le all)
    | inr e ↦ rw e (le, (a, all))
  ]

  insert_hook-IsOrdered :
      (h : Hook M) (ks : List (Hook M)) → IsOrdered ks → IsOrdered (insert_hook h ks)
  unfolding insert_hook
  insert_hook-IsOrdered h [] o = (tt, tt)
  insert_hook-IsOrdered h (k ∷ ks) (a, o) = elim (Bool-cases (ltb_ℤ k.priority h.priority)) [
    | inl e ↦ rw e (All-insert_hook k h ks (ground arith) a, insert_hook-IsOrdered h ks o)
    | inr e ↦
        let le : LePriority h k = ground arith in rw e ((le, All-le_trans h k ks le a), (a, o))
  ]

  sort-IsOrdered : (hs : List (Hook M)) → IsOrdered (sort hs)
  unfolding sort
  sort-IsOrdered [] = tt
  sort-IsOrdered (h ∷ hs) = insert_hook-IsOrdered h (sort hs) (sort-IsOrdered hs)

  at_priority-insert_hook :
      (p : ℤ) (h : Hook M) (ks : List (Hook M))
      → at_priority p (insert_hook h ks) ≡ at_priority p (h ∷ ks)
  unfolding insert_hook
  at_priority-insert_hook p h [] = refl
  at_priority-insert_hook p h (k ∷ ks) = ground (arith, at_priority-insert_hook p h ks)

  at_priority-sort : (p : ℤ) (hs : List (Hook M)) → at_priority p (sort hs) ≡ at_priority p hs
  unfolding sort
  at_priority-sort p [] = refl
  at_priority-sort p (h ∷ hs) =
      at_priority-insert_hook p h (sort hs) ∙ ground (arith, at_priority-sort p hs)

  -- A plugin's calls of AddPreGetMiddleware, one after the other.
  abbrev pub add_all_pre_get : List (Hook M) → FeaturePipeliner M → FeaturePipeliner M
  add_all_pre_get [] f = f
  add_all_pre_get (h ∷ hs) f = add_all_pre_get hs (add_pre_get_middleware h.priority (some h.fn) f)

  added_pre_get :
      (hs : List (Hook M)) (f : FeaturePipeliner M)
      → (add_all_pre_get hs f).pre_get ≡ f.pre_get ++ hs
  unfolding add_pre_get_middleware add_hook
  added_pre_get [] f = sym (append-nil f.pre_get)
  added_pre_get (h ∷ hs) f =
      added_pre_get hs (add_pre_get_middleware h.priority (some h.fn) f)
      ∙ append_assoc f.pre_get (h ∷ []) hs

  -- What Middlewares gives are the hooks that are registered before reads, behind any that there are, in the order of
  -- their priorities: no hook stands behind one of a higher priority, and those of one priority stand in
  -- the order in which they were registered, with none lost and none added.
  pub middlewares-IsOrdered :
      (hs : List (Hook M)) (f : FeaturePipeliner M)
      → (run : List (Hook M)) × (middlewares (add_all_pre_get hs f).pre_get
          ≡ map (λ (h : Hook M). h.fn) run)
        × IsOrdered run
        × ((p : ℤ) → at_priority p run ≡ at_priority p (f.pre_get ++ hs))
  unfolding middlewares
  middlewares-IsOrdered hs f = (
    sort (add_all_pre_get hs f).pre_get,
    refl,
    sort-IsOrdered (add_all_pre_get hs f).pre_get,
    λ p.
        at_priority-sort p (add_all_pre_get hs f).pre_get ∙ ap (at_priority p) (added_pre_get hs f),
  )
