-- ===== src/Prelude/Dict.antt =====
-- Go's maps (and sync.Map) with text keys, as association lists. Iteration order is not modelled.
use mathlib.Core.Path.{◌≡◌, refl}
use mathlib.Core.List.{List, [], ◌∷◌}
use mathlib.Core.Option.{Option, none, some}
use native.Mathlib.Omega.{arith}
use natun.Prelude.Tests.{if◌then◌else◌}
use natun.Prelude.Text.{Text, text_eq, text_eq_iff}

module _ {ℓ} {E : Type ℓ} where
  -- map[key], map.Load(key)
  unfoldable pub lookup : Text → List (Text × E) → Option E
  lookup key [] = none
  lookup key ((name, entry) ∷ rest) = if text_eq name key then some entry else lookup key rest

  -- map[key] = new, map.Store(key, new)
  unfoldable pub insert : Text → E → List (Text × E) → List (Text × E)
  insert key new [] = (key, new) ∷ []
  insert key new ((name, entry) ∷ rest) =
      if text_eq name key then (key, new) ∷ rest else (name, entry) ∷ insert key new rest

  -- delete(map, key), map.Delete(key)
  unfoldable pub delete : Text → List (Text × E) → List (Text × E)
  delete key [] = []
  delete key ((name, entry) ∷ rest) =
      if text_eq name key then delete key rest else (name, entry) ∷ delete key rest

  pub lookup-insert :
      (key other : Text) (new : E) (entries : List (Text × E))
      → lookup other (insert key new entries)
        ≡ (if text_eq key other then some new else lookup other entries)
  unfolding lookup insert
  lookup-insert key other new [] = refl
  lookup-insert key other new ((name, entry) ∷ rest) =
      let ih = lookup-insert key other new rest in
      ground (arith, ih, text_eq_iff name other, text_eq_iff name key, text_eq_iff key other)

  pub lookup-delete :
      (key other : Text) (entries : List (Text × E))
      → lookup other (delete key entries)
        ≡ (if text_eq key other then none else lookup other entries)
  unfolding lookup delete
  lookup-delete key other [] = ground arith
  lookup-delete key other ((name, entry) ∷ rest) =
      let ih = lookup-delete key other rest in
      ground (arith, ih, text_eq_iff name other, text_eq_iff name key, text_eq_iff key other)
