-- ===== src/Tests/Engine.antt =====
-- The theorems about the pipelines of internal/engine at concrete inputs.
use natun.Prelude.{ℕ, ◌≡◌, refl, false, List, [], ◌∷◌, ◌++◌, map}
use natun.Prelude.Int.{ℤ, pos, negsuc}
use natun.Prelude.Text.{codes}
use natun.Api.Errors.{value_mismatch}
use natun.Api.Primitive
use natun.Api.Value.{scalar, str}
use natun.Engine.Pipeline.{closed, apply, apply_with_timeout, stop}
use natun.Engine.Pipeline.Timeout.{apply_with_timeout-closed}
use natun.Engine.Priority.{
  Hook, FeaturePipeliner, middlewares, at_priority, IsOrdered, add_all_pre_get,
  middlewares-IsOrdered,
}
use natun.Engine.World.{method_set, method_append}
use natun.Engine.Write.{set_decision, set_middleware}
use natun.Engine.Write.Notify.{Notifies, set_decision-Notifies, set_middleware-Forwards}
use natun.Engine.Write.Scalars.{set_decision-scalar_to_list}
use natun.Engine.Read.{get_value_middleware, cache_post_get_middleware}
use natun.Engine.Request.Reads.{get_value-Forwards, cache-Forwards}
use natun.Tests.Data.{
  bits, price, two_keys, cell_state, a_value, full_world, empty_world, background, Wares,
}

abbrev now : ℕ
now = 6_000_000_000

Notifies-example :
    Notifies cell_state now method_set price two_keys a_value empty_world
      (set_decision cell_state now method_set background price two_keys a_value empty_world)
Notifies-example =
    set_decision-Notifies cell_state now method_set background price two_keys a_value empty_world
      refl

scalar_to_list_example :
    set_decision cell_state now method_append background
      (record price { primitive = Primitive.string_list })
      two_keys
      (record { value = scalar (str (codes "a")); timestamp = now; fresh = false })
      full_world
    ≡ stop value_mismatch full_world
scalar_to_list_example =
    set_decision-scalar_to_list cell_state now method_append background
      (record price { primitive = Primitive.string_list }) two_keys (str (codes "a")) now false
      full_world refl (unfold Primitive.scalar in refl)

abbrev read_and_write : List Wares
read_and_write =
    get_value_middleware cell_state now
    ∷ cache_post_get_middleware cell_state now
    ∷ set_middleware cell_state now method_set
    ∷ []

timeout_example :
    apply_with_timeout closed read_and_write background price two_keys a_value full_world
    ≡ apply read_and_write background price two_keys a_value full_world
timeout_example =
    apply_with_timeout-closed read_and_write background price two_keys a_value full_world (
      get_value-Forwards cell_state now,
      (cache-Forwards cell_state now, (set_middleware-Forwards cell_state now method_set, tt)),
    )

abbrev no_hooks : FeaturePipeliner ℕ
no_hooks = record { descriptor = price; pre_get = []; post_get = []; pre_set = []; post_set = [] }

abbrev hooks : List (Hook ℕ)
hooks =
    record { fn = 0; priority = pos 2 }
    ∷ record { fn = 1; priority = negsuc 0 }
    ∷ record { fn = 2; priority = pos 2 }
    ∷ []

middlewares-IsOrdered_example :
    (run : List (Hook ℕ)) × (middlewares (add_all_pre_get hooks no_hooks).pre_get
      ≡ map (λ (h : Hook ℕ). h.fn) run)
    × IsOrdered run
    × ((p : ℤ) → at_priority p run ≡ at_priority p (no_hooks.pre_get ++ hooks))
middlewares-IsOrdered_example = middlewares-IsOrdered hooks no_hooks
