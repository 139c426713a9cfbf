-- ===== src/Engine/Write/Scalars.antt =====
-- A single value that is written to a feature of a list type (setMiddleware of
-- internal/engine/engine_pipeline.go).
use natun.Prelude.{ℕ, ◌≡◌, refl, Bool, false}
use natun.Api.Errors.{value_mismatch}
use natun.Api.Primitive
use natun.Api.Primitive.{PrimitiveType, primitive_eq, string_to_primitive_type}
use natun.Api.Value.{Scalar, str, int, flt, bool, time, scalar, go_type, type_name, type_detect}
use natun.Api.Descriptor.{FeatureDescriptor, is_empty}
use natun.Api.Keys.{Keys}
use natun.Engine.Pipeline.{Context, stop}
use natun.Engine.World.{StateOps, StateMethod, World}
use natun.Engine.Write.{set_decision, write_typed}

-- The type of a scalar, and no list type is equal to it.
detected_scalar :
    {F : Type 0} (v : Scalar F) (q : PrimitiveType)
    → Primitive.scalar q ≡ false
    → primitive_eq (string_to_primitive_type (type_name (go_type v))) q ≡ false
unfolding primitive_eq string_to_primitive_type type_name go_type Primitive.scalar
detected_scalar (str s) Primitive.string h = cc h
detected_scalar (str s) Primitive.unknown h = refl
detected_scalar (str s) _ h = refl
detected_scalar (int n) Primitive.integer h = cc h
detected_scalar (int n) Primitive.unknown h = refl
detected_scalar (int n) _ h = refl
detected_scalar (flt x) Primitive.float h = cc h
detected_scalar (flt x) Primitive.unknown h = refl
detected_scalar (flt x) _ h = refl
detected_scalar (bool b) Primitive.boolean h = cc h
detected_scalar (bool b) Primitive.unknown h = refl
detected_scalar (bool b) _ h = refl
detected_scalar (time t) Primitive.timestamp h = cc h
detected_scalar (time t) Primitive.unknown h = refl
detected_scalar (time t) _ h = refl

module _ {F S : Type 0} (state : StateOps F S) (now : ℕ) where
  -- A single value never reaches a feature of a list type with a data source: every method, Append
  -- included, stops with a mismatch of the types and changes nothing.
  pub set_decision-scalar_to_list :
      (method : StateMethod) (ctx : Context) (fd : FeatureDescriptor) (keys : Keys) (v : Scalar F)
      (ts : ℕ) (fresh : Bool) (w : World F S)
      → is_empty fd.data_source ≡ false
      → Primitive.scalar fd.primitive ≡ false
      → set_decision state now method ctx fd keys
          (record { value = scalar v; timestamp = ts; fresh = fresh })
          w
        ≡ stop value_mismatch w
  unfolding set_decision write_typed type_detect
  set_decision-scalar_to_list method ctx fd keys v ts fresh w source list =
      rw source (rw (detected_scalar v fd.primitive list) refl)
