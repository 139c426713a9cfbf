-- ===== src/Engine/World.antt =====
-- What the handlers of the engine act on: the state behind api.State (api/state.go), and the queues
-- of the historian's client (internal/historian/client.go).
use natun.Prelude.{ℕ, Bool, false, List, [], ◌∷◌, ◌++◌, Option, some}
use natun.Prelude.Text.{Text}
use natun.Api.Errors.{Result}
use natun.Api.Value.{AnyValue, Value}
use natun.Api.Descriptor.{FeatureDescriptor}
use natun.Api.Keys.{Keys}

-- The methods of api.State that the engine calls, each at a time `now`.
pub record StateOps (F S : Type 0) : Type 0 where
  pub get : ℕ → FeatureDescriptor → Keys → ℕ → S → Result (Option (Value F))
  pub set : ℕ → FeatureDescriptor → Keys → AnyValue F → ℕ → S → Result (Unit {0}) × S
  pub append : ℕ → FeatureDescriptor → Keys → AnyValue F → ℕ → S → Result (Unit {0}) × S
  pub incr : ℕ → FeatureDescriptor → Keys → AnyValue F → ℕ → S → Result (Unit {0}) × S
  pub update : ℕ → FeatureDescriptor → Keys → AnyValue F → ℕ → S → Result (Unit {0}) × S
  pub window_add : ℕ → FeatureDescriptor → Keys → AnyValue F → ℕ → S → Result (Unit {0}) × S

-- StateMethod
pub data StateMethod : Type 0 where
  method_get method_set method_append method_incr method_update method_window_add : StateMethod

-- api/historian.go
pub record CollectNotification : Type 0 where
  pub fqn : Text
  pub encoded_keys : Text
  pub bucket : Text

pub record WriteNotification (F : Type 0) : Type 0 where
  pub fqn : Text
  pub encoded_keys : Text
  pub bucket : Text
  pub active_bucket : Bool
  pub value : Option (Value F)

-- `spawned` holds the writes that a read leaves to a goroutine of its own.
pub record World (F S : Type 0) : Type 0 where
  pub store : S
  pub pending_writes : List (WriteNotification F)
  pub pending_collects : List CollectNotification
  pub spawned : List (Keys × Value F)

module _ {F S : Type 0} where
  -- client.AddWriteNotification with a value
  unfoldable pub add_write_notification : Text → Text → Text → Value F → World F S → World F S
  add_write_notification fqn encoded_keys bucket v w = record w {
    pending_writes =
        w.pending_writes
        ++ (record {
          fqn = fqn;
          encoded_keys = encoded_keys;
          bucket = bucket;
          active_bucket = false;
          value = some v;
        }
            ∷ []);
  }

  -- client.AddCollectNotification
  unfoldable pub add_collect_notification : Text → Text → Text → World F S → World F S
  add_collect_notification fqn encoded_keys bucket w = record w {
    pending_collects =
        w.pending_collects
        ++ (record { fqn = fqn; encoded_keys = encoded_keys; bucket = bucket } ∷ []);
  }
