-- ===== src/Api/Errors.antt =====
-- Errors and panics of the core as values (api/errors.go and the fmt.Errorf calls of the packages).
-- An error stands for its kind: the text of the message and the names in it are left out.
use mathlib.Core.Path.{◌≡◌, refl}

pub data Error : Type 0 where
  -- api/errors.go
  unsupported_primitive unsupported_aggr feature_not_found feature_already_exists : Error
  invalid_pipeline_context : Error
  -- api/ifaces.go
  missing_key invalid_key_character wrong_number_of_keys : Error
  -- api/primitives.go
  not_scalar bad_number : Error
  -- api/common.go
  invalid_fqn invalid_version namespace_required : Error
  -- api/feature.go
  primitive_with_aggregation invalid_window : Error
  -- internal/engine
  deadline_exceeded value_mismatch version_not_kept version_too_old : Error
  data_source_not_found primitive_mismatch no_builder : Error
  -- internal/plugins and internal/operator
  window_version timestamp_too_old append_to_window append_to_scalar : Error
  incr_window incr_list incr_not_numeric unsupported_value : Error
  feature_immutable model_exists : Error
  model_too_small model_set data_source_required aggregation_unsupported wrong_kind : Error
  -- pkg and internal/plugins
  no_runtimes runtime_not_found socket_not_found uuid_mismatch missing_dependency : Error
  image_required command_required model_required provider_not_registered no_subscriber : Error
  no_framework no_inference no_cpu no_versions version_unsupported no_registry : Error
  no_repository no_container_version no_base_version : Error
  region_required role_required concurrency_too_large bad_memory_size : Error
  -- raised by a server or a plugin outside the repository
  external : Error

-- What a Go function gives: a result, an error, or a panic that unwinds the caller.
pub data Result {ℓ} (R : Type ℓ) : Type ℓ where
  panicked : Result R
  err : Error → Result R
  ok : R → Result R

module _ {ℓ κ} {R : Type ℓ} {Q : Type κ} where
  infixl 5 ◌>>=◌
  abbrev pub ◌>>=◌ : Result R → (R → Result Q) → Result Q
  panicked >>= next = panicked
  err x >>= next = err x
  ok r >>= next = next r

  pub >>=-eq-ok :
      (first : Result R) (next : R → Result Q) {q : Q}
      → (first >>= next) ≡ ok q
      → (r : R) × (first ≡ ok r) × (next r ≡ ok q)
  >>=-eq-ok panicked next eq = cc eq
  >>=-eq-ok (err x) next eq = cc eq
  >>=-eq-ok (ok r) next eq = (r, refl, eq)

pub ok-injective {ℓ} : {R : Type ℓ} {p q : R} → ok p ≡ ok q → p ≡ q
ok-injective eq = cc eq
