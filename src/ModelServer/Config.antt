-- ===== src/ModelServer/Config.antt =====
-- The configuration of a server of models on SageMaker:
-- internal/plugins/modelservers/sagemaker-ack/config.go. mapstructure, which reads it, is a parameter.
use natun.Prelude.{
  ℕ, zero, suc, ◌<◌, ◌≡◌, ◌≢◌, subst, Bool, true, false, ◌||◌, arith, ◌==◌, if◌then◌else◌,
  Bool-cases, inl, inr,
}
use natun.Prelude.Int.{ℤ, pos, negsuc, ltb_ℤ}
use natun.Prelude.Text.{Text}
use natun.Api.Errors.{
  Result, ok, err, ◌>>=◌, >>=-eq-ok, ok-injective, region_required, role_required,
  concurrency_too_large, bad_memory_size,
}
use natun.Api.Descriptor.{is_empty}

-- config
pub record AckConfig : Type 0 where
  pub model_name : Text
  pub region : Text
  pub instance_type : Text
  pub initial_instance_count : ℤ
  pub execution_role_arn : Text
  pub serverless_max_concurrency : ℤ
  pub serverless_memory_size_in_mb : ℤ
  pub serverless : Bool

-- A number, or what replaces a zero
unfoldable pub or_number : ℕ → ℤ → ℤ
or_number d (pos zero) = pos d
or_number d (pos (suc n)) = pos (suc n)
or_number d (negsuc n) = negsuc n

-- The switch over the sizes of the memory
unfoldable pub is_memory_size : ℤ → Bool
is_memory_size (pos n) =
    n == 1024 || (n == 2048 || (n == 3072 || (n == 4096 || (n == 5120 || n == 6144))))
is_memory_size (negsuc n) = false

unfoldable pub is_serverless : AckConfig → Bool
is_serverless cfg =
    is_empty cfg.instance_type
    || (ltb_ℤ (pos 0) cfg.serverless_max_concurrency
        || ltb_ℤ (pos 0) cfg.serverless_memory_size_in_mb)

-- The fields after the defaults; `serverless` is set, and never reset.
unfoldable pub with_defaults : AckConfig → AckConfig
with_defaults cfg = record cfg {
  initial_instance_count = or_number 1 cfg.initial_instance_count;
  serverless = cfg.serverless || is_serverless cfg;
  serverless_max_concurrency = or_number 20 cfg.serverless_max_concurrency;
  serverless_memory_size_in_mb = or_number 2048 cfg.serverless_memory_size_in_mb;
}

-- Parse behind Unmarshal
unfoldable pub check_config : AckConfig → Result AckConfig
check_config cfg =
    if is_empty cfg.region
    then err region_required
    else if is_empty cfg.execution_role_arn
    then err role_required
    else (let cfg' = with_defaults cfg in
        if ltb_ℤ (pos 200) cfg'.serverless_max_concurrency
        then err concurrency_too_large
        else if is_memory_size cfg'.serverless_memory_size_in_mb
        then ok cfg'
        else err bad_memory_size)

-- config.Parse
unfoldable pub parse_config : Result AckConfig → Result AckConfig
parse_config unmarshaled = unmarshaled >>= check_config

-- A configuration that a deployment can be made of.
pub record IsDeployable (cfg : AckConfig) : Type 0 where
  pub region : is_empty cfg.region ≡ false
  pub role : is_empty cfg.execution_role_arn ≡ false
  pub counted : cfg.initial_instance_count ≢ pos 0
  pub concurrent : cfg.serverless_max_concurrency ≢ pos 0
  pub bounded : ltb_ℤ (pos 200) cfg.serverless_max_concurrency ≡ false
  pub memory : is_memory_size cfg.serverless_memory_size_in_mb ≡ true
  pub has_instance : cfg.serverless ≡ false → is_empty cfg.instance_type ≡ false

or_number-ne : (d : ℕ) (n : ℤ) → 0 < d → or_number d n ≢ pos 0
unfolding or_number
or_number-ne d (pos zero) h = ground arith
or_number-ne d (pos (suc n)) h = ground arith
or_number-ne d (negsuc n) h = ground arith

-- The checks that a configuration has passed
checked :
    (cfg cfg' : AckConfig)
    → check_config cfg ≡ ok cfg'
    → (is_empty cfg.region ≡ false)
      × (is_empty cfg.execution_role_arn ≡ false)
      × (ltb_ℤ (pos 200) (with_defaults cfg).serverless_max_concurrency ≡ false)
      × (is_memory_size (with_defaults cfg).serverless_memory_size_in_mb ≡ true)
      × (with_defaults cfg ≡ cfg')
unfolding check_config
checked cfg cfg' e = elim (Bool-cases (is_empty cfg.region)) [
  | inl no_region ↦ cc (rw (no_region, check_config) at e)
  | inr region ↦ elim (Bool-cases (is_empty cfg.execution_role_arn)) [
    | inl no_role ↦ cc (rw (region, no_role, check_config) at e)
    | inr role ↦
        elim (Bool-cases (ltb_ℤ (pos 200) (with_defaults cfg).serverless_max_concurrency)) [
          | inl large ↦ cc (rw (region, role, large, check_config) at e)
          | inr bounded ↦
              elim (Bool-cases (is_memory_size (with_defaults cfg).serverless_memory_size_in_mb)) [
                | inl memory ↦ (
                  region,
                  role,
                  bounded,
                  memory,
                  ok-injective (rw (region, role, bounded, memory) at e),
                )
                | inr bad ↦ cc (rw (region, role, bounded, bad, check_config) at e)
              ]
        ]
  ]
]

has_instance :
    (cfg : AckConfig) → (with_defaults cfg).serverless ≡ false → is_empty cfg.instance_type ≡ false
unfolding with_defaults is_serverless
has_instance cfg e = ground arith

-- A configuration that Parse accepts has a region and a role, a count of instances and a concurrency that are
-- not zero, a concurrency of at most 200 and a size of memory that SageMaker knows, and where it is not
-- serverless it has a type of instance.
pub parse_config-IsDeployable :
    (unmarshaled : Result AckConfig) (cfg : AckConfig)
    → parse_config unmarshaled ≡ ok cfg
    → IsDeployable cfg
unfolding parse_config with_defaults
parse_config-IsDeployable unmarshaled cfg e =
    let (raw, read, rest) = >>=-eq-ok unmarshaled _ e in
    let (region, role, bounded, memory, same) = checked raw cfg rest in
    subst IsDeployable same (record {
      region = region;
      role = role;
      counted = or_number-ne 1 raw.initial_instance_count (omega arith);
      concurrent = or_number-ne 20 raw.serverless_max_concurrency (omega arith);
      bounded = bounded;
      memory = memory;
      has_instance = has_instance raw;
    })
