-- ===== src/PluginRegistry.antt =====
-- The tables of plugins: pkg/plugins/plugin.go. A plugin that is nil is not registered.
use natun.Prelude.{
  ◌≡◌, List, [], ◌∷◌, Option, none, some, arith, lookup, insert, lookup-insert, if◌then◌else◌,
  Option-cases, inl, inr,
}
use natun.Prelude.Text.{Text, text_eq, text_eq_refl}
use natun.Api.Errors.{Result, ok, err, panicked, ◌>>=◌, provider_not_registered}

module _ {ℓ} {P : Type ℓ} where
  -- registry.Register and modelServerRegistry.Register
  unfoldable pub register : Text → P → List (Text × P) → Result (List (Text × P))
  register name p r = elim (lookup name r) [ some old ↦ panicked | none ↦ ok (insert name p r) ]

  -- registry.Get and modelServerRegistry.Get
  unfoldable pub get_plugin : Text → List (Text × P) → Option P
  get_plugin name r = lookup name r

-- NewState, NewCollectNotifier, NewWriteNotifier and NewHistoricalWriter, for the factories of their kind and
-- a configuration of type V
unfoldable pub new_from : {V R : Type 0} → List (Text × (V → Result R)) → Text → V → Result R
unfolding get_plugin
new_from factories provider viper = elim (get_plugin provider factories) [
  | none ↦ err provider_not_registered
  | some make ↦ make viper
]

-- BindConfig over the flags of type V, in the order of the table
unfoldable pub bind_config : {V : Type 0} → List (Text × (V → Result V)) → V → Result V
bind_config [] set = ok set
bind_config ((name, bind) ∷ rest) set = bind set >>= λ set'. bind_config rest set'

-- A plugin that is registered is the one that is made from its name afterwards, every other provider is made
-- as before, and a second registration of the name panics.
pub register-new_from :
    {V R : Type 0} (name other : Text) (make again : V → Result R)
    (r r' : List (Text × (V → Result R))) (viper : V)
    → register name make r ≡ ok r'
    → (new_from r' other viper
        ≡ (if text_eq name other then make viper else new_from r other viper))
      × (register name again r' ≡ panicked)
unfolding new_from register get_plugin
register-new_from name other make again r r' viper registered =
    elim (Option-cases (lookup name r)) [
      | inr (old, taken) ↦ absurd (ground arith)
      | inl free ↦
          let same : insert name make r ≡ r' = ground arith in
          (
            ground (arith, lookup-insert name other make r),
            ground (arith, lookup-insert name name make r, text_eq_refl name),
          )
    ]
