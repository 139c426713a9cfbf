-- ===== src/Runtime/Manager/Connections.antt =====
-- The connections of the manager of the runtimes: getRuntime of pkg/runtimemanager/rm.go.
use natun.Prelude.{
  ◌≡◌, ◌≢◌, ◌++◌, refl, sym, subst, true, false, none, some, arith, lookup, insert, lookup-insert,
  Bool-cases, Option-cases, inl, inr,
}
use natun.Prelude.Text.{Text, codes, text_eq, text_eq-eq, text_eq_refl}
use natun.Api.Errors.{Result, ok, err, panicked, runtime_not_found, socket_not_found}
use natun.Runtime.Pods.{Container}
use natun.Runtime.Discovery.{RuntimeManager}
use natun.Runtime.Manager.{
  RuntimeServers, Managed, socket_path, environment, keep_connection, dial_runtime, connect,
  get_runtime,
}

-- Every connection that is kept is one to an environment.
abbrev pub IsKnown : {L C : Type 0} → RuntimeManager L C → Type 0
IsKnown {L} {C} rm =
    (name : Text) (c : C)
    → lookup name rm.conns ≡ some c
    → (container : Container L) × (lookup name rm.environments ≡ some container)

-- What a call of getRuntime leaves: the environments, connections to them only, and a connection that it
-- gives stays under its name.
pub record Connects {L C W : Type 0} (name : Text) (m : Managed L C W)
    (r : Result C × Managed L C W) : Type 0 where
  pub environments : r.1.manager.environments ≡ m.manager.environments
  pub default_env : r.1.manager.default_env ≡ m.manager.default_env
  pub known : IsKnown m.manager → IsKnown r.1.manager
  pub kept : (c : C) → r.0 ≡ ok c → lookup name r.1.manager.conns ≡ some c

module _ {L C : Type 0} where
  insert-IsKnown :
      (name : Text) (c : C) (container : Container L) (rm : RuntimeManager L C)
      → lookup name rm.environments ≡ some container
      → IsKnown rm
      → IsKnown (record rm { conns = insert name c rm.conns })
  insert-IsKnown name c container rm there known other d e =
      elim (Bool-cases (text_eq name other)) [
        | inl same ↦ (
          container,
          subst (λ n. lookup n rm.environments ≡ some container) (text_eq-eq name other same) there,
        )
        | inr different ↦ known other d (ground (arith, lookup-insert name other c rm.conns))
      ]

module _ {L C W : Type 0} where
  fails :
      (name : Text) (m : Managed L C W) (w : W) (r : Result C)
      → ((c : C) → r ≢ ok c)
      → Connects name m (r, record m { outside = w })
  fails name m w r never = record {
    environments = refl;
    default_env = refl;
    known = λ h. h;
    kept = λ c e. absurd (never c e);
  }

  keep_connection-Connects :
      (name : Text) (container : Container L) (m : Managed L C W) (r : Result C × W)
      → lookup name m.manager.environments ≡ some container
      → Connects name m (keep_connection name m r)
  unfolding keep_connection
  keep_connection-Connects name container m (panicked, w) there =
      fails name m w panicked (λ c e. cc e)
  keep_connection-Connects name container m (err x, w) there = fails name m w (err x) (λ c e. cc e)
  keep_connection-Connects name container m (ok c, w) there = record {
    environments = refl;
    default_env = refl;
    known = insert-IsKnown name c container m.manager there;
    kept = λ d e. ground (arith, lookup-insert name name c m.manager.conns, text_eq_refl name);
  }

module _ {F T L C W : Type 0} (servers : RuntimeServers F T C W) (m : Managed L C W) where
  module _ (name : Text) (new : lookup name m.manager.conns ≡ none) where
    connect_missing :
        lookup name m.manager.environments ≡ none
        → connect servers name m ≡ (err runtime_not_found, m)
    unfolding connect
    connect_missing missing = ground arith

    connect_absent :
        (container : Container L)
        → lookup name m.manager.environments ≡ some container
        → servers.socket_exists (socket_path name) m.outside ≡ false
        → connect servers name m ≡ (err socket_not_found, m)
    unfolding connect
    connect_absent container there absent = ground arith

    connect_dials :
        (container : Container L)
        → lookup name m.manager.environments ≡ some container
        → servers.socket_exists (socket_path name) m.outside ≡ true
        → connect servers name m ≡ dial_runtime servers name m
    unfolding connect
    connect_dials container there exists = ground arith

    connect_new : Connects name m (connect servers name m)
    unfolding dial_runtime
    connect_new = elim (Option-cases (lookup name m.manager.environments)) [
      | inl missing ↦
          subst (Connects name m) (sym (connect_missing missing))
            (fails name m m.outside (err runtime_not_found) (λ c e. cc e))
      | inr (container, there) ↦
          elim (Bool-cases (servers.socket_exists (socket_path name) m.outside)) [
            | inl exists ↦ subst (Connects name m) (sym (connect_dials container there exists)) (
                keep_connection-Connects name container m
                  (servers.dial (codes "unix://" ++ socket_path name) m.outside) there)
            | inr absent ↦
                subst (Connects name m) (sym (connect_absent container there absent))
                  (fails name m m.outside (err socket_not_found) (λ c e. cc e))
          ]
    ]

  connect_cached :
      (name : Text) (c : C)
      → lookup name m.manager.conns ≡ some c
      → connect servers name m ≡ (ok c, m)
  unfolding connect
  connect_cached name c cached = ground arith

  connect-Connects : (name : Text) → Connects name m (connect servers name m)
  connect-Connects name = elim (Option-cases (lookup name m.manager.conns)) [
    | inl new ↦ connect_new name new
    | inr (c, cached) ↦ subst (Connects name m) (sym (connect_cached name c cached)) (record {
      environments = refl;
      default_env = refl;
      known = λ h. h;
      kept = λ d e. ground arith;
    })
  ]

  -- getRuntime keeps the environments and the default one. Where all connections are to environments, they
  -- still are afterwards, and a connection that it gives is kept under the name of its environment.
  pub get_runtime-Connects :
      (env : Text) → Connects (environment env m.manager) m (get_runtime servers env m)
  unfolding get_runtime
  get_runtime-Connects env = connect-Connects (environment env m.manager)

-- Once getRuntime has given a connection for a name, it gives the same one again whatever becomes of the
-- world outside, which it neither asks nor changes: also where the socket is gone.
pub get_runtime-again :
    {F T L C W : Type 0} (servers : RuntimeServers F T C W) (m m' : Managed L C W) (env : Text)
    (c : C) (w : W)
    → get_runtime servers env m ≡ (ok c, m')
    → get_runtime servers env (record m' { outside = w }) ≡ (ok c, record m' { outside = w })
unfolding get_runtime environment
get_runtime-again servers m m' env c w e =
    let h = get_runtime-Connects servers m env in
    let kept : lookup (environment env m.manager) m'.manager.conns ≡ some c =
      ground (arith, h.kept c) in
    let same : environment env m'.manager ≡ environment env m.manager =
      ground (arith, h.default_env) in
    connect_cached servers (record m' { outside = w }) (environment env m'.manager) c (rw same kept)
