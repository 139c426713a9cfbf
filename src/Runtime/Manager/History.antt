-- ===== src/Runtime/Manager/History.antt =====
-- Histories of calls of the manager of the runtimes: LoadProgram and ExecuteProgram of
-- pkg/runtimemanager/rm.go.
use natun.Prelude.{
  ℕ, zero, not, ◌||◌, none, lookup, Bool-cases, inl, inr, ◌≡◌, ◌∙◌, refl, sym, subst, Bool, List,
  [], ◌∷◌, Option, arith,
}
use natun.Prelude.Text.{Text}
use natun.Api.Errors.{Result, ok, >>=-eq-ok, ok-injective}
use natun.Api.Value.{AnyValue}
use natun.Api.Keys.{Keys}
use natun.Sdk.Wire.{Timestamps}
use natun.Runtime.Pods.{Container}
use natun.Runtime.Discovery.{
  RuntimeManager, Scan, scan_containers, default_of, poll, from_pod, new_runtime,
}
use natun.Api.Descriptor.{is_empty}
use natun.Runtime.Manager.{
  RuntimeServers, Managed, get_runtime, load_with, load_program, execute_with, execute_program,
}
use natun.Runtime.Manager.Connections.{IsKnown, get_runtime-Connects}

-- A new manager has no connections.
from_pod-conns :
    {L C : Type 0} (default_runtime : Text) (cs : List (Container L)) {rm : RuntimeManager L C}
    → from_pod default_runtime cs ≡ ok rm
    → rm.conns ≡ []
unfolding from_pod
from_pod-conns {L} {C} default_runtime cs made =
    let s : Scan L =
      scan_containers zero cs (record { first_rt = none; found = []; default_env = [] }) in
    let (env, default, rest) = >>=-eq-ok (default_of default_runtime cs s) _ made in
    elim (Bool-cases (is_empty s.found)) [
      | inl empty ↦ absurd (ground arith)
      | inr found ↦
          subst (λ (r : RuntimeManager L C). r.conns ≡ [])
            (ok-injective (rw (found, is_empty) at rest)) refl
    ]

new_runtime-conns :
    {L C : Type 0} (limits : L) (managed : Bool) (default_runtime : Text)
    (polls : List (Result (List Text))) (containers : Result (List (Container L)))
    {rm : RuntimeManager L C}
    → new_runtime limits managed default_runtime polls containers ≡ ok rm
    → rm.conns ≡ []
unfolding new_runtime
new_runtime-conns {L} {C} limits managed default_runtime polls containers made =
    elim (Bool-cases (not managed || not (is_empty default_runtime))) [
      | inl files ↦
          let (found, polled, rest) = >>=-eq-ok (poll limits polls []) _ (rw files at made) in
          subst (λ (r : RuntimeManager L C). r.conns ≡ []) (ok-injective rest) refl
      | inr pod ↦
          let (cs, got, rest) = >>=-eq-ok containers _ (rw pod at made) in
          from_pod-conns default_runtime cs rest
    ]

-- A call with its arguments.
pub data Call (F : Type 0) : Type 0 where
  loads : Text → Text → Text → List Text → Call F
  executes : Text → Text → Keys → Option (List (Text × AnyValue F)) → ℕ → Bool → Call F

module _ {F T L C W : Type 0} ⦃proto : Timestamps T⦄ (servers : RuntimeServers F T C W) where
  -- The manager after a call, and after several.
  unfoldable pub after_call : Call F → Managed L C W → Managed L C W
  after_call (loads env fqn program packages) m =
      (load_program servers env fqn program packages m).1
  after_call (executes env fqn keys row ts dry_run) m =
      (execute_program servers env fqn keys row ts dry_run m).1

  unfoldable pub after_calls : List (Call F) → Managed L C W → Managed L C W
  after_calls [] m = m
  after_calls (c ∷ cs) m = after_calls cs (after_call c m)

  load_manager :
      (env fqn program : Text) (packages : List Text) (m : Managed L C W)
      → (load_program servers env fqn program packages m).1.manager
        ≡ (get_runtime servers env m).1.manager
  unfolding load_program load_with
  load_manager env fqn program packages m = ground arith

  execute_manager :
      (env fqn : Text) (keys : Keys) (row : Option (List (Text × AnyValue F))) (ts : ℕ)
      (dry_run : Bool) (m : Managed L C W)
      → (execute_program servers env fqn keys row ts dry_run m).1.manager
        ≡ (get_runtime servers env m).1.manager
  unfolding execute_program execute_with
  execute_manager env fqn keys row ts dry_run m = ground arith

  -- The environments of the start, and connections to them only.
  abbrev pub IsSound : RuntimeManager L C → RuntimeManager L C → Type 0
  IsSound start rm = (rm.environments ≡ start.environments) × IsKnown rm

  get_runtime-IsSound :
      (start : RuntimeManager L C) (env : Text) (m : Managed L C W)
      → IsSound start m.manager
      → IsSound start (get_runtime servers env m).1.manager
  get_runtime-IsSound start env m h =
      let connects = get_runtime-Connects servers m env in
      (connects.environments ∙ h.0, connects.known h.1)

  after_call-IsSound :
      (start : RuntimeManager L C) (c : Call F) (m : Managed L C W)
      → IsSound start m.manager
      → IsSound start (after_call c m).manager
  unfolding after_call
  after_call-IsSound start (loads env fqn program packages) m h =
      subst (IsSound start) (sym (load_manager env fqn program packages m))
        (get_runtime-IsSound start env m h)
  after_call-IsSound start (executes env fqn keys row ts dry_run) m h =
      subst (IsSound start) (sym (execute_manager env fqn keys row ts dry_run m))
        (get_runtime-IsSound start env m h)

  after_calls_keep :
      (start : RuntimeManager L C) (cs : List (Call F)) (m : Managed L C W)
      → IsSound start m.manager
      → IsSound start (after_calls cs m).manager
  unfolding after_calls
  after_calls_keep start [] m h = h
  after_calls_keep start (c ∷ cs) m h =
      after_calls_keep start cs (after_call c m) (after_call-IsSound start c m h)

  -- After any calls of LoadProgram and ExecuteProgram on a manager that New made, the environments are
  -- those that New found, and every connection that is kept is to one of them.
  pub after_calls-IsSound :
      (limits : L) (managed : Bool) (default_runtime : Text) (polls : List (Result (List Text)))
      (containers : Result (List (Container L))) (start : RuntimeManager L C) (cs : List (Call F))
      (w : W)
      → new_runtime limits managed default_runtime polls containers ≡ ok start
      → IsSound start (after_calls cs (record { manager = start; outside = w })).manager
  after_calls-IsSound limits managed default_runtime polls containers start cs w made =
      let empty = new_runtime-conns limits managed default_runtime polls containers made in
      after_calls_keep start cs (record { manager = start; outside = w })
        (refl, λ name c e. absurd (unfold lookup in ground (arith, empty)))
