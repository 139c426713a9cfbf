-- ===== src/Runtime/Discovery/Default.antt =====
-- The default environment of the runtimes of a pod: New of pkg/runtimemanager/rm.go.
use natun.Prelude.{
  ℕ, zero, suc, ◌+◌, ◌≡◌, ◌∙◌, sym, ap, refl, subst, ◌⊎◌, inl, inr, true, List, [], ◌∷◌, Option,
  none, some, arith, get_elem?, lookup, insert, lookup-insert, Bool-cases, All,
}
use natun.Prelude.Text.{Text, codes, text_eq, text_eq_refl}
use natun.Api.Errors.{ok, panicked, >>=-eq-ok, ok-injective}
use natun.Api.Descriptor.{is_empty}
use natun.Runtime.Pods.{EnvVar, Container}
use natun.Runtime.Discovery.{
  RuntimeManager, Scan, remove_mount, runtime_name, first_runtime_name, or_index, scan_container,
  scan_containers, env_of, default_of, from_pod,
}

-- An environment has this name.
abbrev pub Has : {L : Type 0} → Text → List (Text × Container L) → Type 0
Has {L} name found = (c : Container L) × (lookup name found ≡ some c)

index_cases : (first : Option ℕ) (i j : ℕ) → or_index first i ≡ some j → (i ≡ j) ⊎ (first ≡ some j)
index_cases none i j e = inl (ground arith)
index_cases (some k) i j e = inr e

module _ {L : Type 0} where
  Has-insert :
      (name other : Text) (c : Container L) (found : List (Text × Container L))
      → Has other found
      → Has other (insert name c found)
  Has-insert name other c found (d, e) = elim (Bool-cases (text_eq name other)) [
    | inl same ↦ (c, lookup-insert name other c found ∙ rw same)
    | inr different ↦ (d, lookup-insert name other c found ∙ rw different e)
  ]

  Has-insert_self :
      (name : Text) (c : Container L) (found : List (Text × Container L))
      → Has name (insert name c found)
  Has-insert_self name c found = (c, lookup-insert name name c found ∙ rw (text_eq_refl name))

  -- What the loop keeps: the names that it remembers are environments.
  record IsScan (cs : List (Container L)) (s : Scan L) : Type 0 where
    known_default : (is_empty s.default_env ≡ true) ⊎ Has s.default_env s.found
    known_first :
        (i : ℕ)
        → s.first_rt ≡ some i
        → (c : Container L) × (get_elem? cs i ≡ some c) × Has (runtime_name c.env []) s.found

  scan_container-IsScan :
      (cs : List (Container L)) (i : ℕ) (c : Container L) (s : Scan L)
      → get_elem? cs i ≡ some c
      → IsScan cs s
      → IsScan cs (scan_container i c s)
  unfolding scan_container
  scan_container-IsScan cs i c s here h =
      let name = runtime_name c.env [] in
      let kept : Container L = record c { volume_mounts = remove_mount c.volume_mounts } in
      let self = Has-insert_self name kept s.found in
      elim (Bool-cases (is_empty name)) [
        | inl nameless ↦ rw nameless h
        | inr named ↦ rw named (record {
          known_default = elim (Bool-cases (text_eq name (codes "default"))) [
            | inl default ↦ rw default (inr self)
            | inr other ↦ rw other (elim h.known_default [
              | inl none_yet ↦ inl none_yet
              | inr has ↦ inr (Has-insert name s.default_env kept s.found has)
            ])
          ];
          known_first = λ j e. elim (index_cases s.first_rt i j e) [
            | inl at ↦ (c, subst (λ k. get_elem? cs k ≡ some c) at here, self)
            | inr earlier ↦
                let (d, there, has) = h.known_first j earlier in
                (d, there, Has-insert name (runtime_name d.env []) kept s.found has)
          ];
        })
      ]

  scan_containers-IsScan :
      (all : List (Container L)) (i : ℕ) (cs : List (Container L)) (s : Scan L)
      → ((k : ℕ) → get_elem? all (i + k) ≡ get_elem? cs k)
      → IsScan all s
      → IsScan all (scan_containers i cs s)
  unfolding scan_containers
  scan_containers-IsScan all i [] s suffix h = h
  scan_containers-IsScan all i (c ∷ cs) s suffix h =
      scan_containers-IsScan all (suc i) cs (scan_container i c s)
        (λ k. ap (get_elem? all) (omega arith) ∙ suffix (suc k))
        (scan_container-IsScan all i c s (ap (get_elem? all) (omega arith) ∙ suffix zero) h)

  abbrev unscanned : Scan L
  unscanned = record { first_rt = none; found = []; default_env = [] }

  scanned : (cs : List (Container L)) → IsScan cs (scan_containers zero cs unscanned)
  scanned cs =
      scan_containers-IsScan cs zero cs unscanned (λ k. ap (get_elem? cs) (omega arith))
        (record { known_default = inl refl; known_first = λ i e. cc e })

  -- A container has one name, whichever variable is read.
  abbrev pub NamesAgree : List (Container L) → Type 0
  NamesAgree = All (λ c. first_runtime_name c.env [] ≡ runtime_name c.env [])

  All-get_elem? :
      (cs : List (Container L)) (i : ℕ) (c : Container L)
      → NamesAgree cs
      → get_elem? cs i ≡ some c
      → first_runtime_name c.env [] ≡ runtime_name c.env []
  All-get_elem? [] i c h e = cc e
  All-get_elem? (d ∷ cs) zero c h e = ground (arith, h.0)
  All-get_elem? (d ∷ cs) (suc i) c h e = All-get_elem? cs i c h.1 e

  env_of-Has :
      (cs : List (Container L)) (s : Scan L) (first : Option ℕ) (env : List EnvVar)
      → s.first_rt ≡ first
      → IsScan cs s
      → NamesAgree cs
      → env_of cs first ≡ ok env
      → Has (first_runtime_name env []) s.found
  unfolding env_of
  env_of-Has cs s none env e h agree found = cc found
  env_of-Has cs s (some i) env e h agree found =
      let (c, there, has) = h.known_first i e in
      let same : c.env ≡ env = ok-injective (rw (there, env_of) at found) in
      subst (λ v. Has (first_runtime_name v []) s.found) same
        (subst (λ n. Has n s.found) (sym (All-get_elem? cs i c agree there)) has)

  default_of-Has :
      (cs : List (Container L)) (s : Scan L) (name : Text)
      → IsScan cs s
      → NamesAgree cs
      → default_of [] cs s ≡ ok name
      → Has name s.found
  unfolding default_of
  default_of-Has cs s name h agree found = elim (Bool-cases (is_empty s.default_env)) [
    | inl none_yet ↦
        let (env, first, named) = >>=-eq-ok (env_of cs s.first_rt) _ (rw none_yet at found) in
        subst (λ n. Has n s.found) (ok-injective named)
          (env_of-Has cs s s.first_rt env refl h agree first)
    | inr there ↦
        let same : s.default_env ≡ name = ok-injective (rw there at found) in
        subst (λ n. Has n s.found) same
          (elim h.known_default [ inl none_yet ↦ absurd (ground arith) | inr has ↦ has ])
  ]

  -- The runtimes that are found in a pod, without the variable DEFAULT_RUNTIME, have a default
  -- environment that is one of them, as long as no container has several variables RUNTIME_NAME that
  -- differ.
  pub from_pod-Has :
      {C : Type 0} (cs : List (Container L)) {rm : RuntimeManager L C}
      → NamesAgree cs
      → from_pod [] cs ≡ ok rm
      → Has rm.default_env rm.environments
  unfolding from_pod
  from_pod-Has {C} cs {rm} agree found =
      let s = scan_containers zero cs unscanned in
      let (name, default, rest) = >>=-eq-ok (default_of [] cs s) _ found in
      elim (Bool-cases (is_empty s.found)) [
        | inl empty ↦ absurd (ground arith)
        | inr some_found ↦
            subst (λ (r : RuntimeManager L C). Has r.default_env r.environments)
              (ok-injective (rw some_found at rest))
              (default_of-Has cs s name (scanned cs) agree default)
      ]

  nameless :
      (cs : List (Container L)) (i : ℕ) (s : Scan L)
      → All (λ c. runtime_name c.env [] ≡ []) cs
      → scan_containers i cs s ≡ s
  unfolding scan_containers scan_container
  nameless [] i s h = refl
  nameless (c ∷ cs) i s h = rw h.0 (nameless cs (suc i) s h.1)

  -- New panics for a pod none of whose containers has the name of a runtime, where the variable
  -- DEFAULT_RUNTIME is empty; the error for this case is not reached.
  pub from_pod-panicked :
      {C : Type 0} (cs : List (Container L))
      → All (λ c. runtime_name c.env [] ≡ []) cs
      → from_pod {C = C} [] cs ≡ panicked
  unfolding from_pod default_of env_of
  from_pod-panicked cs h = rw (nameless cs zero unscanned h) refl
