-- ===== src/Runtime/Manager/Answers.antt =====
-- The answers of the servers of programs: ExecuteProgram of pkg/runtimemanager/rm.go.
use natun.Prelude.{
  ℕ, ◌≡◌, refl, ap, sym, subst, some, Bool, true, false, List, Option, none, arith, if◌then◌else◌,
}
use natun.Prelude.Int.{pos, pos_part}
use natun.Prelude.Text.{Text, text_eq-eq}
use natun.Api.Errors.{Result, ok, err, panicked}
use natun.Api.Value.{AnyValue, Value}
use natun.Api.Descriptor.{is_empty}
use natun.Api.Keys.{Keys}
use natun.Builders.Programs.{ran}
use natun.Sdk.Wire.{Timestamps, WireValue}
use natun.Sdk.Convert.{from_value}
use natun.Runtime.Manager.{
  RuntimeServers, Managed, ExecuteRequest, ExecuteResponse, get_runtime, convert_row, row_of,
  response_time, answer, execute_with, execute_program, reply_of, execute_converted, execute_on,
}

module _ {T : Type 0} ⦃proto : Timestamps T⦄ where
  -- The time of a value: that of the response, if it has one that is a time, and else that of the call.
  abbrev pub IsTimed : (T → Bool) → Option T → ℕ → ℕ → Type 0
  IsTimed is_instant none ts t = t ≡ ts
  IsTimed is_instant (some stamp) ts t =
      (is_instant stamp ≡ true → t ≡ pos_part (proto.as_time stamp))
      × (is_instant stamp ≡ false → t ≡ ts)

  response_time-IsTimed :
      (is_instant : T → Bool) (o : Option T) (ts : ℕ)
      → IsTimed is_instant o ts (response_time is_instant o ts)
  unfolding response_time
  response_time-IsTimed is_instant none ts = refl
  response_time-IsTimed is_instant (some stamp) ts = (λ e. rw e refl, λ e. rw e refl)

module _ {F T : Type 0} ⦃proto : Timestamps T⦄ where
  -- A reply without an error is the result of a response to the request itself.
  abbrev pub Answered : (T → Bool) → Text → Keys → ℕ → ExecuteResponse F T → Value F → Keys → Type 0
  Answered is_instant uuid keys ts resp v given =
      (resp.uuid ≡ uuid)
      × (from_value resp.result ≡ ok v.value)
      × (v.fresh ≡ true)
      × IsTimed is_instant resp.timestamp ts v.timestamp
      × (given ≡ (if is_empty resp.keys then keys else resp.keys))

  answer-Answered :
      (is_instant : T → Bool) (uuid : Text) (keys : Keys) (ts : ℕ) (resp : ExecuteResponse F T)
      (v : Value F) (given : Keys)
      → answer is_instant uuid keys ts resp ≡ ran v given none
      → Answered is_instant uuid keys ts resp v given
  unfolding answer
  answer-Answered is_instant uuid keys ts resp v given e =
      let timed : v.timestamp ≡ response_time is_instant resp.timestamp ts =
        ground (arith, text_eq-eq resp.uuid uuid) in
      let (same, result, fresh, keyed) : (resp.uuid ≡ uuid)
          × (from_value resp.result ≡ ok v.value)
          × (v.fresh ≡ true)
          × (given ≡ (if is_empty resp.keys then keys else resp.keys)) =
        ground (arith, text_eq-eq resp.uuid uuid) in
      (
        same,
        result,
        fresh,
        subst (IsTimed is_instant resp.timestamp ts) (sym timed)
            (response_time-IsTimed is_instant resp.timestamp ts),
        keyed,
      )

  reply_of-Answered :
      (is_instant : T → Bool) (uuid : Text) (keys : Keys) (ts : ℕ)
      (r : Result (ExecuteResponse F T)) (v : Value F) (given : Keys)
      → reply_of is_instant uuid keys ts r ≡ ran v given none
      → (resp : ExecuteResponse F T) × (r ≡ ok resp) × Answered is_instant uuid keys ts resp v given
  unfolding reply_of
  reply_of-Answered is_instant uuid keys ts panicked v given e = cc e
  reply_of-Answered is_instant uuid keys ts (err x) v given e = cc e
  reply_of-Answered is_instant uuid keys ts (ok resp) v given e =
      (resp, refl, answer-Answered is_instant uuid keys ts resp v given e)

module _ {F T C W : Type 0} ⦃proto : Timestamps T⦄ (servers : RuntimeServers F T C W) where
  -- The server `c` answered a request for the feature with the keys.
  abbrev pub IsServed : Text → Keys → ℕ → C → Value F → Keys → Type 0
  IsServed fqn keys ts c v given =
      (request : ExecuteRequest F T) × (w : W) × (resp : ExecuteResponse F T) × (request.fqn ≡ fqn)
      × (request.keys ≡ keys)
      × ((servers.execute c request w).0 ≡ ok resp)
      × Answered servers.is_instant request.uuid keys ts resp v given

module _ {F T L C W : Type 0} ⦃proto : Timestamps T⦄ (servers : RuntimeServers F T C W) where
  execute_with-IsServed :
      (c : C) (fqn : Text) (keys : Keys) (row : List (Text × Option (WireValue F T))) (ts : ℕ)
      (dry_run : Bool) (m m' : Managed L C W) (v : Value F) (given : Keys)
      → execute_with servers c fqn keys row ts dry_run m ≡ (ran v given none, m')
      → IsServed servers fqn keys ts c v given
  unfolding execute_with
  execute_with-IsServed c fqn keys row ts dry_run m m' v given e =
      let uuid = (servers.new_uuid m.outside).0 in
      let w = (servers.new_uuid m.outside).1 in
      let request : ExecuteRequest F T = record {
        uuid = uuid;
        fqn = fqn;
        keys = keys;
        row = row;
        timestamp = proto.new_timestamp (pos ts);
        dry_run = dry_run;
      } in
      let (resp, came, answered) =
        reply_of-Answered servers.is_instant uuid keys ts (servers.execute c request w).0 v given
          (ap (λ p. p.0) e) in
      (request, w, resp, refl, refl, came, answered)

  execute_converted-IsServed :
      (c : C) (fqn : Text) (keys : Keys) (row : Result (List (Text × Option (WireValue F T))))
      (ts : ℕ) (dry_run : Bool) (m m' : Managed L C W) (v : Value F) (given : Keys)
      → execute_converted servers c fqn keys row ts dry_run m ≡ (ran v given none, m')
      → IsServed servers fqn keys ts c v given
  unfolding execute_converted
  execute_converted-IsServed c fqn keys panicked ts dry_run m m' v given e = cc e
  execute_converted-IsServed c fqn keys (err x) ts dry_run m m' v given e = cc e
  execute_converted-IsServed c fqn keys (ok row) ts dry_run m m' v given e =
      execute_with-IsServed c fqn keys row ts dry_run m m' v given e

  execute_on-IsServed :
      (fqn : Text) (keys : Keys) (row : Option (List (Text × AnyValue F))) (ts : ℕ) (dry_run : Bool)
      (r : Result C × Managed L C W) (m' : Managed L C W) (v : Value F) (given : Keys)
      → execute_on servers fqn keys row ts dry_run r ≡ (ran v given none, m')
      → (c : C) × (r.0 ≡ ok c) × IsServed servers fqn keys ts c v given
  unfolding execute_on
  execute_on-IsServed fqn keys row ts dry_run (panicked, m) m' v given e = cc e
  execute_on-IsServed fqn keys row ts dry_run (err x, m) m' v given e = cc e
  execute_on-IsServed fqn keys row ts dry_run (ok c, m) m' v given e = (
    c,
    refl,
    execute_converted-IsServed c fqn keys (convert_row (row_of row)) ts dry_run m m' v given e,
  )

  -- Where ExecuteProgram returns without an error, the server behind the connection that getRuntime gave for
  -- the environment answered a request for the feature with the keys, its response has the uuid of this
  -- request, the value is the result of the response and fresh, its time and its keys are those of the response, or the
  -- ones of the call where it has none.
  pub execute_program-IsServed :
      (env fqn : Text) (keys : Keys) (row : Option (List (Text × AnyValue F))) (ts : ℕ)
      (dry_run : Bool) (m m' : Managed L C W) (v : Value F) (given : Keys)
      → execute_program servers env fqn keys row ts dry_run m ≡ (ran v given none, m')
      → (c : C) × ((get_runtime servers env m).0 ≡ ok c) × IsServed servers fqn keys ts c v given
  unfolding execute_program
  execute_program-IsServed env fqn keys row ts dry_run m m' v given e =
      execute_on-IsServed fqn keys row ts dry_run (get_runtime servers env m) m' v given e
