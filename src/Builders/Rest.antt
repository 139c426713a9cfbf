-- ===== src/Builders/Rest.antt =====
-- Features that are computed from the response of an HTTP server: internal/plugins/builders/rest/rest.go.
-- The HTTP client, encoding/json and net/url are parameters.
use natun.Prelude.{
  ℕ, zero, suc, ◌-◌, true, not, ◌&&◌, List, [], ◌∷◌, ◌++◌, length, Option, none, some, lookup,
  if◌then◌else◌,
}
use natun.Prelude.Text.{Text, codes, has_prefix}
use natun.Api.Errors.{
  Result, ok, err, panicked, ◌>>=◌, data_source_required, aggregation_unsupported,
}
use natun.Api.Value.{Value}
use natun.Api.Descriptor.{FeatureDescriptor, Manifest, is_empty, valid_window}
use natun.Api.Keys.{Keys}
use natun.Engine.Pipeline.{Context, Reply, reply, crash, Handler, Middleware}
use natun.Engine.Priority.{FeaturePipeliner}
use natun.Engine.Registry.{DataSource}
use natun.Builders.Programs.{Runtime, is_cached, after_program, add_get_middleware}
use natun.Builders.Streaming.{source_of_kind}

-- config, with headers of type H
pub record RestConfig (H : Type 0) : Type 0 where
  pub url : Text
  pub method : Text
  pub body : Text
  pub headers : H

-- What the middleware calls: keys.String(), http.NewRequest as far as it fails, the round trip with the read
-- of the body (at a timeout that the applier sets), and the decoding of the body.
pub record HttpOps (W H P : Type 0) : Type 0 where
  pub show_keys : Keys → Text
  pub check_request : Text → Text → Result (Unit {0})
  pub exchange : ℕ → Text → Text → Option Text → H → W → Result Text × W
  pub decode_json : Text → Result P

-- The rest of a text behind some codes that were replaced, and the loop of strings.ReplaceAll.
unfoldable pub replace_from : ℕ → Text → Text → Text → Text
replace_from skip old new [] = []
replace_from (suc skip) old new (c ∷ s) = replace_from skip old new s
replace_from zero old new (c ∷ s) =
    let replaced = replace_from (length old - 1) old new s in
    let kept = replace_from zero old new s in
    if has_prefix (c ∷ s) old then new ++ replaced else c ∷ kept

-- strings.ReplaceAll for an `old` that is not empty
unfoldable pub replace_all : Text → Text → Text → Text
replace_all s old new = replace_from zero old new s

-- keys[k]
unfoldable pub key_value : Text → Keys → Text
key_value k keys = elim (lookup k keys) [ none ↦ [] | some v ↦ v ]

-- `for _, k := range keys { u = strings.ReplaceAll(u, "{key:"+k+"}", keys[k]) }`: k is a value of the map.
unfoldable pub replace_keys : Keys → Keys → Text → Text
replace_keys keys [] u = u
replace_keys keys ((name, k) ∷ rest) u =
    replace_keys keys rest (replace_all u (codes "{key:" ++ k ++ codes "}") (key_value k keys))

module _ {F W H P : Type 0} (http : HttpOps W H P) (runtime : Runtime F W P) (timeout : ℕ)
    (cfg : RestConfig H) where
  -- The URL of the request.
  unfoldable pub request_url : Keys → Text
  request_url keys =
      replace_keys keys keys (replace_all cfg.url (codes "{keys}") (http.show_keys keys))

  -- What follows the response; the program gets the payload.
  unfoldable pub after_response :
      Handler F W → Context → FeatureDescriptor → Keys → Value F → Result Text × W → Reply F W
  after_response next ctx fd keys val (r, w) = elim (r >>= http.decode_json) [
    | panicked ↦ crash w
    | err e ↦ reply val (some e) w
    | ok payload ↦
        after_program next ctx fd
          (runtime.execute_program fd.runtime_env fd.fqn keys (some payload) val.timestamp true w)
  ]

  -- The getMiddleware of rest.go
  unfoldable pub rest_middleware : Middleware F W
  rest_middleware next ctx fd keys val w =
      if is_cached ctx val && not (valid_window fd)
      then next ctx fd keys val w
      else (let u = request_url keys in
          let body = if is_empty cfg.body then none else some cfg.body in
          elim (http.check_request cfg.method u) [
            | panicked ↦ crash w
            | err e ↦ reply val (some e) w
            | ok _ ↦
                after_response next ctx fd keys val
                  (http.exchange timeout cfg.method u body cfg.headers w)
          ])

-- A timeout of 0 becomes 5 seconds.
unfoldable pub or_five_seconds : ℕ → ℕ
or_five_seconds zero = 5_000_000_000
or_five_seconds (suc n) = suc n

-- FeatureApply; the configuration of a data source and the 0.8 of the feature's timeout are parameters.
unfoldable pub rest_apply :
    {F W H P C : Type 0}
    → HttpOps W H P
    → Runtime F W P
    → (C → Result (RestConfig H))
    → (ℕ → ℕ)
    → FeatureDescriptor
    → Manifest
    → List (Text × DataSource C)
    → FeaturePipeliner (Middleware F W)
    → Result (FeaturePipeliner (Middleware F W))
rest_apply http runtime unmarshal four_fifths fd m sources f =
    if is_empty fd.data_source
    then err data_source_required
    else if not (is_empty fd.aggr)
    then err aggregation_unsupported
    else (do
      src ← source_of_kind (codes "rest") fd sources
      cfg ← unmarshal src.config
      ok (
          add_get_middleware fd
            (rest_middleware http runtime (or_five_seconds (four_fifths fd.timeout)) cfg) f))
