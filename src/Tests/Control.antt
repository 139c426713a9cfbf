-- ===== src/Tests/Control.antt =====
-- The controllers, the notifications and the images of servers at concrete inputs.
use natun.Prelude.{
  ℕ, ◌≡◌, ◌≢◌, ◌∙◌, refl, sym, ap, Bool, true, false, List, [], ◌∷◌, ◌++◌, none, some, lookup,
  if◌then◌else◌, Bool-cases, inl, inr,
}
use natun.Prelude.Int.{pos}
use natun.Prelude.Text.{Text, codes, text_eq, text_eq_refl, text_eq-eq}
use natun.Api.Errors.{Result, ok, ok-injective}
use natun.Api.Primitive
use natun.Api.Descriptor.{FeatureDescriptor, Manifest, feature_fqn}
use natun.Engine.Priority.{FeaturePipeliner}
use natun.Engine.Registry.{Registry, Plugins, DataSource, feature_with_engine}
use natun.Operator.Controllers.{got_object}
use natun.Controllers.{engine_manager, reconcile_feature}
use natun.Controllers.Synced.{KeepsDescriptor, answer_of, feature_of, reconcile_feature-lookup}
use natun.Redis.Notifier.{
  NotificationJson, PubSub, Subscription, notification_channel, write_kind, notify, read_payloads,
  Reads, notify-Reads,
}
use natun.ModelServer.{
  VersionInfo, Version, Scope, supports_cpu, resolve, split_plus, entry_of, scope_image,
}
use natun.ModelServer.Uris.{StandsFor, Holds, IsImage, scope_image-IsImage}
use natun.Tests.Data.{Wares, price_manifest, price_feature}

-- A builder that gives the feature back as it is.
abbrev plain :
    FeatureDescriptor
    → Manifest
    → List (Text × DataSource ℕ)
    → FeaturePipeliner Wares
    → Result (FeaturePipeliner Wares)
plain fd m sources new = ok new

abbrev plain_plugins : Plugins Wares ℕ
plain_plugins = record {
  load_program = λ env fqn code packages. ok Primitive.integer;
  applier = λ builder. some plain;
}

some_apply : {A : Type 0} (x y : A) → some x ≡ some y → x ≡ y
some_apply x y e = cc e

plain_keeps : KeepsDescriptor plain_plugins
plain_keeps builder fd m sources new built apply found applied =
    ap (λ (f : FeaturePipeliner Wares). f.descriptor)
      (sym (
        ok-injective (
          ap
            (λ (g : FeatureDescriptor
                → Manifest
                → List (Text × DataSource ℕ)
                → FeaturePipeliner Wares
                → Result (FeaturePipeliner Wares)).
              g fd m sources new)
            (some_apply plain apply found)
          ∙ applied)))

-- The engine has an earlier version of the feature.
abbrev an_engine : Registry Wares ℕ
an_engine = record {
  features = (feature_fqn price_manifest, price_feature) ∷ [];
  data_sources = [];
  feature_gauge = pos 1;
}

reconcile_feature_example :
    let a =
      reconcile_feature
        (engine_manager plain_plugins)
        true
        (got_object (record { manifest = price_manifest; deleting = false }))
        an_engine in
    let built = feature_with_engine plain_plugins price_manifest an_engine in
    (a.0 ≡ answer_of built)
    × ((other : Text)
        → lookup other a.1.features ≡ (
            if text_eq (feature_fqn price_manifest) other
            then feature_of built
            else lookup other an_engine.features))
reconcile_feature_example =
    reconcile_feature-lookup plain_plugins price_manifest true an_engine plain_keeps refl

-- A log of what is published, each message of which has one subscriber.
abbrev Log : Type 0
Log = List (Text × Text)

abbrev log_channels : PubSub Log
log_channels = record { publish = λ channel msg s. (ok 1, s ++ ((channel, msg) ∷ [])) }

abbrev received_from : Text → Log → List Text
received_from channel [] = []
received_from channel (m ∷ s) =
    let rest = received_from channel s in if text_eq channel m.0 then m.1 ∷ rest else rest

received_here :
    (channel msg : Text) (s : Log)
    → received_from channel (s ++ ((channel, msg) ∷ [])) ≡ received_from channel s ++ (msg ∷ [])
received_here channel msg [] = rw (text_eq_refl channel) refl
received_here channel msg (m ∷ s) =
    rw (received_here channel msg s) (elim (Bool-cases (text_eq channel m.0)) [
      | inl here ↦ rw here refl
      | inr elsewhere ↦ rw elsewhere refl
    ])

received_elsewhere :
    (channel other msg : Text) (s : Log)
    → channel ≢ other
    → received_from other (s ++ ((channel, msg) ∷ [])) ≡ received_from other s
received_elsewhere channel other msg [] differ = elim (Bool-cases (text_eq other channel)) [
  | inl same ↦ absurd (differ (sym (text_eq-eq other channel same)))
  | inr different ↦ rw different refl
]
received_elsewhere channel other msg (m ∷ s) differ =
    rw (received_elsewhere channel other msg s differ) refl

abbrev always_there : Text → Log → Bool
always_there channel s = true

log_laws : Subscription log_channels always_there received_from
log_laws = record {
  publish_delivers = λ channel msg n s there delivered. received_here channel msg s;
  publish_elsewhere = λ channel other msg s differ. received_elsewhere channel other msg s differ;
}

-- What is read is not what was sent: every text comes back with a mark.
abbrev marking_json : NotificationJson Text
marking_json = record { marshal = λ n. ok n; unmarshal = λ msg. ok (b'~' ∷ msg) }

abbrev one_sent : Log
one_sent = (codes "_raptor:notification:write", codes "first") ∷ []

read_first :
    read_payloads marking_json (received_from (notification_channel write_kind) one_sent)
    ≡ ok (codes "~first" ∷ [])
unfolding read_payloads notification_channel
read_first = refl

sent_second :
    notify marking_json log_channels write_kind (codes "second") one_sent
    ≡ (ok tt, one_sent ++ ((codes "_raptor:notification:write", codes "second") ∷ []))
unfolding notify natun.Redis.Notifier.publish_marshaled natun.Redis.Notifier.check_delivered
    notification_channel
sent_second = refl

notify_example :
    Reads marking_json log_channels always_there received_from log_laws write_kind
      (codes "~second")
      (codes "~first" ∷ [])
      one_sent
      (one_sent ++ ((codes "_raptor:notification:write", codes "second") ∷ []))
notify_example =
    notify-Reads marking_json log_channels always_there received_from log_laws write_kind
      (codes "second") (codes "~second") (codes "~first" ∷ []) one_sent
      (one_sent ++ ((codes "_raptor:notification:write", codes "second") ∷ []))
      (λ msg e. ap (λ (t : Text). ok (b'~' ∷ t)) (sym (ok-injective e))) refl read_first sent_second

-- A version with a repository and a registry in one region.
abbrev latest : VersionInfo
latest = record {
  processors = some (codes "cpu" ∷ codes "gpu" ∷ []);
  py_versions = codes "py2" ∷ codes "py38" ∷ [];
  registries = some ((codes "eu-west-1", codes "763104351884") ∷ []);
  container_version = none;
  repository = codes "pytorch-inference";
  tag_prefix = [];
}

abbrev pytorch : Scope
pytorch = record {
  processors = none;
  version_aliases = (codes "1.10", codes "1.10.2") ∷ [];
  versions =
      some ((codes "1.10.2", record { info = latest; version_aliases = []; nested = none }) ∷ []);
}

pytorch_uri :
    scope_image pytorch (codes "eu-west-1") (codes "1.10")
    ≡ ok (codes "763104351884.dkr.ecr.eu-west-1.amazonaws.com/pytorch-inference:1.10.2-cpu-py38")
unfolding scope_image supports_cpu natun.ModelServer.scope_version lookup resolve split_plus
    natun.ModelServer.nested_version natun.ModelServer.version_image natun.ModelServer.lists_cpu
    natun.ModelServer.registry_of entry_of natun.ModelServer.tag_of natun.ModelServer.container_tag
    natun.ModelServer.framework_tag natun.ModelServer.image_uri_text natun.ModelServer.prefix_tag
    natun.ModelServer.python_version
pytorch_uri = refl

scope_image_example :
    (supports_cpu pytorch.processors ≡ true)
    × ((ver : Text) × (v : Version) × (info : VersionInfo) × (base : Text) × StandsFor
          pytorch.version_aliases
          (split_plus (codes "1.10")).0
          ver
        × (entry_of pytorch.versions ver ≡ some v)
        × Holds v (split_plus (codes "1.10")).1 info base
        × IsImage info (codes "eu-west-1") ver base (
            codes "763104351884.dkr.ecr.eu-west-1.amazonaws.com/pytorch-inference:1.10.2-cpu-py38"))
scope_image_example =
    scope_image-IsImage pytorch (codes "eu-west-1") (codes "1.10")
      (codes "763104351884.dkr.ecr.eu-west-1.amazonaws.com/pytorch-inference:1.10.2-cpu-py38")
      pytorch_uri
