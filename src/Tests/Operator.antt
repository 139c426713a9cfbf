-- ===== src/Tests/Operator.antt =====
-- The theorems about the operator (internal/operator) at concrete inputs.
use natun.Prelude.{
  ◌≡◌, refl, sym, ap, Bool, true, false, Option, List, [], ◌∷◌, some, none, lookup, if◌then◌else◌,
}
use natun.Prelude.Int.{pos}
use natun.Prelude.Text.{Text, codes}
use natun.Api.Errors.{Result, ok, err, external, feature_already_exists}
use natun.Api.Primitive
use natun.Api.Descriptor.{FeatureDescriptor, Manifest, ResourceReference, descriptor_from_manifest}
use natun.Engine.Priority.{FeaturePipeliner}
use natun.Engine.Registry.{
  DataSource, Registry, Plugins, feature_with_engine, has_feature, bind_feature,
}
use natun.Builders.Streaming.{data_source_of, source_of_kind, streaming_apply}
use natun.Operator.Webhook.{ClusterOps, found, missing, validate, dummy_source}
use natun.Operator.Webhook.Admission.{AsksOwnSource, validate-bind_feature}
use natun.Operator.Controllers.{
  SourceObject, ObjectClient, got_object, other_error, finished, source_reference, lists_name,
  add_to_source, reconcile_source,
}
use natun.Operator.Controllers.Deletion.{KeepsStatus, add_to_source-reconcile_source}
use natun.Tests.Data.{Wares, price_manifest}

abbrev events : DataSource (Unit {0})
events = record { fqn = codes "events.shop"; kind = codes "streaming"; config = tt }

-- One builder, and programs of whole numbers.
abbrev one_builder : Plugins Wares (Unit {0})
one_builder = record {
  load_program = λ env fqn code packages. ok Primitive.integer;
  applier = λ kind. some streaming_apply;
}

abbrev cluster : ClusterOps (DataSource (Unit {0})) (Unit {0})
cluster = record {
  get_data_source = λ r. found events;
  get_model = λ namespace name. missing;
  data_source_from_manifest = λ d. ok d;
  same_spec = λ old m. true;
}

streaming_apply-own :
    (fd : FeatureDescriptor) (m : Manifest) (sources sources' : List (Text × DataSource (Unit {0})))
    (f : FeaturePipeliner Wares)
    → lookup fd.data_source sources ≡ lookup fd.data_source sources'
    → streaming_apply fd m sources f ≡ streaming_apply fd m sources' f
unfolding streaming_apply source_of_kind data_source_of
streaming_apply-own fd m sources sources' f h = rw (h, data_source_of) refl

one_builder-AsksOwnSource : AsksOwnSource one_builder
one_builder-AsksOwnSource kind apply e fd m sources sources' f h =
    let same : streaming_apply ≡ apply = cc e in
    rw (← same) (streaming_apply-own fd m sources sources' f h)

abbrev streamed : Manifest
streamed = record price_manifest {
  data_source = some (record { name = codes "events"; namespace = codes "shop" });
  kind = codes "streaming";
}

abbrev descriptor_of : Result FeatureDescriptor → FeatureDescriptor
descriptor_of (ok fd) = fd
descriptor_of _ = natun.Tests.Data.price

abbrev streamed_descriptor : FeatureDescriptor
streamed_descriptor = descriptor_of (descriptor_from_manifest streamed).0

streamed_parsed : (descriptor_from_manifest streamed).0 ≡ ok streamed_descriptor
unfolding descriptor_from_manifest Primitive.primitive_eq Primitive.string_to_primitive_type
    natun.Api.Descriptor.descriptor_with_aggr natun.Api.Aggr.strings_to_aggr_fns
    natun.Api.Aggr.aggr_eq natun.Api.Aggr.string_to_aggr_fn natun.Api.Aggr.add_aggr
    natun.Api.Descriptor.is_numeric natun.Api.Descriptor.check_window
    natun.Api.Descriptor.fill_descriptor natun.Api.Descriptor.valid_window
    natun.Api.Descriptor.set_granularity
streamed_parsed = refl

abbrev engine : Registry Wares (Unit {0})
engine = record {
  features = [];
  data_sources = (codes "events.shop", events) ∷ [];
  feature_gauge = pos 0;
}

valid : validate one_builder cluster tt (some none) streamed ≡ ok tt
unfolding validate dummy_source natun.Operator.Webhook.is_live
    natun.Operator.Webhook.fetch_data_source descriptor_from_manifest Primitive.primitive_eq
    Primitive.string_to_primitive_type natun.Api.Descriptor.descriptor_with_aggr
    natun.Api.Aggr.strings_to_aggr_fns natun.Api.Aggr.aggr_eq natun.Api.Aggr.string_to_aggr_fn
    natun.Api.Aggr.add_aggr natun.Api.Descriptor.is_numeric natun.Api.Descriptor.check_window
    natun.Api.Descriptor.fill_descriptor natun.Api.Descriptor.valid_window
    natun.Api.Descriptor.set_granularity feature_with_engine natun.Engine.Registry.check_data_source
    natun.Api.Descriptor.reference_fqn natun.Engine.Registry.get_data_source lookup
    natun.Operator.Webhook.dummy_engine natun.Engine.Registry.check_program
    natun.Engine.Registry.apply_builder streaming_apply source_of_kind data_source_of
valid = refl

events_read : dummy_source one_builder cluster tt (some none) streamed ≡ ok events
unfolding dummy_source natun.Operator.Webhook.is_live natun.Operator.Webhook.fetch_data_source
events_read = refl

events_there : lookup streamed_descriptor.data_source engine.data_sources ≡ some events
unfolding lookup descriptor_from_manifest Primitive.primitive_eq Primitive.string_to_primitive_type
    natun.Api.Descriptor.descriptor_with_aggr natun.Api.Aggr.strings_to_aggr_fns
    natun.Api.Aggr.aggr_eq natun.Api.Aggr.string_to_aggr_fn natun.Api.Aggr.add_aggr
    natun.Api.Descriptor.is_numeric natun.Api.Descriptor.check_window
    natun.Api.Descriptor.fill_descriptor natun.Api.Descriptor.valid_window
    natun.Api.Descriptor.set_granularity natun.Api.Descriptor.reference_fqn
events_there = refl

admission_example :
    (f : FeaturePipeliner Wares) × (feature_with_engine one_builder streamed engine ≡ ok f)
    × ((bind_feature one_builder streamed engine).0
        ≡ (if has_feature f.descriptor.fqn engine then err feature_already_exists else ok tt))
admission_example =
    validate-bind_feature one_builder one_builder-AsksOwnSource cluster tt (some none) streamed
      streamed_descriptor events engine valid streamed_parsed events_read events_there

-- A cluster of one data source.
abbrev one_source : ObjectClient SourceObject SourceObject
one_source = record {
  get = λ name w. got_object w;
  update = λ name o w. (none, o);
  update_status = λ name o w. (none, o);
}

one_source-KeepsStatus : KeepsStatus one_source
one_source-KeepsStatus name o w w' h = ap (λ p. got_object p.1) (sym h)

abbrev empty_source : SourceObject
empty_source = record {
  deleting = false;
  finalizer = true;
  kind = codes "streaming";
  features = [];
}

abbrev events_reference : ResourceReference
events_reference = record { name = codes "events"; namespace = codes "shop" }

abbrev no_reconciler : Text → Option (SourceObject → SourceObject → Result Bool × SourceObject)
no_reconciler kind = none

abbrev listed : SourceObject
listed = (add_to_source one_source streamed empty_source).1

added_ok : add_to_source one_source streamed empty_source ≡ (none, listed)
unfolding add_to_source lists_name
added_ok = refl

deletion_example :
    (src : SourceObject) × (one_source.get (source_reference streamed events_reference) listed
      ≡ got_object src)
    × (lists_name streamed.name src.features ≡ true)
    × (reconcile_source one_source no_reconciler external
          (source_reference streamed events_reference)
          (record src { deleting = true; finalizer = true })
          listed
        ≡ (ok (finished (some (other_error external))), listed))
deletion_example =
    add_to_source-reconcile_source one_source one_source-KeepsStatus no_reconciler external streamed
      events_reference empty_source listed refl added_ok
