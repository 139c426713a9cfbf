-- ===== src/Builders/Streaming.antt =====
-- Features that are fed by a stream: FeatureApply of internal/plugins/builders/streaming/streaming.go.
use natun.Prelude.{List, none, some, lookup, if◌then◌else◌}
use natun.Prelude.Text.{Text, codes, text_eq}
use natun.Api.Errors.{
  Result, ok, err, ◌>>=◌, data_source_required, data_source_not_found, wrong_kind,
}
use natun.Api.Descriptor.{FeatureDescriptor, Manifest, is_empty}
use natun.Engine.Priority.{FeaturePipeliner}
use natun.Engine.Registry.{DataSource}

-- engine.GetDataSource over the data sources of the engine.
unfoldable pub data_source_of :
    {C : Type 0} → Text → List (Text × DataSource C) → Result (DataSource C)
data_source_of fqn sources = elim (lookup fqn sources) [
  | none ↦ err data_source_not_found
  | some d ↦ ok d
]

-- The data source of a feature, which has to be of a kind.
unfoldable pub source_of_kind :
    {C : Type 0} → Text → FeatureDescriptor → List (Text × DataSource C) → Result (DataSource C)
source_of_kind kind fd sources = do
  src ← data_source_of fd.data_source sources
  if text_eq src.kind kind then ok src else err wrong_kind

-- FeatureApply
unfoldable pub streaming_apply :
    {M C : Type 0}
    → FeatureDescriptor
    → Manifest
    → List (Text × DataSource C)
    → FeaturePipeliner M
    → Result (FeaturePipeliner M)
streaming_apply fd m sources f =
    if is_empty fd.data_source
    then err data_source_required
    else (source_of_kind (codes "streaming") fd sources >>= λ src. ok f)
