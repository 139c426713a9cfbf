-- ===== src/ModelServer.antt =====
-- The images of the servers of models on SageMaker:
-- internal/plugins/modelservers/sagemaker-ack/imageUriConfig.go. The files of the frameworks are embedded, and
-- parsed by encoding/json: their content is a parameter.
pub mod Uris
pub mod Config
use natun.Prelude.{
  Bool, true, false, not, ◌&&◌, ◌||◌, List, [], ◌∷◌, ◌++◌, Option, none, some, lookup, ◌==◌,
  if◌then◌else◌,
}
use natun.Prelude.Text.{Text, codes, text_eq, has_prefix}
use natun.Api.Errors.{
  Result, ok, err, ◌>>=◌, no_framework, no_inference, no_cpu, no_versions, version_unsupported,
  no_registry, no_repository, no_container_version, no_base_version,
}
use natun.Api.Descriptor.{is_empty}

-- The fields of a Version but its aliases and nested versions; `none` is a slice or map that is nil.
pub record VersionInfo : Type 0 where
  pub processors : Option (List Text)
  pub py_versions : List Text
  pub registries : Option (List (Text × Text))
  pub container_version : Option (List (Text × Text))
  pub repository : Text
  pub tag_prefix : Text

-- A Version of a scope; Image goes no deeper than the versions that it holds.
pub record Version : Type 0 where
  pub info : VersionInfo
  pub version_aliases : List (Text × Text)
  pub nested : Option (List (Text × VersionInfo))

pub record Scope : Type 0 where
  pub processors : Option (List Text)
  pub version_aliases : List (Text × Text)
  pub versions : Option (List (Text × Version))

-- FrameworkConfig, of which only the inference is used.
pub record FrameworkConfig : Type 0 where
  pub inference : Option Scope

-- strings.SplitN(ver, "+", 2), with an empty second part where there is none
unfoldable pub split_plus : Text → Text × Text
split_plus [] = ([], [])
split_plus (c ∷ s) = let rest = split_plus s in if c == b'+' then ([], s) else (c ∷ rest.0, rest.1)

-- The loop that sets `cpu`
unfoldable pub lists_cpu : List Text → Bool
lists_cpu [] = false
lists_cpu (p ∷ ps) = text_eq p (codes "cpu") || lists_cpu ps

-- Processors that are nil do not exclude it.
unfoldable pub supports_cpu : Option (List Text) → Bool
supports_cpu none = true
supports_cpu (some ps) = lists_cpu ps

-- The version that an alias stands for
unfoldable pub resolve : List (Text × Text) → Text → Text
resolve aliases ver = elim (lookup ver aliases) [ none ↦ ver | some v ↦ v ]

-- The loop over the versions of Python: the last one of Python 3 counts.
unfoldable pub python_version : List Text → Text → Text
python_version [] ver = ver
python_version (p ∷ ps) ver = python_version ps (if has_prefix p (codes "py3") then p else ver)

-- m[key] of a map that may be nil
unfoldable pub entry_of {ℓ} : {E : Type ℓ} → Option (List (Text × E)) → Text → Option E
entry_of none key = none
entry_of (some m) key = lookup key m

-- strings.TrimPrefix
unfoldable pub drop_codes : Text → Text → Text
drop_codes [] s = s
drop_codes (c ∷ p) [] = []
drop_codes (c ∷ p) (d ∷ s) = drop_codes p s

unfoldable pub trim_prefix : Text → Text → Text
unfolding drop_codes
trim_prefix s p = if has_prefix s p then drop_codes p s else s

-- The tag with the version of the container
unfoldable pub container_tag : VersionInfo → Text → Result Text
container_tag v tag = elim v.container_version [
  | none ↦ ok tag
  | some cvs ↦ elim (lookup (codes "cpu") cvs) [
    | none ↦ err no_container_version
    | some cv ↦ ok (tag ++ codes "-" ++ cv)
  ]
]

-- The tag of a repository of Hugging Face
unfoldable pub framework_tag : VersionInfo → Text → Text → Text → Text → Result Text
framework_tag v ver base_ver pyver tag =
    if has_prefix v.repository (codes "huggingface-")
    then (if is_empty base_ver
        then err no_base_version
        else ok (
            trim_prefix (trim_prefix base_ver (codes "pytorch")) (codes "tensorflow")
            ++ codes "-transformers"
            ++ ver
            ++ codes "-cpu-"
            ++ pyver))
    else ok tag

unfoldable pub prefix_tag : VersionInfo → Text → Text
prefix_tag v tag = if is_empty v.tag_prefix then tag else v.tag_prefix ++ codes "-" ++ tag

-- The text that Image returns
unfoldable pub image_uri_text : Text → Text → Text → Text → Text
image_uri_text registry region repository tag =
    registry
    ++ codes ".dkr.ecr."
    ++ region
    ++ codes ".amazonaws.com/"
    ++ repository
    ++ codes ":"
    ++ tag

-- The tag of an image
unfoldable pub tag_of : VersionInfo → Text → Text → Result Text
tag_of v ver base_ver =
    let pyver = python_version v.py_versions (codes "py3") in
    container_tag v (ver ++ codes "-cpu-" ++ pyver) >>= λ tag.
    framework_tag v ver base_ver pyver tag >>= λ tag'. ok (prefix_tag v tag')

-- registry, ok := v.Registries[region]
unfoldable pub registry_of : VersionInfo → Text → Result Text
registry_of v region = elim (entry_of v.registries region) [
  | none ↦ err no_registry
  | some r ↦ ok r
]

-- The rest of Image, for the version that was chosen
unfoldable pub version_image : VersionInfo → Text → Text → Text → Result Text
version_image v region ver base_ver =
    if not (supports_cpu v.processors)
    then err no_cpu
    else (registry_of v region >>= λ registry.
        if is_empty v.repository
        then err no_repository
        else (tag_of v ver base_ver >>= λ tag.
            ok (image_uri_text registry region v.repository tag)))

-- The version that is chosen: a nested one where a base version is given
unfoldable pub nested_version : Version → Text → Result (VersionInfo × Text)
nested_version v base_ver = if is_empty base_ver then ok (v.info, base_ver) else elim v.nested [
  | none ↦ err no_versions
  | some versions ↦
      let base = resolve v.version_aliases base_ver in
      elim (lookup base versions) [ none ↦ err version_unsupported | some info ↦ ok (info, base) ]
]

-- v, ok := s.Versions[ver]
unfoldable pub scope_version : Scope → Text → Result Version
scope_version s ver = elim s.versions [
  | none ↦ err no_versions
  | some versions ↦ elim (lookup ver versions) [ none ↦ err version_unsupported | some v ↦ ok v ]
]

-- Scope.Image
unfoldable pub scope_image : Scope → Text → Text → Result Text
scope_image s region asked =
    let (ver, base_ver) = split_plus asked in
    if not (supports_cpu s.processors) then err no_cpu else (do
      v ← scope_version s (resolve s.version_aliases ver)
      (info, base) ← nested_version v base_ver
      version_image info region (resolve s.version_aliases ver) base)

-- ImageURI, with FrameworkConfig.Image
unfoldable pub image_uri : List (Text × FrameworkConfig) → Text → Text → Text → Result Text
image_uri configs framework region ver = elim (lookup framework configs) [
  | none ↦ err no_framework
  | some cfg ↦ elim cfg.inference [ none ↦ err no_inference | some s ↦ scope_image s region ver ]
]
