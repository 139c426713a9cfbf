-- ===== src/ModelServer/Uris.antt =====
-- What an image of a framework is made of: Scope.Image of
-- internal/plugins/modelservers/sagemaker-ack/imageUriConfig.go.
use natun.Prelude.{
  ◌≡◌, refl, sym, ap, subst, ◌∷◌, [], ◌++◌, true, false, List, Option, none, some, arith, lookup,
  inl, inr, Bool-cases, Option-cases,
}
use natun.Prelude.Text.{Text, codes, has_prefix}
use natun.Api.Errors.{ok, >>=-eq-ok, ok-injective}
use natun.Api.Descriptor.{is_empty}
use natun.ModelServer.{
  python_version, trim_prefix, container_tag, framework_tag, prefix_tag, VersionInfo, Version,
  Scope, split_plus, supports_cpu, resolve, entry_of, image_uri_text, tag_of, registry_of,
  version_image, nested_version, scope_version, scope_image,
}

-- What a name stands for under some aliases.
abbrev pub StandsFor : List (Text × Text) → Text → Text → Type 0
StandsFor aliases asked name =
    (lookup asked aliases ≡ none → name ≡ asked)
    × ((v : Text) → lookup asked aliases ≡ some v → name ≡ v)

resolve-StandsFor :
    (aliases : List (Text × Text)) (asked : Text) → StandsFor aliases asked (resolve aliases asked)
unfolding resolve
resolve-StandsFor aliases asked = (λ e. rw (e, resolve) refl, λ v e. rw (e, resolve) refl)

-- The information for a base version: that of the version itself where none is asked for, and else that of the
-- nested version for it. `used` is the name of the base version.
pub record Holds (v : Version) (asked : Text) (info : VersionInfo) (used : Text) : Type 0 where
  pub itself : is_empty asked ≡ true → (info ≡ v.info) × (used ≡ asked)
  pub nested :
      is_empty asked ≡ false
      → StandsFor v.version_aliases asked used × (entry_of v.nested used ≡ some info)

-- The tag without the prefix of a framework, for the stem with the version and the Python.
abbrev pub IsOwnTag : Option (List (Text × Text)) → Text → Text → Type 0
IsOwnTag none stem body = body ≡ stem
IsOwnTag (some cvs) stem body =
    (cv : Text) × (lookup (codes "cpu") cvs ≡ some cv) × (body ≡ stem ++ codes "-" ++ cv)

-- A tag for a version: of a repository of Hugging Face it has the base version, which has to be given.
pub record IsTag (info : VersionInfo) (ver base tag : Text) : Type 0 where
  pub py : Text
  pub body : Text
  pub has_py : has_prefix py (codes "py3") ≡ true
  pub plain : is_empty info.tag_prefix ≡ true → tag ≡ body
  pub prefixed : is_empty info.tag_prefix ≡ false → tag ≡ info.tag_prefix ++ codes "-" ++ body
  pub own :
      has_prefix info.repository (codes "huggingface-") ≡ false
      → IsOwnTag info.container_version (ver ++ codes "-cpu-" ++ py) body
  pub hugging :
      has_prefix info.repository (codes "huggingface-") ≡ true
      → (is_empty base ≡ false)
        × (body
            ≡ trim_prefix (trim_prefix base (codes "pytorch")) (codes "tensorflow")
              ++ codes "-transformers"
              ++ ver
              ++ codes "-cpu-"
              ++ py)

-- An image of a version in a region.
pub record IsImage (info : VersionInfo) (region ver base uri : Text) : Type 0 where
  pub registry : Text
  pub tag : Text
  pub same_uri :
      uri
      ≡ registry
        ++ codes ".dkr.ecr."
        ++ region
        ++ codes ".amazonaws.com/"
        ++ info.repository
        ++ codes ":"
        ++ tag
  pub has_registry : entry_of info.registries region ≡ some registry
  pub has_repository : is_empty info.repository ≡ false
  pub has_cpu : supports_cpu info.processors ≡ true
  pub made_tag : IsTag info ver base tag

python_version-py3 :
    (ps : List Text) (ver : Text)
    → has_prefix ver (codes "py3") ≡ true
    → has_prefix (python_version ps ver) (codes "py3") ≡ true
unfolding python_version
python_version-py3 [] ver h = h
python_version-py3 (p ∷ ps) ver h = elim (Bool-cases (has_prefix p (codes "py3"))) [
  | inl e ↦ rw e (python_version-py3 ps p e)
  | inr e ↦ rw e (python_version-py3 ps ver h)
]

container_tag-IsOwnTag :
    (v : VersionInfo) (cvs : Option (List (Text × Text))) (stem t : Text)
    → container_tag (record v { container_version = cvs }) stem ≡ ok t
    → IsOwnTag cvs stem t
unfolding container_tag
container_tag-IsOwnTag v none stem t e = sym (ok-injective e)
container_tag-IsOwnTag v (some cvs) stem t e = elim (Option-cases (lookup (codes "cpu") cvs)) [
  | inl missing ↦ absurd (ground arith)
  | inr (cv, found) ↦ (cv, found, sym (ok-injective (rw (found, container_tag) at e)))
]

framework_tag-own :
    (v : VersionInfo) (ver base py t body : Text)
    → has_prefix v.repository (codes "huggingface-") ≡ false
    → framework_tag v ver base py t ≡ ok body
    → body ≡ t
unfolding framework_tag
framework_tag-own v ver base py t body plain e = sym (ok-injective (rw plain at e))

framework_tag-hugging :
    (v : VersionInfo) (ver base py t body : Text)
    → has_prefix v.repository (codes "huggingface-") ≡ true
    → framework_tag v ver base py t ≡ ok body
    → (is_empty base ≡ false)
      × (body
          ≡ trim_prefix (trim_prefix base (codes "pytorch")) (codes "tensorflow")
            ++ codes "-transformers"
            ++ ver
            ++ codes "-cpu-"
            ++ py)
unfolding framework_tag
framework_tag-hugging v ver base py t body hugs e = elim (Bool-cases (is_empty base)) [
  | inl empty ↦ absurd (cc (rw (hugs, empty) at e))
  | inr given ↦ (given, sym (ok-injective (rw (hugs, given) at e)))
]

tag_of-IsTag :
    (v : VersionInfo) (ver base tag : Text) → tag_of v ver base ≡ ok tag → IsTag v ver base tag
unfolding tag_of prefix_tag
tag_of-IsTag v ver base tag e =
    let py = python_version v.py_versions (codes "py3") in
    let (t, contained, rest) = >>=-eq-ok (container_tag v (ver ++ codes "-cpu-" ++ py)) _ e in
    let (body, framed, made) = >>=-eq-ok (framework_tag v ver base py t) _ rest in
    record {
      py = py;
      body = body;
      has_py = python_version-py3 v.py_versions (codes "py3") refl;
      plain = λ p. sym (ok-injective (rw p at made));
      prefixed = λ p. sym (ok-injective (rw p at made));
      own = λ p.
          subst (IsOwnTag v.container_version (ver ++ codes "-cpu-" ++ py))
            (sym (framework_tag-own v ver base py t body p framed))
            (container_tag-IsOwnTag v v.container_version (ver ++ codes "-cpu-" ++ py) t contained);
      hugging = λ p. framework_tag-hugging v ver base py t body p framed;
    }

registry_of-entry_of :
    (v : VersionInfo) (region registry : Text)
    → registry_of v region ≡ ok registry
    → entry_of v.registries region ≡ some registry
unfolding registry_of
registry_of-entry_of v region registry e = elim (Option-cases (entry_of v.registries region)) [
  | inl missing ↦ absurd (ground arith)
  | inr (r, found) ↦ ground arith
]

version_image-IsImage :
    (v : VersionInfo) (region ver base uri : Text)
    → version_image v region ver base ≡ ok uri
    → IsImage v region ver base uri
unfolding version_image image_uri_text
version_image-IsImage v region ver base uri e = elim (Bool-cases (supports_cpu v.processors)) [
  | inr no_support ↦ absurd (ground arith)
  | inl cpu ↦
      let (registry, found, rest) = >>=-eq-ok (registry_of v region) _ (rw cpu at e) in
      elim (Bool-cases (is_empty v.repository)) [
        | inl empty ↦ absurd (ground arith)
        | inr named ↦
            let (tag, tagged, made) = >>=-eq-ok (tag_of v ver base) _ (rw named at rest) in
            record {
              registry = registry;
              tag = tag;
              same_uri = sym (ok-injective made);
              has_registry = registry_of-entry_of v region registry found;
              has_repository = named;
              has_cpu = cpu;
              made_tag = tag_of-IsTag v ver base tag tagged;
            }
      ]
]

nested_version-Holds :
    (v : Version) (asked : Text) (nested : Option (List (Text × VersionInfo)))
    (p : VersionInfo × Text)
    → nested_version (record v { nested = nested }) asked ≡ ok p
    → Holds (record v { nested = nested }) asked p.0 p.1
unfolding nested_version entry_of
nested_version-Holds v asked none p e = elim (Bool-cases (is_empty asked)) [
  | inl plain ↦
      let same = ok-injective (rw plain at e) in
      record {
        itself = λ h. (
          ap (λ (q : VersionInfo × Text). q.0) (sym same),
          ap (λ (q : VersionInfo × Text). q.1) (sym same),
        );
        nested = λ h. absurd (cc h);
      }
  | inr based ↦ absurd (ground arith)
]
nested_version-Holds v asked (some versions) p e =
    let base = resolve v.version_aliases asked in
    elim (Bool-cases (is_empty asked)) [
      | inl plain ↦
          let same = ok-injective (rw plain at e) in
          record {
            itself = λ h. (
              ap (λ (q : VersionInfo × Text). q.0) (sym same),
              ap (λ (q : VersionInfo × Text). q.1) (sym same),
            );
            nested = λ h. absurd (cc h);
          }
      | inr based ↦ elim (Option-cases (lookup base versions)) [
        | inl missing ↦ absurd (ground arith)
        | inr (info, found) ↦
            let same : (info, base) ≡ p = ok-injective (rw (based, found) at e) in
            subst
              (λ (q : VersionInfo × Text).
                Holds (record v { nested = some versions }) asked q.0 q.1)
              same
              (record {
                itself = λ h. absurd (cc h);
                nested = λ h. (resolve-StandsFor v.version_aliases asked, found);
              })
      ]
    ]

scope_version-entry_of :
    (s : Scope) (versions : Option (List (Text × Version))) (ver : Text) (v : Version)
    → scope_version (record s { versions = versions }) ver ≡ ok v
    → entry_of versions ver ≡ some v
unfolding scope_version entry_of
scope_version-entry_of s none ver v e = cc e
scope_version-entry_of s (some versions) ver v e = elim (Option-cases (lookup ver versions)) [
  | inl missing ↦ absurd (ground arith)
  | inr (w, found) ↦ ground arith
]

-- An image that a scope gives for a version: neither the scope nor the version excludes the processor, and the
-- version is the one of the scope under the name that its aliases give to the part in front of "+". Where
-- there is a part behind "+", it is the nested version under the name that the aliases of the version give
-- to this part. The text has the registry of the version for the region, the region, the repository, which
-- is not empty, and a tag: the version, the processor, a Python 3 and the version of the container, where
-- there is one; for a repository of Hugging Face, which needs a base version, the base version without
-- the name of its framework, "transformers", the version, the processor and a Python 3; each behind the
-- prefix for tags, if there is one.
pub scope_image-IsImage :
    (s : Scope) (region asked uri : Text)
    → scope_image s region asked ≡ ok uri
    → (supports_cpu s.processors ≡ true)
      × ((ver : Text) × (v : Version) × (info : VersionInfo) × (base : Text) × StandsFor
            s.version_aliases
            (split_plus asked).0
            ver
          × (entry_of s.versions ver ≡ some v)
          × Holds v (split_plus asked).1 info base
          × IsImage info region ver base uri)
unfolding scope_image
scope_image-IsImage s region asked uri e = elim (Bool-cases (supports_cpu s.processors)) [
  | inr no_support ↦ absurd (ground arith)
  | inl cpu ↦
      let ver = resolve s.version_aliases (split_plus asked).0 in
      let (v, found, rest) = >>=-eq-ok (scope_version s ver) _ (rw cpu at e) in
      let (p, chosen, made) = >>=-eq-ok (nested_version v (split_plus asked).1) _ rest in
      (
        cpu,
        (
          ver,
          v,
          p.0,
          p.1,
          resolve-StandsFor s.version_aliases (split_plus asked).0,
          scope_version-entry_of s s.versions ver v found,
          nested_version-Holds v (split_plus asked).1 v.nested p chosen,
          version_image-IsImage p.0 region ver p.1 uri made,
        ),
      )
]
