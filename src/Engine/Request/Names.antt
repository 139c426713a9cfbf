-- ===== src/Engine/Request/Names.antt =====
-- How a request finds its feature (featureForRequest of internal/engine/engine.go).
use natun.Prelude.{
  ◌≡◌, refl, true, false, not, [], ◌∷◌, ◌++◌, arith, ◌==◌, all, if◌then◌else◌, Bool-cases, inl, inr,
}
use natun.Prelude.Text.{Text, has_prefix}
use natun.Api.Errors.{ok, err, namespace_required}
use natun.Api.Descriptor.{is_empty}
use natun.Api.Selector.{
  Selector, parse_selector, or_default, normalize_fqn, is_word, is_digit, is_letter, is_underscore,
}
use natun.Api.Selector.Fqn.{IsName, IsNamespace, parse_selector-IsName}
use natun.Engine.Request.{request_fqn, undefined_namespace}

-- A text with a code point that is neither of a name nor a dot is no prefix of a qualified name.
no_prefix :
    (a n p : Text)
    → all is_word a ≡ true
    → all (λ c. not (c == b'.')) p ≡ true
    → all is_word p ≡ false
    → has_prefix (a ++ (b'.' ∷ n)) p ≡ false
no_prefix a n [] ha hp np = cc np
no_prefix [] n (c ∷ p) ha hp np = ground arith
no_prefix (d ∷ a) n (c ∷ p) ha hp np = elim (Bool-cases (d == c)) [
  | inl e ↦
      let same : d ≡ c = ground arith in
      let word : is_word c ≡ true = ground arith in
      rw e (no_prefix a n p (ground arith) (ground arith) (rw word at np))
  | inr e ↦ rw e
]

no_undefined : (ns n : Text) → IsName ns → has_prefix (ns ++ (b'.' ∷ n)) undefined_namespace ≡ false
no_undefined ns n h =
    no_prefix ns n undefined_namespace h.words refl
      (unfold is_word is_digit is_letter is_underscore in refl)

request_named :
    (ns n : Text)
    → IsNamespace ns
    → (let fqn = or_default ns undefined_namespace ++ (b'.' ∷ n) in
        if has_prefix fqn undefined_namespace then err namespace_required else ok fqn)
      ≡ (if is_empty ns then err namespace_required else ok (ns ++ (b'.' ∷ n)))
request_named [] n h = refl
request_named (c ∷ ns) n (inl e) = cc e
request_named (c ∷ ns) n (inr h) = rw (no_undefined (c ∷ ns) n h)

-- A selector that parses is looked up by its namespace and name, and is refused exactly if it has no
-- namespace.
pub request_fqn-parse :
    (t : Text) (s : Selector)
    → parse_selector t ≡ ok s
    → request_fqn t ≡ (
        if is_empty s.namespace
        then err namespace_required
        else ok (s.namespace ++ (b'.' ∷ s.name)))
unfolding request_fqn normalize_fqn
request_fqn-parse t s h = rw h (request_named s.namespace s.name (parse_selector-IsName t s h).0)
