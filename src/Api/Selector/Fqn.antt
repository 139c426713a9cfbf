-- ===== src/Api/Selector/Fqn.antt =====
-- Fully qualified names of features: what NormalizeFQN of api/common.go makes, and reads back.
use natun.Prelude.{
  ℕ, ◌≡◌, refl, subst, Bool, true, false, [], ◌∷◌, ◌++◌, Option, none, some, arith, ◌==◌, ◌⊎◌,
  Bool-cases, inl, inr, all,
}
use mathlib.Core.List.{append-nil}
use natun.Prelude.Text.{Text}
use natun.Api.Errors.{ok, >>=-eq-ok, ok-injective}
use natun.Api.Aggr.{unknown_fn, string_to_aggr_fn}
use natun.Api.Descriptor.{is_empty}
use natun.Api.Selector.{
  Selector, Match, is_word, is_digit, is_letter, is_underscore, span, is_ident, ident_after,
  match_name, after_ident, after_first, after_fqn, of_submatch, match_fqn, match_rest, match_aggr,
  match_version, match_encoding, find_submatch, of_match, parse_version, parse_selector, or_default,
  normalize_fqn,
}

-- A text of one class is taken whole, if what follows does not begin in the class.
abbrev StopsAt : (ℕ → Bool) → Text → Type 0
StopsAt p [] = Unit
StopsAt p (c ∷ s) = p c ≡ false

span-append : (p : ℕ → Bool) (a s : Text) → all p a ≡ true → StopsAt p s → span p (a ++ s) ≡ (a, s)
unfolding span
span-append p [] [] h stop = refl
span-append p [] (c ∷ s) h stop = rw stop
span-append p (c ∷ a) s h stop = rw (span-append p a s (ground arith) stop) (ground arith)

-- The prefix that a scan takes is in the class.
span-all : (p : ℕ → Bool) (s : Text) → all p (span p s).0 ≡ true
unfolding span
span-all p [] = refl
span-all p (c ∷ s) = elim (Bool-cases (p c)) [ inl e ↦ rw e (rw e (span-all p s)) | inr e ↦ rw e ]

-- A namespace or a name.
pub record IsName (a : Text) : Type 0 where
  pub ident : is_ident a ≡ true
  pub words : all is_word a ≡ true

match_name-IsName : (s a r : Text) → match_name s ≡ some (a, r) → IsName a
unfolding match_name
match_name-IsName s a r h =
    let good : is_ident (span is_word s).0 ≡ true = ground arith in
    let e : (span is_word s).0 ≡ a = ground arith in
    record { ident = rw (← e) good; words = rw (← e) (span-all is_word s) }

match_name-append : (a s : Text) → IsName a → StopsAt is_word s → match_name (a ++ s) ≡ some (a, s)
unfolding match_name
match_name-append a s n stop = rw (span-append is_word a s n.words stop) (rw n.ident)

-- A namespace is a name or missing.
abbrev pub IsNamespace : Text → Type 0
IsNamespace ns = (ns ≡ []) ⊎ IsName ns

abbrev Named : Option (Text × Text × Text) → Type 0
Named none = Unit
Named (some (ns, n, r)) = IsNamespace ns × IsName n

Named-dot :
    (a s : Text) (o : Option (Text × Text))
    → match_name s ≡ o
    → IsName a
    → Named (elim o [ none ↦ none | some (b, r) ↦ some (a, b, r) ])
Named-dot a s none e na = tt
Named-dot a s (some (b, r)) e na = (inr na, match_name-IsName s b r e)

after_ident-Named : (a r : Text) → IsName a → Named (after_ident a r)
unfolding after_ident
after_ident-Named a [] na = (inl refl, na)
after_ident-Named a (c ∷ s) na = elim (Bool-cases (c == b'.')) [
  | inl e ↦ rw e (Named-dot a s (match_name s) refl na)
  | inr e ↦ rw e (inl refl, na)
]

after_first-Named : (s : Text) (o : Option (Text × Text)) → match_name s ≡ o → Named (after_first o)
unfolding after_first
after_first-Named s none e = tt
after_first-Named s (some (a, r)) e = after_ident-Named a r (match_name-IsName s a r e)

match_fqn-Named : (s : Text) → Named (match_fqn s)
unfolding match_fqn
match_fqn-Named s = after_first-Named s (match_name s) refl

match_rest-same :
    (ns n r : Text) (m : Match) → match_rest ns n r ≡ some m → (m.namespace ≡ ns) × (m.name ≡ n)
unfolding match_rest
match_rest-same ns n r m h = ground arith

of_match-same :
    (m : Match) (s : Selector) → of_match m ≡ ok s → (s.namespace ≡ m.namespace) × (s.name ≡ m.name)
unfolding of_match
of_match-same m s h =
    let (v, _, e) = >>=-eq-ok (parse_version m.version) _ h in
    (cc (ok-injective e), cc (ok-injective e))

HasNames : Selector → Type 0
HasNames s = IsNamespace s.namespace × IsName s.name

of_submatch-HasNames :
    (o : Option (Text × Text × Text)) (s : Selector)
    → Named o
    → of_submatch (after_fqn o) ≡ ok s
    → HasNames s
unfolding HasNames after_fqn
of_submatch-HasNames none s named h = unfold of_submatch in cc h
of_submatch-HasNames (some (ns, n, r)) s (hns, hn) h = go (match_rest ns n r) refl h
  where
    go : (o : Option Match) → match_rest ns n r ≡ o → of_submatch o ≡ ok s → HasNames s
    go none e h = unfold of_submatch in cc h
    go (some m) e h =
        let (mns, mn) = match_rest-same ns n r m e in
        let (sns, sn) = of_match-same m s (unfold of_submatch in h) in
        (rw (sns, mns) hns, rw (sn, mn) hn)

-- The namespace of a parsed selector is a name or empty, and its name is a name.
pub parse_selector-IsName :
    (t : Text) (s : Selector) → parse_selector t ≡ ok s → IsNamespace s.namespace × IsName s.name
unfolding parse_selector find_submatch HasNames
parse_selector-IsName t s h = of_submatch-HasNames (match_fqn t) s (match_fqn-Named t) h

-- The selector with a namespace and a name alone.
abbrev pub plain : Text → Text → Selector
plain ns n = record { namespace = ns; name = n; aggr_fn = unknown_fn; version = 0; encoding = [] }

match_name_end : (n : Text) → IsName n → match_name n ≡ some (n, [])
match_name_end n h =
    subst (λ s. match_name s ≡ some (n, [])) (append-nil n) (match_name-append n [] h tt)

match_rest_end : (ns n : Text) → of_submatch (match_rest ns n []) ≡ ok (plain ns n)
unfolding of_submatch match_rest match_aggr match_version match_encoding of_match parse_version
    string_to_aggr_fn
match_rest_end ns n = refl

-- A namespace, a dot and a name are read as that namespace and that name.
pub parse_selector_fqn :
    (ns n : Text) → IsName ns → IsName n → parse_selector (ns ++ (b'.' ∷ n)) ≡ ok (plain ns n)
unfolding parse_selector find_submatch match_fqn is_word is_digit is_letter is_underscore
parse_selector_fqn ns n hns hn =
    rw (match_name-append ns (b'.' ∷ n) hns refl)
      (unfold after_first after_ident in rw (match_name_end n hn) (match_rest_end ns n))

or_default-IsName :
    (ns d : Text) → IsNamespace ns → (is_empty ns ≡ false) ⊎ IsName d → IsName (or_default ns d)
or_default-IsName [] d h (inl e) = cc e
or_default-IsName [] d h (inr hd) = hd
or_default-IsName (c ∷ ns) d (inl e) hd = cc e
or_default-IsName (c ∷ ns) d (inr h) hd = h

is_empty-of_IsName : (ns : Text) → IsName ns → is_empty ns ≡ false
is_empty-of_IsName [] h = unfold is_ident ident_after in cc h.ident
is_empty-of_IsName (c ∷ ns) h = refl

normalize_fqn_fqn :
    (ns n d : Text)
    → IsName ns
    → IsName n
    → normalize_fqn (ns ++ (b'.' ∷ n)) d ≡ ok (ns ++ (b'.' ∷ n))
unfolding normalize_fqn
normalize_fqn_fqn ns n d hns hn =
    rw (parse_selector_fqn ns n hns hn) (rw (is_empty-of_IsName ns hns))

-- For a selector with a namespace of its own, or a default namespace that is a name (the default of the engine
-- and of its service, "undefined-namespace", is none), what NormalizeFQN gives is read back as the
-- namespace of the selector (or the default) and its name, without a function, a version or an encoding;
-- and it is its own normal form, whatever the default.
pub normalize_fqn-normal :
    (t d s' : Text) (s : Selector)
    → parse_selector t ≡ ok s
    → (is_empty s.namespace ≡ false) ⊎ IsName d
    → normalize_fqn t d ≡ ok s'
    → (parse_selector s' ≡ ok (plain (or_default s.namespace d) s.name))
      × ((d' : Text) → normalize_fqn s' d' ≡ ok s')
unfolding normalize_fqn
normalize_fqn-normal t d s' s es named h =
    let (hns, hn) = parse_selector-IsName t s es in
    let made = ok-injective (rw es at h) in
    let hns' = or_default-IsName s.namespace d hns named in
    (
      rw (← made) (parse_selector_fqn _ s.name hns' hn),
      λ d'. subst (λ x. normalize_fqn x d' ≡ ok x) made (normalize_fqn_fqn _ s.name d' hns' hn),
    )
