-- ===== src/Api/Keys.antt =====
-- Keys.Encode and Keys.Decode of api/ifaces.go.
use natun.Prelude.{
  ◌≡◌, ◌≢◌, refl, subst, ◌∙◌, Bool, true, false, List, [], ◌∷◌, none, some, arith, length, lookup,
  insert, lookup-insert, ◌==◌, if◌then◌else◌, inl, inr, ◌⊎◌, ==_iff, Bool-cases,
}
use natun.Prelude.Text.{
  Text, text_eq, text_eq_iff, contains_code, join, split, split-join, NoneContains,
}
use natun.Api.Errors.{
  Result, ok, err, ◌>>=◌, >>=-eq-ok, ok-injective, missing_key, invalid_key_character,
  wrong_number_of_keys,
}
use natun.Api.Descriptor.{FeatureDescriptor}

-- Keys is a map[string]string.
abbrev pub Keys : Type 0
Keys = List (Text × Text)

-- One round of the loop of Encode: the value of a key, which has no `;`.
unfoldable pub encoded_value : Keys → Text → Result Text
encoded_value k key = elim (lookup key k) [
  | none ↦ err missing_key
  | some val ↦ if contains_code b';' val then err invalid_key_character else ok val
]

unfoldable pub encoded_values : Keys → List Text → Result (List Text)
encoded_values k [] = ok []
encoded_values k (key ∷ keys) =
    encoded_value k key >>= λ val. encoded_values k keys >>= λ vals. ok (val ∷ vals)

unfoldable pub encode : Keys → FeatureDescriptor → Result Text
encode k fd = encoded_values k fd.keys >>= λ vals. ok (join b';' vals)

-- The loop of Decode, over as many values as there are keys.
unfoldable pub assign : List Text → List Text → Keys → Keys
assign (key ∷ keys) (val ∷ vals) k = assign keys vals (insert key val k)
assign _ _ k = k

-- Decode, with the map as the call leaves it.
unfoldable pub decode : Text → FeatureDescriptor → Keys → Result Keys
decode encoded fd k =
    if length (split b';' encoded) == length fd.keys
    then ok (assign fd.keys (split b';' encoded) k)
    else err wrong_number_of_keys

abbrev pub elem : Text → List Text → Bool
elem j [] = false
elem j (key ∷ keys) = if text_eq key j then true else elem j keys

-- What Encode wrote is separable again, and holds the value of each key.
abbrev IsEncoding : Keys → List Text → List Text → Type 0
IsEncoding k [] [] = Unit
IsEncoding k [] (v ∷ vs) = ⊥
IsEncoding k (key ∷ keys) [] = ⊥
IsEncoding k (key ∷ keys) (v ∷ vs) =
    (lookup key k ≡ some v) × (contains_code b';' v ≡ false) × IsEncoding k keys vs

encoded_value-ok :
    (k : Keys) (key v : Text)
    → encoded_value k key ≡ ok v
    → (lookup key k ≡ some v) × (contains_code b';' v ≡ false)
unfolding encoded_value
encoded_value-ok k key v h = ground arith

encoded_values-IsEncoding :
    (k : Keys) (keys vals : List Text) → encoded_values k keys ≡ ok vals → IsEncoding k keys vals
unfolding encoded_values
encoded_values-IsEncoding k [] [] h = tt
encoded_values-IsEncoding k [] (v ∷ vs) h = cc h
encoded_values-IsEncoding k (key ∷ keys) vals h =
    let (v, ev, h') = >>=-eq-ok (encoded_value k key) _ h in
    let (vs, evs, h'') = >>=-eq-ok (encoded_values k keys) _ h' in
    let (found, clean) = encoded_value-ok k key v ev in
    subst (IsEncoding k (key ∷ keys)) (ok-injective h'')
      (found, clean, encoded_values-IsEncoding k keys vs evs)

IsEncoding-NoneContains :
    (k : Keys) (keys vals : List Text) → IsEncoding k keys vals → NoneContains b';' vals
IsEncoding-NoneContains k [] [] h = tt
IsEncoding-NoneContains k [] (v ∷ vs) h = absurd h
IsEncoding-NoneContains k (key ∷ keys) [] h = absurd h
IsEncoding-NoneContains k (key ∷ keys) (v ∷ vs) (f, c, h) = (c, IsEncoding-NoneContains k keys vs h)

IsEncoding-length :
    (k : Keys) (keys vals : List Text) → IsEncoding k keys vals → length vals ≡ length keys
IsEncoding-length k [] [] h = refl
IsEncoding-length k [] (v ∷ vs) h = absurd h
IsEncoding-length k (key ∷ keys) [] h = absurd h
IsEncoding-length k (key ∷ keys) (v ∷ vs) (f, c, h) = omega (arith, IsEncoding-length k keys vs h)

-- A key that is not decoded keeps its value.
assign-elsewhere :
    (keys vals : List Text) (k0 : Keys) (j : Text)
    → elem j keys ≡ false
    → lookup j (assign keys vals k0) ≡ lookup j k0
unfolding assign
assign-elsewhere [] vals k0 j h = refl
assign-elsewhere (key ∷ keys) [] k0 j h = refl
assign-elsewhere (key ∷ keys) (v ∷ vs) k0 j h =
    assign-elsewhere keys vs (insert key v k0) j (ground arith)
    ∙ ground (arith, lookup-insert key j v k0)

-- A key that is decoded has the value that was encoded.
assign-encoded :
    (k : Keys) (keys vals : List Text) (k0 : Keys) (j : Text)
    → IsEncoding k keys vals
    → (elem j keys ≡ true) ⊎ (lookup j k0 ≡ lookup j k)
    → lookup j (assign keys vals k0) ≡ lookup j k
unfolding assign
assign-encoded k [] [] k0 j h (inl e) = cc e
assign-encoded k [] [] k0 j h (inr e) = e
assign-encoded k [] (v ∷ vs) k0 j h _ = absurd h
assign-encoded k (key ∷ keys) [] k0 j h _ = absurd h
assign-encoded k (key ∷ keys) (v ∷ vs) k0 j (f, c, h) e =
    assign-encoded k keys vs (insert key v k0) j h
      (ground (arith, e, f, lookup-insert key j v k0, text_eq_iff key j))

IsEncoding-split :
    (k : Keys) (keys vals : List Text)
    → keys ≢ []
    → IsEncoding k keys vals
    → split b';' (join b';' vals) ≡ vals
IsEncoding-split k [] vals ne h = absurd (ne refl)
IsEncoding-split k (key ∷ keys) [] ne h = absurd h
IsEncoding-split k (key ∷ keys) (v ∷ vs) ne h =
    split-join b';' v vs (IsEncoding-NoneContains k (key ∷ keys) (v ∷ vs) h)

decode_values :
    (k : Keys) (fd : FeatureDescriptor) (vals : List Text) (k0 : Keys)
    → fd.keys ≢ []
    → IsEncoding k fd.keys vals
    → decode (join b';' vals) fd k0 ≡ ok (assign fd.keys vals k0)
unfolding decode
decode_values k fd vals k0 ne h =
    rw (IsEncoding-split k fd.keys vals ne h)
      (rw ((==_iff (length vals) (length fd.keys)).1 (IsEncoding-length k fd.keys vals h)))

assign_values :
    (k : Keys) (keys vals : List Text) (k0 : Keys) (j : Text)
    → IsEncoding k keys vals
    → lookup j (assign keys vals k0) ≡ (if elem j keys then lookup j k else lookup j k0)
assign_values k keys vals k0 j h = elim (Bool-cases (elem j keys)) [
  | inl e ↦ rw e (assign-encoded k keys vals k0 j h (inl e))
  | inr e ↦ rw e (assign-elsewhere keys vals k0 j e)
]

-- For a feature with at least one key, the encoding of `k` is decoded into any map so that each key
-- of the feature has the value that it has in `k`, and every other key is left as it was.
pub decode-encode :
    (k k0 : Keys) (fd : FeatureDescriptor) (s : Text)
    → fd.keys ≢ []
    → encode k fd ≡ ok s
    → (k' : Keys) × (decode s fd k0 ≡ ok k')
      × ((j : Text) → lookup j k' ≡ (if elem j fd.keys then lookup j k else lookup j k0))
unfolding encode
decode-encode k k0 fd s ne h =
    let (vals, ev, h') = >>=-eq-ok (encoded_values k fd.keys) _ h in
    let enc = encoded_values-IsEncoding k fd.keys vals ev in
    (
      assign fd.keys vals k0,
      rw (← ok-injective h') (decode_values k fd vals k0 ne enc),
      λ j. assign_values k fd.keys vals k0 j enc,
    )

-- A feature without keys is encoded as the empty text, which is never decoded: splitting it gives
-- one value.
pub decode-encode_nil :
    (k k0 : Keys) (fd : FeatureDescriptor)
    → fd.keys ≡ []
    → (encode k fd ≡ ok []) × (decode [] fd k0 ≡ err wrong_number_of_keys)
unfolding encode decode encoded_values join split
decode-encode_nil k k0 fd h = (rw h, rw h)
