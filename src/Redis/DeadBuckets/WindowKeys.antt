-- ===== src/Redis/DeadBuckets/WindowKeys.antt =====
-- The parts of a window key (windowKey and fromWindowKey of windows.go,
-- internal/plugins/providers/state/redis).
use natun.Prelude.{
  ℕ, ◌≡◌, refl, ◌∙◌, sym, ap, true, false, [], ◌∷◌, ◌++◌, Option, none, some, arith, ◌==◌,
  Bool-cases, Option-cases, inl, inr,
}
use mathlib.Core.List.{append_assoc}
use natun.Prelude.Text.{Text, contains_code}
use natun.Api.Errors.{Result, ok}
use natun.Redis.Command.{window_key}
use natun.Redis.DeadBuckets.{split_first, split_last, from_window_key}

split_first-append :
    (c : ℕ) (a b : Text) → contains_code c a ≡ false → split_first c (a ++ (c ∷ b)) ≡ some (a, b)
unfolding split_first
split_first-append c [] b h = ground arith
split_first-append c (d ∷ a) b h = rw (split_first-append c a b (ground arith)) (ground arith)

split_last-none : (c : ℕ) (b : Text) → contains_code c b ≡ false → split_last c b ≡ none
unfolding split_last
split_last-none c [] h = refl
split_last-none c (d ∷ b) h = rw (split_last-none c b (ground arith)) (ground arith)

split_last-append :
    (c : ℕ) (a b : Text) → contains_code c b ≡ false → split_last c (a ++ (c ∷ b)) ≡ some (a, b)
unfolding split_last
split_last-append c [] b h = rw (split_last-none c b h) (ground arith)
split_last-append c (d ∷ a) b h = rw (split_last-append c a b h) refl

taken_apart :
    (k fqn rest bucket encoded : Text)
    → split_first b'/' k ≡ some (fqn, rest)
    → split_last b':' rest ≡ some (bucket, encoded)
    → from_window_key k ≡ ok (fqn, bucket, encoded)
unfolding from_window_key
taken_apart k fqn rest bucket encoded e1 e2 = rw (e1, from_window_key) (rw e2 refl)

-- A window key comes apart into its parts, if the name has no slash and the encoded keys no colon.
pub from_window_key-window_key :
    (fqn bucket encoded : Text)
    → contains_code b'/' fqn ≡ false
    → contains_code b':' encoded ≡ false
    → from_window_key (window_key fqn bucket encoded) ≡ ok (fqn, bucket, encoded)
unfolding window_key
from_window_key-window_key fqn bucket encoded hf he =
    taken_apart (window_key fqn bucket encoded) fqn (bucket ++ (b':' ∷ encoded)) bucket encoded
      (split_first-append b'/' fqn (bucket ++ (b':' ∷ encoded)) hf)
      (split_last-append b':' bucket encoded he)

-- With a colon in the encoded keys the part behind the last one comes back as the keys, and the part
-- before it as part of the bucket.
pub from_window_key-colon :
    (fqn bucket before after : Text)
    → contains_code b'/' fqn ≡ false
    → contains_code b':' after ≡ false
    → from_window_key (window_key fqn bucket (before ++ (b':' ∷ after)))
      ≡ ok (fqn, bucket ++ (b':' ∷ before), after)
unfolding window_key
from_window_key-colon fqn bucket before after hf ha =
    taken_apart (window_key fqn bucket (before ++ (b':' ∷ after))) fqn
      (bucket ++ (b':' ∷ (before ++ (b':' ∷ after)))) (bucket ++ (b':' ∷ before)) after
      (split_first-append b'/' fqn _ hf)
      (ap (split_last b':') (sym (append_assoc bucket (b':' ∷ before) (b':' ∷ after)))
        ∙ split_last-append b':' (bucket ++ (b':' ∷ before)) after ha)

some_first :
    (c d : ℕ) (k a b : Text)
    → (d == c) ≡ true
    → ◌≡◌ {A = Option (Text × Text)} (some ([], k)) (some (a, b))
    → d ∷ k ≡ a ++ (c ∷ b)
some_first c d k a b e h =
    let ea : [] ≡ a = cc h in
    let eb : k ≡ b = cc h in rw (← ea) (rw (← eb) (ap (λ x. x ∷ k) (ground arith)))

some_later :
    (c d : ℕ) (k a b : Text) (p : Text × Text)
    → k ≡ p.0 ++ (c ∷ p.1)
    → ◌≡◌ {A = Option (Text × Text)} (some (d ∷ p.0, p.1)) (some (a, b))
    → d ∷ k ≡ a ++ (c ∷ b)
some_later c d k a b p m h =
    let ea : d ∷ p.0 ≡ a = cc h in
    let eb : p.1 ≡ b = cc h in rw (← ea) (rw (← eb) (ap (λ t. d ∷ t) m))

split_first-some : (c : ℕ) (k a b : Text) → split_first c k ≡ some (a, b) → k ≡ a ++ (c ∷ b)
unfolding split_first
split_first-some c [] a b h = cc h
split_first-some c (d ∷ k) a b h = elim (Bool-cases (d == c)) [
  | inl e ↦ some_first c d k a b e (rw e at h)
  | inr e ↦ elim (Option-cases (split_first c k)) [
    | inl n ↦ cc (rw n at (rw e at h))
    | inr (p, m) ↦ some_later c d k a b p (split_first-some c k p.0 p.1 m) (rw m at (rw e at h))
  ]
]

split_last-some : (c : ℕ) (k a b : Text) → split_last c k ≡ some (a, b) → k ≡ a ++ (c ∷ b)
unfolding split_last
split_last-some c [] a b h = cc h
split_last-some c (d ∷ k) a b h = elim (Option-cases (split_last c k)) [
  | inr (p, m) ↦ some_later c d k a b p (split_last-some c k p.0 p.1 m) (rw m at h)
  | inl n ↦ elim (Bool-cases (d == c)) [
    | inl e ↦ some_first c d k a b e (rw e at (rw n at h))
    | inr e ↦ cc (rw e at (rw n at h))
  ]
]

joined :
    (k f rest : Text) (p : Text × Text) (fqn bucket encoded : Text)
    → k ≡ f ++ (b'/' ∷ rest)
    → rest ≡ p.0 ++ (b':' ∷ p.1)
    → ◌≡◌ {A = Result (Text × Text × Text)} (ok (f, p.0, p.1)) (ok (fqn, bucket, encoded))
    → window_key fqn bucket encoded ≡ k
unfolding window_key
joined k f rest p fqn bucket encoded h1 h2 h =
    let ef : f ≡ fqn = cc h in
    let eb : p.0 ≡ bucket = cc h in
    let ee : p.1 ≡ encoded = cc h in rw (← ef) (rw (← eb) (rw (← ee) (rw h1 (rw h2 refl))))

-- The parts that a key is taken into make that key again, whatever it holds.
pub window_key-from_window_key :
    (k fqn bucket encoded : Text)
    → from_window_key k ≡ ok (fqn, bucket, encoded)
    → window_key fqn bucket encoded ≡ k
unfolding from_window_key
window_key-from_window_key k fqn bucket encoded h = elim (Option-cases (split_first b'/' k)) [
  | inl n ↦ cc (rw (n, from_window_key) at h)
  | inr ((f, rest), m) ↦ elim (Option-cases (split_last b':' rest)) [
    | inl n ↦ cc (rw n at (rw (m, from_window_key) at h))
    | inr (p, m') ↦
        joined k f rest p fqn bucket encoded (split_first-some b'/' k f rest m)
          (split_last-some b':' rest p.0 p.1 m') (rw m' at (rw (m, from_window_key) at h))
  ]
]
