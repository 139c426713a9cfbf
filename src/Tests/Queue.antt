-- ===== src/Tests/Queue.antt =====
-- The theorems about the queues of the historian (internal/historian) at concrete inputs.
use natun.Prelude.{
  ℕ, zero, suc, ◌+◌, ◌≡◌, subst, List, [], ◌∷◌, Option, some, none, arith, length, ◌≤◌, ◌==◌,
  if◌then◌else◌, Bool-cases, inl, inr,
}
use natun.Api.Errors.{Result, ok, err, external}
use natun.Historian.Queue.{WorkQueue}
use natun.Historian.Queue.Drain.{Alone}

-- A queue as the list of the items that wait and of those that were added again while they are processed. Items
-- with the rate limit come back later, and are left out.
abbrev Items : Type 0
Items = List ℕ × List ℕ

abbrev take_first : Items → Option (ℕ × Items)
take_first ([], again) = none
take_first (x ∷ xs, again) = some (x, (xs, again))

-- An item that is done is put back if it was added again.
abbrev put_back : ℕ → Items → Items
put_back x (xs, []) = (xs, [])
put_back x (xs, y ∷ again) = if x == y then (y ∷ xs, again) else (xs, y ∷ again)

abbrev list_queue : WorkQueue Items ℕ
list_queue = record {
  len = λ q. length q.0;
  take = take_first;
  done = put_back;
  forget = λ x q. q;
  add_rate_limited = λ x q. q;
}

one_less :
    (q q' : Items) (x : ℕ)
    → take_first q ≡ some (x, q')
    → length q.0 + length q.1 ≡ suc (length q'.0 + length q'.1)
one_less ([], again) q' x h = cc h
one_less (y ∷ q, again) q' x h =
    let e : (q, again) ≡ q' = cc h in
    subst (λ (l : Items). length (y ∷ q) + length again ≡ suc (length l.0 + length l.1)) e
      (omega arith)

length-put_back :
    (x : ℕ) (q : Items)
    → length (put_back x q).0 + length (put_back x q).1 ≤ length q.0 + length q.1
length-put_back x (xs, []) = omega arith
length-put_back x (xs, y ∷ again) = elim (Bool-cases (x == y)) [
  | inl same ↦ rw same (omega arith)
  | inr other ↦ rw other (omega arith)
]

list_queue-Alone : Alone Items ℕ list_queue
list_queue-Alone = record {
  pending = λ q. length q.0 + length q.1;
  len-pending = λ q. omega arith;
  taken = one_less;
  pending-done = length-put_back;
  pending-forget = λ x q. omega arith;
  pending-add_rate_limited = λ x q. omega arith;
}

-- A handler that adds up what it can, and fails for 0.
abbrev add_up : ℕ → ℕ → Result (Unit {0}) × ℕ
add_up zero sum = (err external, sum)
add_up (suc n) sum = (ok tt, sum + suc n)

-- The item 3 was added again while it is being processed.
abbrev three_items : Items
three_items = (3 ∷ 0 ∷ 5 ∷ [], 3 ∷ [])
