-- ===== src/Historian/Queue/Drain.antt =====
-- The loop that drains a queue (subscriptionQueue.go of internal/historian) ends.
use natun.Prelude.{ℕ, suc, ◌≤◌, ◌≡◌, Option, none, some, ◌⊎◌}
use natun.Api.Errors.{Result, panicked}
use natun.Historian.Queue.{WorkQueue}

-- A work queue of client-go that nothing else adds to, with the number of the items that wait in it or that its
-- Done puts back: those that were added again while they are being processed. Get takes one of those that
-- wait, Done moves one of the others to them, Forget touches neither, and an item with the rate limit comes
-- back after a delay, when the loop is over.
pub record Alone (Q T : Type 0) (queue : WorkQueue Q T) : Type 0 where
  pub pending : Q → ℕ
  pub len-pending : (q : Q) → queue.len q ≤ pending q
  pub taken : (q q' : Q) (item : T) → queue.take q ≡ some (item, q') → pending q ≡ suc (pending q')
  pub pending-done : (item : T) (q : Q) → pending (queue.done item q) ≤ pending q
  pub pending-forget : (item : T) (q : Q) → pending (queue.forget item q) ≤ pending q
  pub pending-add_rate_limited :
      (item : T) (q : Q) → pending (queue.add_rate_limited item q) ≤ pending q

-- A loop that has ended: with a drained queue, with the sign to quit or with a panic of the handler.
abbrev pub Ends : {Q T W : Type 0} → WorkQueue Q T → Option (Result (Unit {0}) × Q × W) → Type 0
Ends {Q = Q} {W = W} queue ended =
    (r : Result (Unit {0})) × (q : Q) × (w : W) × (ended ≡ some (r, q, w))
    × ((queue.len q ≡ 0) ⊎ ((queue.take q ≡ none) ⊎ (r ≡ panicked)))
