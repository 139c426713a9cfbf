-- ===== src/Historian/Queue/Backoff.antt =====
-- The rate limit of an item whose handler fails (processNextItem of internal/historian/queue.go).
use natun.Prelude.{ℕ, zero, suc, ◌≡◌, ◌∙◌}
use natun.Api.Errors.{err, Error}
use natun.Historian.Queue.{WorkQueue, handled}

-- What client-go documents: the failures that the rate limiter counts for an item, which determine
-- how long the next addition with the rate limit waits.
pub record Failures (Q T : Type 0) (queue : WorkQueue Q T) : Type 0 where
  pub failures : T → Q → ℕ
  pub failures-add_rate_limited :
      (item : T) (q : Q) → failures item (queue.add_rate_limited item q) ≡ suc (failures item q)
  pub failures-forget : (item : T) (q : Q) → failures item (queue.forget item q) ≡ zero
  pub failures-done : (item : T) (q : Q) → failures item (queue.done item q) ≡ failures item q

-- After a handler that fails, the rate limiter counts no failure of the item, however many there were.
pub handled-failures :
    {Q T : Type 0} (queue : WorkQueue Q T) (limits : Failures Q T queue) (item : T) (q : Q)
    (e : Error)
    → limits.failures item (handled queue item q (err e)) ≡ zero
unfolding handled
handled-failures queue limits item q e =
    limits.failures-done item (queue.forget item (queue.add_rate_limited item q))
    ∙ limits.failures-forget item (queue.add_rate_limited item q)
