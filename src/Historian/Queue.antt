-- ===== src/Historian/Queue.antt =====
-- internal/historian/queue.go and the loop of subscriptionQueue.go over a work queue of
-- k8s.io/client-go/util/workqueue, which is a parameter. Its items have the type of the queue, so the
-- branch for another type is left out.
pub mod Drain
pub mod Backoff
use natun.Prelude.{
  ℕ, zero, suc, ◌≡◌, Bool, true, false, ◌&&◌, Option, none, some, ◌==◌, if◌then◌else◌,
}
use natun.Api.Errors.{Result, ok, err, panicked}

-- RateLimitingInterface. `take` is Get: an item that is then being processed, or `none` for the sign
-- to quit. An item that is added with the rate limit enters the queue after a while.
pub record WorkQueue (Q T : Type 0) : Type 0 where
  pub len : Q → ℕ
  pub take : Q → Option (T × Q)
  pub done : T → Q → Q
  pub forget : T → Q → Q
  pub add_rate_limited : T → Q → Q

-- The queue behind the call of the handler, which is deferred to Done in any case.
unfoldable pub handled : {Q T : Type 0} → WorkQueue Q T → T → Q → Result (Unit {0}) → Q
handled queue item q panicked = queue.done item q
handled queue item q (err e) = queue.done item (queue.forget item (queue.add_rate_limited item q))
handled queue item q (ok _) = queue.done item (queue.forget item q)

-- The result of processNextItem after an item: whether the loop goes on.
unfoldable pub goes_on : Result (Unit {0}) → Result Bool
goes_on panicked = panicked
goes_on (ok _) = ok true
goes_on (err e) = ok true

module _ {Q T W : Type 0} (queue : WorkQueue Q T) (handle : T → W → Result (Unit {0}) × W) where
  unfoldable pub process_item : Option (T × Q) → Q → W → Result Bool × Q × W
  process_item none q w = (ok false, q, w)
  process_item (some (item, q')) q w =
      let (r, w') = handle item w in (goes_on r, handled queue item q' r, w')

  -- processNextItem; `cancelled` is whether the context is done.
  unfoldable pub process_next_item : Bool → Bool → Q → W → Result Bool × Q × W
  process_next_item cancelled stop_on_drained q w =
      if cancelled
      then (ok false, q, w)
      else if stop_on_drained && queue.len q == 0
      then (ok false, q, w)
      else process_item (queue.take q) q w

  -- What the loop does behind processNextItem, and with what the rounds that are left come to.
  unfoldable pub again :
      Result Bool × Q × W → Option (Result (Unit {0}) × Q × W) → Option (Result (Unit {0}) × Q × W)
  again (panicked, q, w) rest = some (panicked, q, w)
  again (err e, q, w) rest = some (err e, q, w)
  again (ok true, q, w) rest = rest
  again (ok false, q, w) rest = some (ok tt, q, w)

  -- `for c.queue.processNextItem(ctx, true) {}` in a context that is not done, for a number of rounds;
  -- `none` if the loop has not ended by then.
  unfoldable pub drain : ℕ → Q → W → Option (Result (Unit {0}) × Q × W)
  drain zero q w = none
  drain (suc rounds) q w =
      let p = process_next_item false true q w in again p (drain rounds p.1 p.2)
