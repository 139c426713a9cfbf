-- ===== src/Redis/State.antt =====
-- The state provider as the engine sees it: the type `state` of common.go
-- (internal/plugins/providers/state/redis), whose methods end in `tx.Exec`. The server is a parameter.
use natun.Prelude.{ℕ, List}
use natun.Api.Errors.{Result, ok, err, panicked}
use natun.Api.Value.{FloatOps}
use natun.Engine.World.{StateOps}
use natun.Redis.Command.{Command}
use natun.Redis.Primitives.{set_primitive, append, incr, update, window_add}
use natun.Redis.Read.{RedisReads}
use natun.Redis.Window.{RedisHashes, get_state}

-- A Redis server behind its client, with a store of type S: MULTI, the commands, EXEC at a time, and
-- the reads.
pub record RedisServer (F S : Type 0) : Type 0 where
  pub exec : ℕ → List (Command F) → S → Result (Unit {0}) × S
  pub reads : RedisReads S
  pub hashes : RedisHashes S

module _ {F S : Type 0} ⦃ops : FloatOps F⦄ (server : RedisServer F S) where
  -- tx.Exec, for a method that has come to it
  abbrev pub run_transaction : ℕ → Result (List (Command F)) → S → Result (Unit {0}) × S
  run_transaction now panicked s = (panicked, s)
  run_transaction now (err e) s = (err e, s)
  run_transaction now (ok cs) s = server.exec now cs s

  unfoldable pub redis_state : StateOps F S
  redis_state = record {
    get = λ now fd keys version s. get_state server.hashes server.reads now fd keys version s;
    set = λ now fd keys v ts s. run_transaction now (set_primitive now fd keys v ts) s;
    append = λ now fd keys v ts s. run_transaction now (append now fd keys v ts) s;
    incr = λ now fd keys v ts s. run_transaction now (incr now fd keys v ts) s;
    update = λ now fd keys v ts s. run_transaction now (update now fd keys v ts) s;
    window_add = λ now fd keys v ts s. run_transaction now (window_add now fd keys v ts) s;
  }
