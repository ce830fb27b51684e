-- ===== src/Errors.antt =====
-- Go's `(value, error)` results, and the errors that the program makes or passes on.

pub data GoError : Type 0 where
  -- redis.Nil; errors.New("redis is not alive")
  redis_nil redis_not_alive : GoError
  -- "msg queue exceed"; "node is not alive when send signal"
  queue_full node_not_alive : GoError
  -- an error that a library returned
  library : GoError

pub data Result {ℓ} (A : Type ℓ) : Type ℓ where
  ok : A → Result A
  err : GoError → Result A
