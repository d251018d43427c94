-- ===== src/Breaker/Calls.antt =====
-- The public calls of internal/kernel/circuitbreaker.go, on the map of records.
use asscor.Prelude.{
  Bytes, ℕ, ◌+◌, ◌*◌, Bool, true, false, ◌&&◌, List, [], ◌∷◌, ◌++◌, Option, none, some, ltb,
  if◌then◌else◌, lookup, insert, bytes_eq,
}
use asscor.Breaker.Defs.{
  CircuitState, closed, open_state, Floats, CircuitRecord, CircuitBreaker, Event, second,
  new_record,
}
use asscor.Breaker.Window.{stats}
use asscor.Breaker.Keys.{key}
use asscor.Breaker.Machine.{record_state, record_failure, record_success}

abbrev pub or_new : Option CircuitRecord → CircuitRecord
or_new none = new_record
or_new (some r) = r

abbrev pub admits : CircuitState → Bool
admits open_state = false
admits _ = true

abbrev pub is_closed : CircuitState → Bool
is_closed closed = true
is_closed _ = false

abbrev pub stale_threshold : ℕ
stale_threshold = 15 * 60 * second

-- The test of `cleanupStaleRecords`.
unfoldable pub is_stale : ℕ → CircuitRecord → Bool
is_stale now r = ltb (r.last_state_change + stale_threshold) now && is_closed r.state

-- The loop of `cleanupStaleRecords`.
unfoldable pub cleanup_records : ℕ → List (Bytes × CircuitRecord) → List (Bytes × CircuitRecord)
cleanup_records now [] = []
cleanup_records now ((k, r) ∷ m) =
    let rest = cleanup_records now m in if is_stale now r then rest else (k, r) ∷ rest

-- What the interceptor returns: its own error, or what the handler returned, with whether that was
-- no error.
pub data Reply : Type 0 where
  refused : Reply
  returned : Bool → Bytes → Reply

module _ {F : Type 0} where
  -- The record that `getRecord` returns.
  unfoldable pub get_record : Bytes → CircuitBreaker F → CircuitRecord
  get_record k cb = or_new (lookup k cb.records)

  -- The record of a key is in the map since `getRecord`; the operation has changed it and has sent
  -- some events.
  unfoldable pub put_record :
      Bytes → CircuitRecord → List Event → CircuitBreaker F → CircuitBreaker F
  put_record k r sent cb = record cb { records = insert k r cb.records; events = cb.events ++ sent }

  -- `state`, and `State`, which is `state` at `key service method`.
  unfoldable pub state : Bytes → ℕ → CircuitBreaker F → CircuitBreaker F × CircuitState
  unfolding get_record put_record
  state k now cb =
      let (r, (st, sent)) = record_state cb.cfg k now (get_record k cb) in
      (put_record k r sent cb, st)

  -- `Allow`.
  unfoldable pub allow : Bytes → Bytes → ℕ → CircuitBreaker F → CircuitBreaker F × Bool
  unfolding state
  allow service method now cb =
      let (cb', st) = state (key service method) now cb in (cb', admits st)

  -- `recordFailure`.
  unfoldable pub fail : Floats F → Bytes → ℕ → CircuitBreaker F → CircuitBreaker F
  unfolding get_record put_record
  fail fl k now cb =
      let (r, sent) = record_failure fl cb.cfg k now (get_record k cb) in put_record k r sent cb

  -- `recordSuccess`.
  unfoldable pub succeed : Bytes → ℕ → CircuitBreaker F → CircuitBreaker F
  unfolding get_record put_record
  succeed k now cb =
      let (r, sent) = record_success cb.cfg k now (get_record k cb) in put_record k r sent cb

  reset_found : Bytes → Option CircuitRecord → CircuitBreaker F → CircuitBreaker F
  reset_found k none cb = cb
  reset_found k (some r) cb = put_record k (record r { state = closed; window = [] }) [] cb

  -- `Reset`.
  unfoldable pub reset : Bytes → Bytes → CircuitBreaker F → CircuitBreaker F
  unfolding reset_found put_record
  reset service method cb = let k = key service method in reset_found k (lookup k cb.records) cb

  -- `Stats`.
  unfoldable pub read_stats :
      Bytes → Bytes → ℕ → CircuitBreaker F → CircuitBreaker F × (CircuitState × ℕ × ℕ)
  unfolding get_record put_record
  read_stats service method now cb =
      let k = key service method in
      let r = get_record k cb in
      let (r', (failures, successes)) = stats cb.cfg.window_size now r in
      (put_record k r' [] cb, (r.state, failures, successes))

  -- `cleanupStaleRecords`.
  unfoldable pub cleanup_stale_records : ℕ → CircuitBreaker F → CircuitBreaker F
  cleanup_stale_records now cb = record cb { records = cleanup_records now cb.records }

  -- The end of the interceptor: the handler's result is recorded.
  unfoldable pub finish_call : Floats F → Bytes → ℕ → Bool → CircuitBreaker F → CircuitBreaker F
  unfolding fail succeed
  finish_call fl k now true cb = succeed k now cb
  finish_call fl k now false cb = fail fl k now cb

  intercept_in :
      CircuitState
      → Floats F
      → Bytes
      → ℕ
      → Bool × Bytes
      → CircuitBreaker F
      → CircuitBreaker F × Reply
  intercept_in open_state fl k later (success, resp) cb = (cb, refused)
  intercept_in _ fl k later (success, resp) cb =
      (finish_call fl k later success cb, returned success resp)

  -- The function that `Interceptor` returns, around a handler that starts at one time, ends at
  -- another, and returns the given result if it is called; no other call comes in between.
  unfoldable pub intercept :
      Floats F → Bytes → Bytes → ℕ → ℕ → Bool × Bytes → CircuitBreaker F → CircuitBreaker F × Reply
  unfolding intercept_in
  intercept fl service method now later result cb =
      let k = key service method in
      let (cb', st) = state k now cb in intercept_in st fl k later result cb'

-- A call of the breaker, taken as a whole: a list of steps is a list of calls that do not overlap.
-- Handlers may run side by side, as `asks`, then later `fails` or `succeeds`; calls that overlap
-- themselves are in Atomic.
pub data Step : Type 0 where
  asks : Bytes → ℕ → Step
  fails : Bytes → ℕ → Step
  succeeds : Bytes → ℕ → Step
  resets : Bytes → Bytes → Step
  reads : Bytes → Bytes → ℕ → Step
  cleans : ℕ → Step

module _ {F : Type 0} (fl : Floats F) where
  unfoldable pub step : CircuitBreaker F → Step → CircuitBreaker F
  step cb (asks k now) = (state k now cb).0
  step cb (fails k now) = fail fl k now cb
  step cb (succeeds k now) = succeed k now cb
  step cb (resets service method) = reset service method cb
  step cb (reads service method now) = (read_stats service method now cb).0
  step cb (cleans now) = cleanup_stale_records now cb

  unfoldable pub run : CircuitBreaker F → List Step → CircuitBreaker F
  run cb [] = cb
  run cb (c ∷ cs) = run (step cb c) cs
