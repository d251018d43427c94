-- ===== src/Breaker/Machine.antt =====
-- The operations of internal/kernel/circuitbreaker.go. The functions whose names begin with
-- `record_` work on the record of one key and return the events that they send.
use asscor.Prelude.{
  Bytes, ℕ, suc, ◌+◌, Bool, true, false, ◌&&◌, List, [], ◌∷◌, ◌++◌, ltb, leb, ◌==◌, if◌then◌else◌,
  bytes_eq,
}
use asscor.Breaker.Defs.{
  CircuitState, closed, open_state, half_open, Floats, Config, CircuitRecord, Label, to_half_open,
  opened, reopened, to_closed, Event, notified, executed,
}
use asscor.Breaker.Window.{add_entry, prune_window, stats}
use asscor.Breaker.Keys.{split_key}

module _ {F : Type 0} where
  -- `fireBreakerExtension`.
  unfoldable pub fire_breaker_extension : Config F → Bytes → CircuitState → List Event
  fire_breaker_extension cfg k st =
      let (service, method) = split_key k in
      if cfg.extensions then executed service method st ∷ [] else []

  -- `OnStateChange`, then `fireBreakerExtension`.
  unfoldable pub announce : Config F → Bytes → Label → CircuitState → List Event
  announce cfg k label st =
      (if cfg.on_state_change then notified k label ∷ [] else []) ++ fire_breaker_extension cfg k st

  state_in :
      CircuitState
      → Config F
      → Bytes
      → ℕ
      → CircuitRecord
      → CircuitRecord × (CircuitState × List Event)
  state_in open_state cfg k now r =
      if ltb (r.last_state_change + cfg.timeout) now
      then (
        record r { state = half_open; last_state_change = now },
        (half_open, announce cfg k to_half_open half_open),
      )
      else (r, (open_state, []))
  state_in st cfg k now r = (r, (st, []))

  -- `state`, on the record of the key.
  unfoldable pub record_state :
      Config F → Bytes → ℕ → CircuitRecord → CircuitRecord × (CircuitState × List Event)
  unfolding state_in
  record_state cfg k now r = state_in r.state cfg k now r

  -- The two tests of `recordFailure` in the closed state.
  unfoldable pub must_open : Floats F → Config F → ℕ → ℕ → Bool
  must_open fl cfg failures successes =
      let total = failures + successes in
      leb cfg.min_requests total
      && ltb 0 total
      && fl.leb cfg.failure_ratio (fl.div (fl.of_int failures) (fl.of_int total))

  unfoldable pub max_fails : Config F → ℕ
  max_fails cfg = if cfg.half_open_max_fails == 0 then 3 else cfg.half_open_max_fails

  failure_in :
      CircuitState → Floats F → Config F → Bytes → ℕ → CircuitRecord → CircuitRecord × List Event
  failure_in closed fl cfg k now r =
      let (r', (failures, successes)) = stats cfg.window_size now r in
      if must_open fl cfg failures successes
      then (
        record r' { state = open_state; last_state_change = now },
        announce cfg k opened open_state,
      )
      else (r', [])
  failure_in half_open fl cfg k now r =
      let fails = suc r.half_open_fails in
      if leb (max_fails cfg) fails
      then (
        record r { state = open_state; last_state_change = now; half_open_fails = 0 },
        announce cfg k reopened open_state,
      )
      else (record r { half_open_fails = fails }, [])
  failure_in open_state fl cfg k now r = (r, [])

  -- `recordFailure`, on the record of the key.
  unfoldable pub record_failure :
      Floats F → Config F → Bytes → ℕ → CircuitRecord → CircuitRecord × List Event
  unfolding failure_in
  record_failure fl cfg k now r =
      let r' = add_entry now false r in failure_in r'.state fl cfg k now r'

  success_in : CircuitState → Config F → Bytes → ℕ → CircuitRecord → CircuitRecord × List Event
  success_in half_open cfg k now r = (
    record r { state = closed; last_state_change = now; window = []; half_open_fails = 0 },
    announce cfg k to_closed closed,
  )
  success_in st cfg k now r = (r, [])

  -- `recordSuccess`, on the record of the key.
  unfoldable pub record_success : Config F → Bytes → ℕ → CircuitRecord → CircuitRecord × List Event
  unfolding success_in
  record_success cfg k now r =
      let r' = prune_window cfg.window_size now (add_entry now true r) in
      success_in r'.state cfg k now r'
