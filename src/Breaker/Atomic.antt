-- ===== src/Breaker/Atomic.antt =====
-- internal/kernel/circuitbreaker.go with its calls side by side, on the record of one key: a call is
-- cut at each load, compare-and-swap, locked block and unlocked read or write of its own, and the
-- calls take these steps in any order, each at the time that it reads. The map and the notifications
-- are in Calls; here the record that `getRecord` returned stays the record of the key.
pub mod Alone
pub mod Blocks
pub mod Examples
use asscor.Prelude.{
  ℕ, zero, suc, ◌+◌, Bool, true, false, List, [], ◌∷◌, ◌++◌, ltb, leb, if◌then◌else◌,
}
use asscor.Breaker.Defs.{CircuitState, closed, open_state, half_open, Floats, Config, CircuitRecord}
use asscor.Breaker.Window.{add_entry, prune_window, count_failures, count_successes}
use asscor.Breaker.Machine.{must_open, max_fails}

-- Where a call stands, with what it has read. The comments name the statement that comes next.
pub data Pc : Type 0 where
  -- `state`: the load; the locked read of the last change; the test of its age; the swap; the write.
  state_load state_read : Pc
  state_test : ℕ → Pc
  state_swap state_write : Pc
  answered : CircuitState → Pc
  -- `recordFailure`: `addEntry`; the load; `pruneWindow` and the count in `stats`; the swap and the
  -- write. In the half-open state: the read and the write of `halfOpenFails++`; the test; the swap;
  -- the reset of the count.
  fail_add fail_load fail_prune fail_count fail_swap fail_read : Pc
  fail_store : ℕ → Pc
  fail_test fail_reswap fail_zero fail_write : Pc
  -- `recordSuccess`: `addEntry`; `pruneWindow`; the load; the swap; the reset of the count; the last
  -- locked block.
  success_add success_prune success_load success_swap success_zero success_clear : Pc
  -- `Reset`: the store; the locked block.
  reset_store reset_clear : Pc
  finished : Pc

-- `CompareAndSwapInt32`.
abbrev pub same_state : CircuitState → CircuitState → Bool
same_state closed closed = true
same_state open_state open_state = true
same_state half_open half_open = true
same_state _ _ = false

unfoldable pub swap : CircuitState → CircuitState → Pc → Pc → CircuitRecord → Pc × CircuitRecord
swap old new won lost r =
    if same_state r.state old then (won, record r { state = new }) else (lost, r)

abbrev pub after_load : CircuitState → Pc
after_load open_state = state_read
after_load st = answered st

abbrev pub after_fail_load : CircuitState → Pc
after_fail_load closed = fail_prune
after_fail_load half_open = fail_read
after_fail_load open_state = finished

abbrev pub after_success_load : CircuitState → Pc
after_success_load half_open = success_swap
after_success_load _ = finished

-- The calls that run, and the record they share.
pub record World : Type 0 where
  pub calls : List Pc
  pub shared : CircuitRecord

pub data Kind : Type 0 where
  of_state of_failure of_success of_reset : Kind

-- The first step of a call.
abbrev pub first_step : Kind → Pc
first_step of_state = state_load
first_step of_failure = fail_add
first_step of_success = success_add
first_step of_reset = reset_store

-- A call starts, or the one at a place takes a step.
pub data Move : Type 0 where
  starts : Kind → Move
  moves : ℕ → ℕ → Move

abbrev pub place : Pc × CircuitRecord → List Pc → List Pc × CircuitRecord
place (pc, r) pcs = (pc ∷ pcs, r)

abbrev pub behind : Pc → List Pc × CircuitRecord → List Pc × CircuitRecord
behind pc (pcs, r) = (pc ∷ pcs, r)

abbrev pub world_of : List Pc × CircuitRecord → World
world_of (pcs, r) = record { calls = pcs; shared = r }

module _ {F : Type 0} (fl : Floats F) (cfg : Config F) where
  -- One step of a call.
  unfoldable pub advance : ℕ → Pc → CircuitRecord → Pc × CircuitRecord
  unfolding swap
  advance now state_load r = (after_load r.state, r)
  advance now state_read r = (state_test r.last_state_change, r)
  advance now (state_test last) r =
      (if ltb (last + cfg.timeout) now then state_swap else answered open_state, r)
  advance now state_swap r = swap open_state half_open state_write (answered half_open) r
  advance now state_write r = (answered half_open, record r { last_state_change = now })
  advance now (answered st) r = (answered st, r)
  advance now fail_add r = (fail_load, add_entry now false r)
  advance now fail_load r = (after_fail_load r.state, r)
  advance now fail_prune r = (fail_count, prune_window cfg.window_size now r)
  advance now fail_count r = (
    if must_open fl cfg (count_failures r.window) (count_successes r.window)
        then fail_swap
        else finished,
    r,
  )
  advance now fail_swap r = swap closed open_state fail_write finished r
  advance now fail_read r = (fail_store r.half_open_fails, r)
  advance now (fail_store n) r = (fail_test, record r { half_open_fails = suc n })
  advance now fail_test r =
      (if leb (max_fails cfg) r.half_open_fails then fail_reswap else finished, r)
  advance now fail_reswap r = swap half_open open_state fail_zero finished r
  advance now fail_zero r = (fail_write, record r { half_open_fails = 0 })
  advance now fail_write r = (finished, record r { last_state_change = now })
  advance now success_add r = (success_prune, add_entry now true r)
  advance now success_prune r = (success_load, prune_window cfg.window_size now r)
  advance now success_load r = (after_success_load r.state, r)
  advance now success_swap r = swap half_open closed success_zero finished r
  advance now success_zero r = (success_clear, record r { half_open_fails = 0 })
  advance now success_clear r = (finished, record r { window = []; last_state_change = now })
  advance now reset_store r = (reset_clear, record r { state = closed })
  advance now reset_clear r = (finished, record r { window = [] })
  advance now finished r = (finished, r)

  unfoldable pub advance_at : ℕ → ℕ → List Pc → CircuitRecord → List Pc × CircuitRecord
  unfolding advance
  advance_at n now [] r = ([], r)
  advance_at zero now (pc ∷ pcs) r = place (advance now pc r) pcs
  advance_at (suc n) now (pc ∷ pcs) r = behind pc (advance_at n now pcs r)

  unfoldable pub move : Move → World → World
  unfolding advance_at
  move (starts k) w = record w { calls = first_step k ∷ w.calls }
  move (moves n now) w = world_of (advance_at n now w.calls w.shared)

  unfoldable pub move_all : List Move → World → World
  unfolding move
  move_all [] w = w
  move_all (a ∷ rest) w = move_all rest (move a w)
