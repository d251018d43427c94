-- ===== src/Breaker/Atomic/Alone.antt =====
-- A call of internal/kernel/circuitbreaker.go that no other call interrupts does to its record what
-- the operations of Machine do, which take a call as a whole.
use asscor.Prelude.{ℕ, List, zero, suc}
use asscor.Breaker.Defs.{CircuitState, Floats, Config, CircuitRecord, WindowEntry}
use asscor.Breaker.Atomic.{Pc, advance}

module _ {F : Type 0} (fl : Floats F) (cfg : Config F) where
  -- A number of steps of one call, all at one time.
  unfoldable pub alone : ℕ → ℕ → Pc × CircuitRecord → Pc × CircuitRecord
  unfolding advance
  alone zero now at = at
  alone (suc n) now at = alone n now (advance fl cfg now at.0 at.1)

  abbrev of_fields : CircuitState → ℕ → List WindowEntry → ℕ → CircuitRecord
  of_fields st last w n = record {
    state = st;
    last_state_change = last;
    window = w;
    half_open_fails = n;
  }
