-- ===== src/Breaker/Atomic/Examples.antt =====
-- Runs of calls side by side of internal/kernel/circuitbreaker.go, and witnesses of its theorems.
use asscor.Prelude.{ℕ, ◌*◌, ◌≡◌, refl, false, List, [], ◌∷◌, arith, leb, All}
use asscor.Breaker.Defs.{closed, open_state, half_open, Floats, Config, CircuitRecord}
use asscor.Breaker.Window.{add_entry, prune_window, count_failures, count_successes}
use asscor.Breaker.Machine.{must_open}
use asscor.Breaker.Blocking.{IsOpenSince}
use asscor.Breaker.Atomic.{
  fail_write, swap, advance, World, of_state, of_failure, Move, starts, moves, advance_at, move,
  move_all,
}
use asscor.Breaker.Atomic.Blocks.{IsCalm, stays_open}

-- Fractions in place of `float64`.
abbrev fractions : Floats (ℕ × ℕ)
fractions = record {
  of_int = λ n. (n, 1);
  div = λ p q. (p.0 * q.1, p.1 * q.0);
  leb = λ p q. leb (p.0 * q.1) (q.0 * p.1);
  zero = (0, 1);
  half = (1, 2);
}

abbrev settings : Config (ℕ × ℕ)
settings = record {
  failure_ratio = (1, 2);
  min_requests = 1;
  timeout = 30;
  window_size = 60;
  on_state_change = false;
  extensions = false;
  half_open_max_fails = 2;
}

abbrev open_record : CircuitRecord
open_record = record {
  state = open_state;
  last_state_change = 120;
  window = [];
  half_open_fails = 0;
}

abbrev open_world : World
open_world = record { calls = []; shared = open_record }

-- A call asks for the state while another records a failure.
abbrev two_calls : List Move
two_calls =
    starts of_state
    ∷ moves 0 121
    ∷ starts of_failure
    ∷ moves 0 122
    ∷ moves 1 123
    ∷ moves 0 124
    ∷ moves 1 150
    ∷ []

stays_open_example :
    let v = move_all fractions settings two_calls open_world in
    All (IsCalm 120) v.calls × IsOpenSince 120 v.shared
stays_open_example =
    stays_open fractions settings 120 two_calls open_world
      (tt, (omega arith, (tt, (omega arith, (omega arith, (omega arith, (omega arith, tt))))))) tt
      (refl, refl)

-- A record that one failure opens at time 1000, and whose last change is the zero time until the call
-- that opened it writes it.
abbrev fresh_world : World
fresh_world = record {
  calls = [];
  shared = record { state = closed; last_state_change = 0; window = []; half_open_fails = 0 };
}

abbrev opened_world : World
opened_world =
    move_all fractions settings
      (starts of_failure
        ∷ moves 0 1000
        ∷ moves 0 1000
        ∷ moves 0 1000
        ∷ moves 0 1000
        ∷ moves 0 1000
        ∷ [])
      fresh_world

it_is_open : (opened_world.shared.state ≡ open_state) × (opened_world.calls ≡ fail_write ∷ [])
unfolding move_all move advance_at advance swap add_entry prune_window must_open count_failures
    count_successes
it_is_open = (refl, refl)

-- A call that asks for the state at that moment half-opens it at once.
half_opened_at_once :
    (move_all fractions settings
      (starts of_state ∷ moves 0 1000 ∷ moves 0 1000 ∷ moves 0 1000 ∷ moves 0 1000 ∷ [])
      opened_world).shared.state
    ≡ half_open
unfolding move_all move advance_at advance swap add_entry prune_window must_open count_failures
    count_successes
half_opened_at_once = refl
