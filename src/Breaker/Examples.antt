-- ===== src/Breaker/Examples.antt =====
-- Runs of the kernel's circuit breaker, and the theorems at concrete records.
use asscor.Prelude.{
  Bytes, codes, cut, ℕ, ◌*◌, ◌≡◌, refl, Bool, true, false, [], ◌∷◌, arith, leb, bytes_eq,
}
use asscor.Breaker.Defs.{
  closed, open_state, half_open, Floats, Config, WindowEntry, CircuitRecord, CircuitBreaker, opened,
  notified, executed, new_circuit_breaker,
}
use asscor.Breaker.Keys.{split_key}
use asscor.Breaker.Machine.{announce, fire_breaker_extension}
use asscor.Breaker.Calls.{fails, run, cleanup_stale_records}
use asscor.Breaker.Cleanup.{cleanup_forgets_failures}

-- Fractions in place of `float64`.
abbrev fractions : Floats (ℕ × ℕ)
fractions = record {
  of_int = λ n. (n, 1);
  div = λ p q. (p.0 * q.1, p.1 * q.0);
  leb = λ p q. leb (p.0 * q.1) (q.0 * p.1);
  zero = (0, 1);
  half = (1, 2);
}

abbrev settings : Config (ℕ × ℕ)
settings = record {
  failure_ratio = (1, 2);
  min_requests = 2;
  timeout = 30;
  window_size = 60;
  on_state_change = true;
  extensions = true;
  half_open_max_fails = 2;
}

abbrev scan : Bytes
scan = codes "scan"

abbrev run_now : Bytes
run_now = codes "run"

abbrev scan_run : Bytes
scan_run = codes "scan/run"

abbrev entry : ℕ → Bool → WindowEntry
entry t ok = record { timestamp = t; success = ok }

abbrev one_success : CircuitRecord
one_success = record {
  state = closed;
  last_state_change = 0;
  window = entry 5 false ∷ entry 100 true ∷ [];
  half_open_fails = 0;
}

announced :
    announce settings scan_run opened open_state
    ≡ notified scan_run opened ∷ executed scan run_now open_state ∷ []
unfolding announce fire_breaker_extension split_key cut
announced = refl

abbrev on_trial : CircuitRecord
on_trial = record {
  state = half_open;
  last_state_change = 130;
  window = entry 100 true ∷ [];
  half_open_fails = 1;
}

abbrev blocked : CircuitRecord
blocked = record { state = open_state; last_state_change = 120; window = []; half_open_fails = 0 }

abbrev blocking : CircuitBreaker (ℕ × ℕ)
blocking = record { records = (scan_run, blocked) ∷ []; cfg = settings; events = [] }

-- A failure, one nanosecond before the cleanup; two would trip.
cleanup_forgets_failures_example :
    (cleanup_stale_records 99000000000001 (
      run fractions
        (new_circuit_breaker fractions settings)
        (fails scan_run 99000000000000 ∷ []))).records
    ≡ []
unfolding new_circuit_breaker
cleanup_forgets_failures_example =
    cleanup_forgets_failures fractions settings (fails scan_run 99000000000000 ∷ []) 99000000000001
      (tt, tt) (omega arith) (omega arith)
