-- ===== src/Resilience/Counting.antt =====
-- How internal/resilience/circuit.go counts failures and trips.
use asscor.Prelude.{ℕ, suc, ◌+◌, ◌<◌, ◌≡◌, ◌≢◌, List, [], ◌∷◌, arith, length}
use asscor.Resilience.{
  closed, open_state, Breaker, Call, fails, succeeds, asks, resets, new_breaker, record_failure,
  record_success, allow, reset, step, run,
}

-- A closed breaker has counted fewer failures than its threshold, and a breaker that is not closed
-- has tripped.
pub record IsCounted (b : Breaker) : Type 0 where
  pub positive : 0 < b.threshold
  pub closed_below : b.state ≡ closed → b.failures < b.threshold
  pub tripped : b.state ≢ closed → 0 < b.total_trips

new_breaker-IsCounted : IsCounted new_breaker
unfolding new_breaker
new_breaker-IsCounted = ground arith

step-IsCounted : (b : Breaker) (c : Call) → IsCounted b → IsCounted (step b c).0
unfolding step record_failure record_success allow reset
step-IsCounted b (fails now) v = ground arith
step-IsCounted b succeeds v = ground arith
step-IsCounted b (asks now) v = ground arith
step-IsCounted b resets v = ground arith

run-IsCounted : (b : Breaker) (cs : List Call) → IsCounted b → IsCounted (run b cs)
unfolding run
run-IsCounted b [] v = v
run-IsCounted b (c ∷ cs) v = run-IsCounted (step b c).0 cs (step-IsCounted b c v)

-- After any calls on a new breaker it has fewer failures than its threshold while it is closed, and
-- has tripped at least once if it is not.
pub run-new-IsCounted : (cs : List Call) → IsCounted (run new_breaker cs)
run-new-IsCounted cs = run-IsCounted new_breaker cs new_breaker-IsCounted

abbrev pub failing : List ℕ → List Call
failing [] = []
failing (t ∷ ts) = fails t ∷ failing ts

failing_closed :
    (b : Breaker) (ts : List ℕ)
    → b.state ≡ closed
    → b.failures + length ts < b.threshold
    → ((run b (failing ts)).state ≡ closed)
      × ((run b (failing ts)).failures ≡ b.failures + length ts)
      × ((run b (failing ts)).total_trips ≡ b.total_trips)
      × ((run b (failing ts)).threshold ≡ b.threshold)
unfolding run step record_failure
failing_closed b [] h l = ground arith
failing_closed b (t ∷ ts) h l = ground (arith, failing_closed (step b (fails t)).0 ts)

-- Failures in a row, at times however far apart, trip a closed breaker with the one that makes the
-- count reach the threshold, and with no earlier one; that failure's time is the opening time.
pub trips_at_threshold :
    (b : Breaker) (ts : List ℕ) (now : ℕ)
    → b.state ≡ closed
    → suc (b.failures + length ts) ≡ b.threshold
    → let before = run b (failing ts) in
      let after = record_failure now before in
      (before.state ≡ closed)
      × (before.total_trips ≡ b.total_trips)
      × (after.state ≡ open_state)
      × (after.opened_at ≡ now)
      × (after.total_trips ≡ suc b.total_trips)
unfolding record_failure
trips_at_threshold b ts now h e = ground (arith, failing_closed b ts)
