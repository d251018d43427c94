-- ===== src/Resilience/Examples.antt =====
-- Runs of the module breakers, and the theorems at concrete breakers.
use asscor.Prelude.{◌≡◌, ◌≢◌, refl, true, List, [], ◌∷◌, String, arith, string_eq}
use text.Mathlib.TextEquality.{eq_iff}
use asscor.Resilience.{
  Breaker, Call, closed, open_state, half_open, succeeds, asks, new_breaker, record_failure, step,
  run, answers,
}
use asscor.Resilience.Cooldown.{
  IsOpenSince, AllFalse, asking, cooldown_refuses, trial_stuck, late_success,
}
use asscor.Resilience.Counting.{failing, trips_at_threshold}

abbrev five_failures : List Call
five_failures = failing (10 ∷ 20 ∷ 30 ∷ 40 ∷ 50 ∷ [])

abbrev tripped : Breaker
tripped = record {
  state = open_state;
  failures = 5;
  successes = 0;
  last_failure = 50;
  opened_at = 50;
  total_trips = 1;
  threshold = 5;
  window = 300000000000;
  cooldown = 60000000000;
}

five_failures_trip : run new_breaker five_failures ≡ tripped
unfolding run step record_failure new_breaker
five_failures_trip = refl

cooldown_refuses_example :
    IsOpenSince 50 60000000000 (run tripped (asks 60 ∷ succeeds ∷ asks 70 ∷ []))
    × AllFalse (answers tripped (asks 60 ∷ succeeds ∷ asks 70 ∷ []))
cooldown_refuses_example =
    cooldown_refuses 50 60000000000 tripped (asks 60 ∷ succeeds ∷ asks 70 ∷ []) (refl, refl, refl)
      (omega arith)

trial_stuck_example :
    let b = run tripped (late_success 60000000051 60000000070) in
    (answers tripped (late_success 60000000051 60000000070) ≡ true ∷ [])
    × (b.state ≡ half_open)
    × (run b (asking (99000000000000 ∷ [])) ≡ b)
    × AllFalse (answers b (asking (99000000000000 ∷ [])))
trial_stuck_example =
    trial_stuck tripped 60000000051 60000000070 (99000000000000 ∷ []) refl (omega arith)
      (omega arith)

trips_at_threshold_example :
    let before = run new_breaker (failing (10 ∷ 20 ∷ 30 ∷ 40 ∷ [])) in
    let after = record_failure 50 before in
    (before.state ≡ closed)
    × (before.total_trips ≡ 0)
    × (after.state ≡ open_state)
    × (after.opened_at ≡ 50)
    × (after.total_trips ≡ 1)
unfolding new_breaker
trips_at_threshold_example =
    trips_at_threshold new_breaker (10 ∷ 20 ∷ 30 ∷ 40 ∷ []) 50 refl (omega arith)

trivy_ne_lynis : ◌≢◌ {A = String} "trivy" "lynis"
trivy_ne_lynis = ground (arith, eq_iff "trivy" "lynis")
