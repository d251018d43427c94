-- ===== src/Breaker/Reachable.antt =====
-- What holds of the whole map of internal/kernel/circuitbreaker.go after any steps.
use asscor.Prelude.{
  Bytes, ℕ, ◌≤◌, ◌≡◌, refl, List, [], ◌∷◌, none, arith, lookup, bytes_eq, AllValues,
  insert-AllValues, lookup-AllValues, IsDistinct, insert-IsDistinct, Option-cases, inl, inr,
  Bool-cases,
}
use asscor.Breaker.Defs.{Floats, Config, CircuitRecord, CircuitBreaker, Event, new_circuit_breaker}
use asscor.Breaker.Keys.{key}
use asscor.Breaker.Invariant.{
  IsSound, later-IsSound, new_record-IsSound, stats-IsSound, record_state-IsSound,
  record_failure-IsSound, record_success-IsSound,
}
use asscor.Breaker.Calls.{
  Step, asks, fails, succeeds, resets, reads, cleans, get_record, put_record, state, fail, succeed,
  reset, read_stats, cleanup_records, cleanup_stale_records, is_stale, step, run,
}

-- The clock after a step, and steps whose clocks do not run backwards.
abbrev pub clock : ℕ → Step → ℕ
clock t (asks k now) = now
clock t (fails k now) = now
clock t (succeeds k now) = now
clock t (resets service method) = t
clock t (reads service method now) = now
clock t (cleans now) = now

abbrev pub InOrder : ℕ → List Step → Type 0
InOrder t [] = Unit {0}
InOrder t (c ∷ cs) = (t ≤ clock t c) × InOrder (clock t c) cs

abbrev pub last_clock : ℕ → List Step → ℕ
last_clock t [] = t
last_clock t (c ∷ cs) = last_clock (clock t c) cs

module _ {F : Type 0} (fl : Floats F) (cfg : Config F) where
  -- Every record is sound, no key stands twice, and the configuration is as it was.
  pub record AllSound (now : ℕ) (cb : CircuitBreaker F) : Type 0 where
    pub configured : cb.cfg ≡ cfg
    pub sound : AllValues (IsSound cfg now) cb.records
    pub distinct : IsDistinct cb.records

  get_record-IsSound :
      (now : ℕ) (k : Bytes) (cb : CircuitBreaker F)
      → AllSound now cb
      → IsSound cfg now (get_record k cb)
  unfolding get_record
  get_record-IsSound now k cb v = elim (Option-cases (lookup k cb.records)) [
    | inl e ↦ rw e (new_record-IsSound cfg now)
    | inr (r, e) ↦ rw e (lookup-AllValues (IsSound cfg now) k r cb.records v.sound e)
  ]

  later-AllValues :
      (now later : ℕ) (m : List (Bytes × CircuitRecord))
      → now ≤ later
      → AllValues (IsSound cfg now) m
      → AllValues (IsSound cfg later) m
  later-AllValues now later [] h v = tt
  later-AllValues now later ((k, r) ∷ m) h v =
      (later-IsSound cfg now later r h v.0, later-AllValues now later m h v.1)

  later-AllSound :
      (now later : ℕ) (cb : CircuitBreaker F) → now ≤ later → AllSound now cb → AllSound later cb
  later-AllSound now later cb h v = record {
    configured = v.configured;
    sound = later-AllValues now later cb.records h v.sound;
    distinct = v.distinct;
  }

  put_record-AllSound :
      (now : ℕ) (k : Bytes) (r : CircuitRecord) (sent : List Event) (cb : CircuitBreaker F)
      → AllSound now cb
      → IsSound cfg now r
      → AllSound now (put_record k r sent cb)
  unfolding put_record
  put_record-AllSound now k r sent cb v w = record {
    configured = v.configured;
    sound = insert-AllValues (IsSound cfg now) k r cb.records v.sound w;
    distinct = insert-IsDistinct k r cb.records v.distinct;
  }

  cleanup-AllValues :
      (P : CircuitRecord → Type 0) (now : ℕ) (m : List (Bytes × CircuitRecord))
      → AllValues P m
      → AllValues P (cleanup_records now m)
  unfolding cleanup_records
  cleanup-AllValues P now [] v = tt
  cleanup-AllValues P now ((k, r) ∷ m) v = elim (Bool-cases (is_stale now r)) [
    | inl e ↦ rw e (cleanup-AllValues P now m v.1)
    | inr e ↦ rw e (v.0, cleanup-AllValues P now m v.1)
  ]

  cleanup-lookup-none :
      (now : ℕ) (j : Bytes) (m : List (Bytes × CircuitRecord))
      → lookup j m ≡ none
      → lookup j (cleanup_records now m) ≡ none
  unfolding cleanup_records lookup
  cleanup-lookup-none now j [] h = refl
  cleanup-lookup-none now j ((k, r) ∷ m) h = ground (arith, cleanup-lookup-none now j m)

  cleanup-IsDistinct :
      (now : ℕ) (m : List (Bytes × CircuitRecord))
      → IsDistinct m
      → IsDistinct (cleanup_records now m)
  unfolding cleanup_records
  cleanup-IsDistinct now [] v = tt
  cleanup-IsDistinct now ((k, r) ∷ m) v = elim (Bool-cases (is_stale now r)) [
    | inl e ↦ rw e (cleanup-IsDistinct now m v.1)
    | inr e ↦ rw e (cleanup-lookup-none now k m v.0, cleanup-IsDistinct now m v.1)
  ]

  reset-AllSound :
      (now : ℕ) (service method : Bytes) (cb : CircuitBreaker F)
      → AllSound now cb
      → AllSound now (reset service method cb)
  unfolding reset
  reset-AllSound now service method cb v =
      let k = key service method in
      elim (Option-cases (lookup k cb.records)) [
        | inl e ↦ rw e v
        | inr (r, e) ↦
            let w = lookup-AllValues (IsSound cfg now) k r cb.records v.sound e in
            rw e (
              put_record-AllSound now k _ [] cb v (record {
                bounded = omega arith;
                timed = omega arith;
                changed = w.changed;
                counted = w.counted;
              }))
      ]

  step-AllSound :
      (before : ℕ) (cb : CircuitBreaker F) (c : Step)
      → before ≤ clock before c
      → AllSound before cb
      → AllSound (clock before c) (step fl cb c)
  unfolding step state fail succeed read_stats cleanup_stale_records
  step-AllSound before cb (asks k now) h v =
      let v' = later-AllSound before now cb h v in
      put_record-AllSound now k _ _ cb v'
        (rw v.configured (record_state-IsSound cfg k now _ (get_record-IsSound now k cb v')))
  step-AllSound before cb (fails k now) h v =
      let v' = later-AllSound before now cb h v in
      put_record-AllSound now k _ _ cb v' (
        rw v.configured (
          record_failure-IsSound cfg fl k now now _ (omega arith) (get_record-IsSound now k cb v')))
  step-AllSound before cb (succeeds k now) h v =
      let v' = later-AllSound before now cb h v in
      put_record-AllSound now k _ _ cb v' (
        rw v.configured
          (record_success-IsSound cfg k now now _ (omega arith) (get_record-IsSound now k cb v')))
  step-AllSound before cb (resets service method) h v = reset-AllSound before service method cb v
  step-AllSound before cb (reads service method now) h v =
      let v' = later-AllSound before now cb h v in
      put_record-AllSound now _ _ [] cb v'
        (stats-IsSound cfg cb.cfg.window_size now now _ (get_record-IsSound now _ cb v'))
  step-AllSound before cb (cleans now) h v =
      let v' = later-AllSound before now cb h v in
      record {
        configured = v'.configured;
        sound = cleanup-AllValues (IsSound cfg now) now cb.records v'.sound;
        distinct = cleanup-IsDistinct now cb.records v'.distinct;
      }

  run-AllSound :
      (before : ℕ) (cb : CircuitBreaker F) (cs : List Step)
      → InOrder before cs
      → AllSound before cb
      → AllSound (last_clock before cs) (run fl cb cs)
  unfolding run
  run-AllSound before cb [] h v = v
  run-AllSound before cb (c ∷ cs) h v =
      run-AllSound (clock before c) (step fl cb c) cs h.1 (step-AllSound before cb c h.0 v)

new-AllSound :
    {F : Type 0} (fl : Floats F) (c : Config F)
    → let cb = new_circuit_breaker fl c in AllSound fl cb.cfg 0 cb
unfolding new_circuit_breaker
new-AllSound fl c = record { configured = refl; sound = tt; distinct = tt }

-- From a new breaker, after any calls that do not overlap, whose clocks do not run backwards: every record has at most 1000 entries, in the order of time, its
-- count of failed trials is below the maximum, no key stands twice, and the configuration is the
-- one that `NewCircuitBreaker` made.
pub run-new-AllSound :
    {F : Type 0} (fl : Floats F) (c : Config F) (cs : List Step)
    → InOrder 0 cs
    → let cb = new_circuit_breaker fl c in AllSound fl cb.cfg (last_clock 0 cs) (run fl cb cs)
run-new-AllSound fl c cs h =
    let cb = new_circuit_breaker fl c in run-AllSound fl cb.cfg 0 cb cs h (new-AllSound fl c)
