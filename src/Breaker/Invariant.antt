-- ===== src/Breaker/Invariant.antt =====
-- What holds of every record that internal/kernel/circuitbreaker.go keeps, after any steps.
use asscor.Prelude.{Bytes, ℕ, ◌≤◌, ◌<◌, arith, length, bytes_eq, Bool, true, false}
use asscor.Breaker.Defs.{Floats, Config, CircuitRecord, max_window_size, new_record}
use asscor.Breaker.Window.{
  IsTimed, IsTimed-later, add_entry, add_entry_bound, add_entry-IsTimed, add_entry_frame,
  prune_window, prune_window_bound, drop_old-IsTimed, stats,
}
use asscor.Breaker.Machine.{max_fails, record_state, record_failure, record_success}

module _ {F : Type 0} (cfg : Config F) where
  -- A record at a time: at most 1000 entries, in the order of time and none later; a last change
  -- that is not later; and fewer counted failures than the maximum that reopens.
  pub record IsSound (now : ℕ) (r : CircuitRecord) : Type 0 where
    pub bounded : length r.window ≤ max_window_size
    pub timed : IsTimed 0 now r.window
    pub changed : r.last_state_change ≤ now
    pub counted : r.half_open_fails < max_fails cfg

  pub later-IsSound :
      (now later : ℕ) (r : CircuitRecord) → now ≤ later → IsSound now r → IsSound later r
  later-IsSound now later r h v = record {
    bounded = v.bounded;
    timed = IsTimed-later 0 now later r.window h v.timed;
    changed = omega arith;
    counted = v.counted;
  }

  pub new_record-IsSound : (now : ℕ) → IsSound now new_record
  unfolding new_record max_fails
  new_record-IsSound now = ground arith

  add_entry-IsSound :
      (before now : ℕ) (success : Bool) (r : CircuitRecord)
      → before ≤ now
      → IsSound before r
      → IsSound now (add_entry now success r)
  add_entry-IsSound before now success r h v =
      let frame = add_entry_frame now success r in
      record {
        bounded = add_entry_bound now success r;
        timed = add_entry-IsTimed 0 before now success r h v.timed;
        changed = ground (arith, frame);
        counted = ground (arith, frame);
      }

  prune_window-IsSound :
      (size at now : ℕ) (r : CircuitRecord) → IsSound now r → IsSound now (prune_window size at r)
  unfolding prune_window
  prune_window-IsSound size at now r v = record {
    bounded = prune_window_bound size at max_window_size r v.bounded;
    timed = drop_old-IsTimed size at 0 now r.window v.timed;
    changed = v.changed;
    counted = v.counted;
  }

  pub stats-IsSound :
      (size at now : ℕ) (r : CircuitRecord) → IsSound now r → IsSound now (stats size at r).0
  unfolding stats
  stats-IsSound size at now r v = prune_window-IsSound size at now r v

  pub record_state-IsSound :
      (k : Bytes) (now : ℕ) (r : CircuitRecord)
      → IsSound now r
      → IsSound now (record_state cfg k now r).0
  unfolding record_state
  record_state-IsSound k now r v = ground arith

  pub record_failure-IsSound :
      (fl : Floats F) (k : Bytes) (before now : ℕ) (r : CircuitRecord)
      → before ≤ now
      → IsSound before r
      → IsSound now (record_failure fl cfg k now r).0
  unfolding record_failure
  record_failure-IsSound fl k before now r h v =
      let a = add_entry now false r in
      let v' = add_entry-IsSound before now false r h v in
      ground (arith, v', stats-IsSound cfg.window_size now now a v', max_positive)
    where
      max_positive : 0 < max_fails cfg
      max_positive = omega (arith, v.counted)

  pub record_success-IsSound :
      (k : Bytes) (before now : ℕ) (r : CircuitRecord)
      → before ≤ now
      → IsSound before r
      → IsSound now (record_success cfg k now r).0
  unfolding record_success
  record_success-IsSound k before now r h v =
      let a = add_entry now true r in
      let v' =
        prune_window-IsSound cfg.window_size now now a (add_entry-IsSound before now true r h v) in
      ground (arith, v')
