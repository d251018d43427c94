-- ===== src/Breaker/Transitions.antt =====
-- When a record of internal/kernel/circuitbreaker.go changes its state.
use asscor.Prelude.{
  Bytes, ℕ, suc, ◌+◌, ◌≤◌, ◌≡◌, ◌↔◌, ◌⊎◌, Bool, false, List, [], arith, leb, if◌then◌else◌, keep,
  bytes_eq, lookup-insert_self, ap,
}
use mathlib.Core.List.{append-nil}
use asscor.Breaker.Defs.{
  closed, open_state, half_open, Floats, Config, CircuitRecord, CircuitBreaker, Event, opened,
  reopened,
}
use asscor.Breaker.Window.{
  add_entry, count_failures, count_successes, IsTimed, is_recent, add_entry-IsTimed, stats_recent,
  add_entry_frame, stats_frame, prune_window,
}
use asscor.Breaker.Keys.{key}
use asscor.Breaker.Machine.{
  announce, record_state, must_open, max_fails, record_failure, record_success,
}
use asscor.Breaker.Calls.{or_new, refused, returned, get_record, put_record, state, intercept}

module _ {F : Type 0} (fl : Floats F) (cfg : Config F) (k : Bytes) where
  -- A failure on a closed record whose window is in the order of time: the entries no older than
  -- the window size stay, the new failure among them, and the record opens exactly if the number
  -- and the ratio of failures among those say so; it then tells so.
  pub failure_closed :
      (t before now : ℕ) (r : CircuitRecord)
      → r.state ≡ closed
      → IsTimed t before r.window
      → before ≤ now
      → let recent = keep (is_recent cfg.window_size now) (add_entry now false r).window in
        let opens = must_open fl cfg (count_failures recent) (count_successes recent) in
        let (r', sent) = record_failure fl cfg k now r in
        (r'.window ≡ recent)
        × (r'.state ≡ (if opens then open_state else closed))
        × (r'.last_state_change ≡ (if opens then now else r.last_state_change))
        × (sent ≡ (if opens then announce cfg k opened open_state else []))
  unfolding record_failure
  failure_closed t before now r h o l =
      let a = add_entry now false r in
      let o' = add_entry-IsTimed t before now false r l o in
      let size = cfg.window_size in
      ground (
        arith,
        add_entry_frame now false r,
        stats_frame size now a,
        stats_recent size now t now a o',
      )

  -- In the half-open state a success closes the record, clears its window and its count; a failure
  -- that makes the count of failures reach the maximum opens it again and clears the count, and
  -- one that does not is only counted.
  pub half_open_result :
      (now : ℕ) (r : CircuitRecord)
      → r.state ≡ half_open
      → let (failed, sent) = record_failure fl cfg k now r in
        let reopens = leb (max_fails cfg) (suc r.half_open_fails) in
        (failed.state ≡ (if reopens then open_state else half_open))
        × (failed.half_open_fails ≡ (if reopens then 0 else suc r.half_open_fails))
        × (sent ≡ (if reopens then announce cfg k reopened open_state else []))
        × ((record_success cfg k now r).0.state ≡ closed)
        × ((record_success cfg k now r).0.window ≡ [])
        × ((record_success cfg k now r).0.half_open_fails ≡ 0)
  unfolding record_failure record_success add_entry prune_window
  half_open_result now r h = ground arith

module _ {F : Type 0} (fl : Floats F) where
  get_record-put_record :
      (k : Bytes) (r : CircuitRecord) (sent : List Event) (cb : CircuitBreaker F)
      → get_record k (put_record k r sent cb) ≡ r
  unfolding get_record put_record
  get_record-put_record k r sent cb = ap or_new (lookup-insert_self k r cb.records)

  abbrev Blocked : CircuitRecord → Config F → ℕ → Type 0
  Blocked r cfg now = (r.state ≡ open_state) × (now ≤ r.last_state_change + cfg.timeout)

  record_state-Blocked :
      (cfg : Config F) (k : Bytes) (now : ℕ) (r : CircuitRecord)
      → Blocked r cfg now
      → record_state cfg k now r ≡ (r, (open_state, []))
  unfolding record_state
  record_state-Blocked cfg k now r b = ground arith

  record_state-open :
      (cfg : Config F) (k : Bytes) (now : ℕ) (r : CircuitRecord)
      → (record_state cfg k now r).1.0 ≡ open_state
      → Blocked r cfg now
  unfolding record_state
  record_state-open cfg k now r e = ground arith

  -- The interceptor refuses a call exactly if the record of its key is open and its timeout has
  -- not passed, and otherwise returns what the handler returned.
  pub intercept_refuses :
      (service method : Bytes) (now later : ℕ) (result : Bool × Bytes) (cb : CircuitBreaker F)
      → let r = get_record (key service method) cb in
        let reply = (intercept fl service method now later result cb).1 in
        ((reply ≡ refused)
          ↔ ((r.state ≡ open_state) × (now ≤ r.last_state_change + cb.cfg.timeout)))
        × ((reply ≡ refused) ⊎ (reply ≡ returned result.0 result.1))
  unfolding intercept state
  intercept_refuses service method now later result cb =
      let k = key service method in
      let r = get_record k cb in
      (
        ground (arith, record_state-open cb.cfg k now r, record_state-Blocked cb.cfg k now r),
        ground arith,
      )

  -- A refused call leaves the record of its key and the events that were sent as they were: the
  -- handler's result is not recorded.
  pub refused_inert :
      (service method : Bytes) (now later : ℕ) (result : Bool × Bytes) (cb : CircuitBreaker F)
      → (intercept fl service method now later result cb).1 ≡ refused
      → let cb' = (intercept fl service method now later result cb).0 in
        (get_record (key service method) cb' ≡ get_record (key service method) cb)
        × (cb'.events ≡ cb.events)
  unfolding intercept state
  refused_inert service method now later result cb h =
      let k = key service method in
      let r = get_record k cb in
      ground (
        arith,
        record_state-open cb.cfg k now r,
        record_state-Blocked cb.cfg k now r,
        get_record-put_record k r [] cb,
        append-nil cb.events,
      )
