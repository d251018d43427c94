-- ===== src/Breaker/Atomic/Blocks.antt =====
-- How long an open record of internal/kernel/circuitbreaker.go blocks where calls run side by side, and
-- what bounds its window then.
use asscor.Prelude.{
  ℕ, zero, suc, ◌+◌, ◌≤◌, ◌≡◌, refl, ◌∙◌, ap, Bool, true, false, List, [], ◌∷◌, if◌then◌else◌,
  arith, length, All,
}
use asscor.Breaker.Defs.{
  CircuitState, closed, open_state, half_open, Floats, Config, CircuitRecord, max_window_size,
}
use asscor.Breaker.Window.{add_entry, add_entry_bound, prune_window, prune_window_bound}
use asscor.Breaker.Blocking.{IsOpenSince}
use asscor.Breaker.Atomic.{
  Pc, state_load, state_read, state_test, state_swap, state_write, answered, fail_add, fail_load,
  fail_prune, fail_count, fail_swap, fail_read, fail_store, fail_test, fail_reswap, fail_zero,
  fail_write, success_add, success_prune, success_load, success_swap, success_zero, success_clear,
  reset_store, reset_clear, finished, swap, same_state, advance, World, Kind, of_state, of_failure,
  of_success, of_reset, first_step, Move, starts, moves, advance_at, move, move_all,
}

-- A call that has won no swap of which a write is still to come, that does not reset, and that has
-- read no older time of opening; and no state but open was answered.
abbrev pub IsCalm : ℕ → Pc → Type 0
IsCalm since (state_test last) = last ≡ since
IsCalm since state_swap = ⊥
IsCalm since state_write = ⊥
IsCalm since (answered st) = st ≡ open_state
IsCalm since fail_zero = ⊥
IsCalm since fail_write = ⊥
IsCalm since success_zero = ⊥
IsCalm since success_clear = ⊥
IsCalm since reset_store = ⊥
IsCalm since reset_clear = ⊥
IsCalm since _ = Unit

module _ {F : Type 0} (fl : Floats F) (cfg : Config F) (since : ℕ) where
  -- A step that leaves the record open and the call calm.
  abbrev Calm : Pc × CircuitRecord → Type 0
  Calm (pc, r) = IsCalm since pc × IsOpenSince since r

  add-open :
      (now : ℕ) (success : Bool) (r : CircuitRecord)
      → IsOpenSince since r
      → IsOpenSince since (add_entry now success r)
  unfolding add_entry
  add-open now success r h = h

  branch :
      (a b : Pc) (t : Bool) → IsCalm since a → IsCalm since b → IsCalm since (if t then a else b)
  branch a b true h k = h
  branch a b false h k = k

  lost_swap :
      (old new : CircuitState) (won lost : Pc) (r : CircuitRecord)
      → same_state open_state old ≡ false
      → IsCalm since lost
      → IsOpenSince since r
      → Calm (swap old new won lost r)
  unfolding swap
  lost_swap old new won lost r d c h = rw (ap (λ s. same_state s old) h.0 ∙ d) (c, h)

  advance-Calm :
      (now : ℕ) (pc : Pc) (r : CircuitRecord)
      → now ≤ since + cfg.timeout
      → IsCalm since pc
      → IsOpenSince since r
      → Calm (advance fl cfg now pc r)
  unfolding advance prune_window
  advance-Calm now state_load r l c h = rw h.0 (tt, (refl, h.1))
  advance-Calm now state_read r l c h = (h.1, h)
  advance-Calm now (state_test last) r l c h = ground (arith, c, h, l)
  advance-Calm now state_swap r l c h = absurd c
  advance-Calm now state_write r l c h = absurd c
  advance-Calm now (answered st) r l c h = (c, h)
  advance-Calm now fail_add r l c h = (tt, add-open now false r h)
  advance-Calm now fail_load r l c h = rw h.0 (tt, (refl, h.1))
  advance-Calm now fail_prune r l c h = (tt, h)
  advance-Calm now fail_count r l c h = (branch fail_swap finished _ tt tt, h)
  advance-Calm now fail_swap r l c h = lost_swap closed open_state fail_write finished r refl tt h
  advance-Calm now fail_read r l c h = (tt, h)
  advance-Calm now (fail_store n) r l c h = (tt, h)
  advance-Calm now fail_test r l c h = (branch fail_reswap finished _ tt tt, h)
  advance-Calm now fail_reswap r l c h =
      lost_swap half_open open_state fail_zero finished r refl tt h
  advance-Calm now fail_zero r l c h = absurd c
  advance-Calm now fail_write r l c h = absurd c
  advance-Calm now success_add r l c h = (tt, add-open now true r h)
  advance-Calm now success_prune r l c h = (tt, h)
  advance-Calm now success_load r l c h = rw h.0 (tt, (refl, h.1))
  advance-Calm now success_swap r l c h =
      lost_swap half_open closed success_zero finished r refl tt h
  advance-Calm now success_zero r l c h = absurd c
  advance-Calm now success_clear r l c h = absurd c
  advance-Calm now reset_store r l c h = absurd c
  advance-Calm now reset_clear r l c h = absurd c
  advance-Calm now finished r l c h = (tt, h)

  AllCalm : List Pc × CircuitRecord → Type 0
  AllCalm (pcs, r) = All (IsCalm since) pcs × IsOpenSince since r

  advance_at-AllCalm :
      (n now : ℕ) (pcs : List Pc) (r : CircuitRecord)
      → now ≤ since + cfg.timeout
      → All (IsCalm since) pcs
      → IsOpenSince since r
      → AllCalm (advance_at fl cfg n now pcs r)
  unfolding advance_at AllCalm
  advance_at-AllCalm n now [] r l c h = (tt, h)
  advance_at-AllCalm zero now (pc ∷ pcs) r l c h =
      let k = advance-Calm now pc r l c.0 h in ((k.0, c.1), k.1)
  advance_at-AllCalm (suc n) now (pc ∷ pcs) r l c h =
      let k = advance_at-AllCalm n now pcs r l c.1 h in ((c.0, k.0), k.1)

  -- No reset starts, and no step comes after the deadline.
  abbrev pub IsAllowed : Move → Type 0
  IsAllowed (starts of_reset) = ⊥
  IsAllowed (starts _) = Unit
  IsAllowed (moves n now) = now ≤ since + cfg.timeout

  allowed-IsCalm : (k : Kind) → IsAllowed (starts k) → IsCalm since (first_step k)
  allowed-IsCalm of_state h = tt
  allowed-IsCalm of_failure h = tt
  allowed-IsCalm of_success h = tt
  allowed-IsCalm of_reset h = absurd h

  -- Calls of `state`, `recordFailure` and `recordSuccess` run side by side on a record that is open since
  -- some time, their loads, swaps and locked blocks in any order. If at first no call has won a swap
  -- whose write is still to come, and none has read another time of opening, then up to the timeout
  -- the record stays open, with the same time of opening, and whatever `state` answers is open.
  pub stays_open :
      (ms : List Move) (w : World)
      → All IsAllowed ms
      → All (IsCalm since) w.calls
      → IsOpenSince since w.shared
      → let v = move_all fl cfg ms w in All (IsCalm since) v.calls × IsOpenSince since v.shared
  unfolding move_all move AllCalm
  stays_open [] w a c h = (c, h)
  stays_open (starts k ∷ ms) w a c h =
      stays_open ms (move fl cfg (starts k) w) a.1 (allowed-IsCalm k a.0, c) h
  stays_open (moves n now ∷ ms) w a c h =
      let k = advance_at-AllCalm n now w.calls w.shared a.0 c h in
      stays_open ms (move fl cfg (moves n now) w) a.1 k.0 k.1

-- The window is only ever changed under the lock.
module _ {F : Type 0} (fl : Floats F) (cfg : Config F) where
  abbrev IsBounded : CircuitRecord → Type 0
  IsBounded r = length r.window ≤ max_window_size

  swap-window :
      (old new : CircuitState) (won lost : Pc) (r : CircuitRecord)
      → (swap old new won lost r).1.window ≡ r.window
  unfolding swap
  swap-window old new won lost r = ground arith

  advance-IsBounded :
      (now : ℕ) (pc : Pc) (r : CircuitRecord) → IsBounded r → IsBounded (advance fl cfg now pc r).1
  unfolding advance
  advance-IsBounded now fail_add r h = add_entry_bound now false r
  advance-IsBounded now success_add r h = add_entry_bound now true r
  advance-IsBounded now fail_prune r h = prune_window_bound cfg.window_size now max_window_size r h
  advance-IsBounded now success_prune r h =
      prune_window_bound cfg.window_size now max_window_size r h
  advance-IsBounded now state_swap r h =
      omega
        (arith, h, ap length (swap-window open_state half_open state_write (answered half_open) r))
  advance-IsBounded now fail_swap r h =
      omega (arith, h, ap length (swap-window closed open_state fail_write finished r))
  advance-IsBounded now fail_reswap r h =
      omega (arith, h, ap length (swap-window half_open open_state fail_zero finished r))
  advance-IsBounded now success_swap r h =
      omega (arith, h, ap length (swap-window half_open closed success_zero finished r))
  advance-IsBounded now success_clear r h = omega arith
  advance-IsBounded now reset_clear r h = omega arith
  advance-IsBounded now state_load r h = h
  advance-IsBounded now state_read r h = h
  advance-IsBounded now (state_test last) r h = h
  advance-IsBounded now state_write r h = h
  advance-IsBounded now (answered st) r h = h
  advance-IsBounded now fail_load r h = h
  advance-IsBounded now fail_count r h = h
  advance-IsBounded now fail_read r h = h
  advance-IsBounded now (fail_store n) r h = h
  advance-IsBounded now fail_test r h = h
  advance-IsBounded now fail_zero r h = h
  advance-IsBounded now fail_write r h = h
  advance-IsBounded now success_load r h = h
  advance-IsBounded now success_zero r h = h
  advance-IsBounded now reset_store r h = h
  advance-IsBounded now finished r h = h

  advance_at-IsBounded :
      (n now : ℕ) (pcs : List Pc) (r : CircuitRecord)
      → IsBounded r
      → IsBounded (advance_at fl cfg n now pcs r).1
  unfolding advance_at
  advance_at-IsBounded n now [] r h = h
  advance_at-IsBounded zero now (pc ∷ pcs) r h = advance-IsBounded now pc r h
  advance_at-IsBounded (suc n) now (pc ∷ pcs) r h = advance_at-IsBounded n now pcs r h

  -- However calls of any kind run side by side, each at any point of it, the record never has more than
  -- 1000 entries in its window.
  pub window_bounded :
      (ms : List Move) (w : World)
      → length w.shared.window ≤ max_window_size
      → length (move_all fl cfg ms w).shared.window ≤ max_window_size
  unfolding move_all move
  window_bounded [] w h = h
  window_bounded (starts k ∷ ms) w h = window_bounded ms (move fl cfg (starts k) w) h
  window_bounded (moves n now ∷ ms) w h =
      window_bounded ms (move fl cfg (moves n now) w)
        (advance_at-IsBounded n now w.calls w.shared h)
