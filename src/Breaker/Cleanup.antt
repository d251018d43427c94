-- ===== src/Breaker/Cleanup.antt =====
-- What the cleanup of internal/kernel/circuitbreaker.go forgets.
use asscor.Prelude.{
  Bytes, ℕ, ◌<◌, ◌≡◌, refl, ap, ◌∙◌, List, [], ◌∷◌, Option, none, some, arith, lookup, bytes_eq,
  bytes_beq_iff, IsDistinct, if◌then◌else◌, suc, Bool, true, false, length, ◌≤◌,
}
use asscor.Breaker.Defs.{
  closed, Floats, Config, CircuitRecord, CircuitBreaker, new_record, new_circuit_breaker,
}
use asscor.Breaker.Window.{
  add_entry, prune_window, prune_window_bound, stats, add_entry_frame, add_entry_grows,
  count_failures, count_successes, count_split,
}
use asscor.Breaker.Defs.{WindowEntry, Event}
use asscor.Breaker.Blocking.{cfg-step}
use asscor.Breaker.Calls.{
  Step, asks, fails, succeeds, resets, reads, cleans, step, run, state, fail, succeed, put_record,
}
use asscor.Prelude.{
  ◌+◌, All, AllValues, insert-AllValues, lookup-AllValues, insert-IsDistinct, Option-cases, inl,
  inr, subst, sym,
}
use asscor.Breaker.Machine.{record_failure, record_success, record_state, must_open}
use asscor.Breaker.Calls.{
  get_record, stale_threshold, is_stale, cleanup_records, cleanup_stale_records,
}

abbrev pub drop_if_stale : ℕ → Option CircuitRecord → Option CircuitRecord
drop_if_stale now none = none
drop_if_stale now (some r) = if is_stale now r then none else some r

cleanup_missing :
    (now : ℕ) (k : Bytes) (m : List (Bytes × CircuitRecord))
    → lookup k m ≡ none
    → lookup k (cleanup_records now m) ≡ none
unfolding cleanup_records lookup
cleanup_missing now k [] h = refl
cleanup_missing now k ((j, w) ∷ m) h = ground (arith, cleanup_missing now k m)

-- The cleanup drops from the map exactly the records that are closed and whose last change of state
-- is more than fifteen minutes ago, and leaves every other record as it is.
pub lookup-cleanup_records :
    (now : ℕ) (k : Bytes) (m : List (Bytes × CircuitRecord))
    → IsDistinct m
    → lookup k (cleanup_records now m) ≡ drop_if_stale now (lookup k m)
unfolding cleanup_records lookup
lookup-cleanup_records now k [] d = refl
lookup-cleanup_records now k ((j, w) ∷ m) d = ground (
  arith,
  bytes_beq_iff j k,
  lookup-cleanup_records now k m d.1,
  cleanup_missing now j m d.0,
  cleanup_missing now k m,
)

-- A record that has never changed its state, with at most a number of entries.
pub record Untouched (n : ℕ) (r : CircuitRecord) : Type 0 where
  pub still_closed : r.state ≡ closed
  pub never_changed : r.last_state_change ≡ 0
  pub few : length r.window ≤ n

new_record-Untouched : (n : ℕ) → Untouched n new_record
unfolding new_record
new_record-Untouched n = record { still_closed = refl; never_changed = refl; few = omega arith }

grown-Untouched : (n : ℕ) (r : CircuitRecord) → Untouched n r → Untouched (suc n) r
grown-Untouched n r u = record {
  still_closed = u.still_closed;
  never_changed = u.never_changed;
  few = omega (arith, u.few);
}

add_entry-Untouched :
    (n now : ℕ) (success : Bool) (r : CircuitRecord)
    → Untouched n r
    → Untouched (suc n) (add_entry now success r)
add_entry-Untouched n now success r u =
    let frame = add_entry_frame now success r in
    record {
      still_closed = ap (λ x. x.state) frame ∙ u.still_closed;
      never_changed = ap (λ x. x.last_state_change) frame ∙ u.never_changed;
      few = omega (arith, u.few, add_entry_grows now success r);
    }

prune_window-Untouched :
    (n size now : ℕ) (r : CircuitRecord) → Untouched n r → Untouched n (prune_window size now r)
unfolding prune_window
prune_window-Untouched n size now r u = record {
  still_closed = u.still_closed;
  never_changed = u.never_changed;
  few = prune_window_bound size now n r u.few;
}

module _ {F : Type 0} (fl : Floats F) where
  too_few :
      (cfg : Config F) (w : List WindowEntry)
      → length w < cfg.min_requests
      → must_open fl cfg (count_failures w) (count_successes w) ≡ false
  unfolding must_open
  too_few cfg w l = ground (arith, count_split w, l)

  -- A record with fewer entries than `MinRequests` cannot trip.
  failure-Untouched :
      (cfg : Config F) (k : Bytes) (n now : ℕ) (r : CircuitRecord)
      → suc n < cfg.min_requests
      → Untouched n r
      → Untouched (suc n) (record_failure fl cfg k now r).0
  unfolding record_failure stats
  failure-Untouched cfg k n now r l u =
      let a = add_entry-Untouched n now false r u in
      let b = prune_window-Untouched (suc n) cfg.window_size now (add_entry now false r) a in
      let t =
        too_few cfg (prune_window cfg.window_size now (add_entry now false r)).window
          (omega (arith, b.few, l)) in
      ground (arith, a.still_closed, b, t)

  success-Untouched :
      (cfg : Config F) (k : Bytes) (n now : ℕ) (r : CircuitRecord)
      → Untouched n r
      → Untouched (suc n) (record_success cfg k now r).0
  unfolding record_success
  success-Untouched cfg k n now r u =
      let b =
        prune_window-Untouched (suc n) cfg.window_size now (add_entry now true r)
          (add_entry-Untouched n now true r u) in
      ground (arith, b)

  state-Untouched :
      (cfg : Config F) (k : Bytes) (n now : ℕ) (r : CircuitRecord)
      → Untouched n r
      → Untouched n (record_state cfg k now r).0
  unfolding record_state
  state-Untouched cfg k n now r u = ground (arith, u)

  abbrev AllUntouched : ℕ → CircuitBreaker F → Type 0
  AllUntouched n cb = AllValues (Untouched n) cb.records × IsDistinct cb.records

  get_record-Untouched :
      (n : ℕ) (k : Bytes) (cb : CircuitBreaker F)
      → AllUntouched n cb
      → Untouched n (get_record k cb)
  unfolding get_record
  get_record-Untouched n k cb v = elim (Option-cases (lookup k cb.records)) [
    | inl e ↦ rw e (new_record-Untouched n)
    | inr (r, e) ↦ rw e (lookup-AllValues (Untouched n) k r cb.records v.0 e)
  ]

  put-AllUntouched :
      (n : ℕ) (k : Bytes) (r : CircuitRecord) (sent : List Event) (cb : CircuitBreaker F)
      → AllUntouched n cb
      → Untouched n r
      → AllUntouched n (put_record k r sent cb)
  unfolding put_record
  put-AllUntouched n k r sent cb v u =
      (insert-AllValues (Untouched n) k r cb.records v.0 u, insert-IsDistinct k r cb.records v.1)

  more-AllUntouched : (n : ℕ) (cb : CircuitBreaker F) → AllUntouched n cb → AllUntouched (suc n) cb
  more-AllUntouched n cb v = (each cb.records v.0, v.1)
    where
      each :
          (m : List (Bytes × CircuitRecord))
          → AllValues (Untouched n) m
          → AllValues (Untouched (suc n)) m
      each [] h = tt
      each ((k, r) ∷ m) h = (grown-Untouched n r h.0, each m h.1)

  -- A call that asks for a state or that records a result.
  abbrev pub IsCall : Step → Type 0
  IsCall (asks k now) = Unit {0}
  IsCall (fails k now) = Unit {0}
  IsCall (succeeds k now) = Unit {0}
  IsCall _ = ⊥

  step-AllUntouched :
      (n : ℕ) (cb : CircuitBreaker F) (c : Step)
      → IsCall c
      → suc n < cb.cfg.min_requests
      → AllUntouched n cb
      → AllUntouched (suc n) (step fl cb c)
  unfolding step state fail succeed
  step-AllUntouched n cb (asks k now) i l v = more-AllUntouched n (step fl cb (asks k now)) (
      put-AllUntouched n k _ [] cb v
        (state-Untouched cb.cfg k n now _ (get_record-Untouched n k cb v)))
  step-AllUntouched n cb (fails k now) i l v =
      put-AllUntouched (suc n) k _ [] cb (more-AllUntouched n cb v)
        (failure-Untouched cb.cfg k n now _ l (get_record-Untouched n k cb v))
  step-AllUntouched n cb (succeeds k now) i l v =
      put-AllUntouched (suc n) k _ [] cb (more-AllUntouched n cb v)
        (success-Untouched cb.cfg k n now _ (get_record-Untouched n k cb v))
  step-AllUntouched n cb (resets service method) i l v = absurd i
  step-AllUntouched n cb (reads service method now) i l v = absurd i
  step-AllUntouched n cb (cleans now) i l v = absurd i

  run-AllUntouched :
      (n : ℕ) (cb : CircuitBreaker F) (cs : List Step)
      → All IsCall cs
      → n + length cs < cb.cfg.min_requests
      → AllUntouched n cb
      → AllUntouched (n + length cs) (run fl cb cs)
  unfolding run
  run-AllUntouched n cb [] i l v = subst (λ k. AllUntouched k cb) (omega arith) v
  run-AllUntouched n cb (c ∷ cs) i l v =
      subst (λ k. AllUntouched k (run fl (step fl cb c) cs)) (omega arith)
        (run-AllUntouched (suc n) (step fl cb c) cs i.1
          (subst (λ (g : Config F). suc n + length cs < g.min_requests) (sym (cfg-step fl cb c))
            (omega (arith, l)))
          (step-AllUntouched n cb c i.0 (omega (arith, l)) v))

  all_dropped :
      (now : ℕ) (n : ℕ) (m : List (Bytes × CircuitRecord))
      → stale_threshold < now
      → AllValues (Untouched n) m
      → cleanup_records now m ≡ []
  unfolding cleanup_records is_stale
  all_dropped now n [] l v = refl
  all_dropped now n ((k, r) ∷ m) l v =
      ground (arith, all_dropped now n m l v.1, v.0.still_closed, v.0.never_changed, l)

  none_yet : (c : Config F) → AllUntouched 0 (new_circuit_breaker fl c)
  unfolding new_circuit_breaker
  none_yet c = (tt, tt)

  -- Of a new breaker that has taken fewer calls than `MinRequests`, on any keys and with any results, a
  -- cleanup more than fifteen minutes after the zero time deletes every record, however recent the
  -- failures in it are: a record that has never changed its state has the zero time as its last
  -- change. The calls are taken one after another.
  pub cleanup_forgets_failures :
      (c : Config F) (cs : List Step) (now : ℕ)
      → All IsCall cs
      → length cs < (new_circuit_breaker fl c).cfg.min_requests
      → stale_threshold < now
      → (cleanup_stale_records now (run fl (new_circuit_breaker fl c) cs)).records ≡ []
  unfolding cleanup_stale_records
  cleanup_forgets_failures c cs now i l t =
      all_dropped now (0 + length cs) (run fl (new_circuit_breaker fl c) cs).records t
        (run-AllUntouched 0 (new_circuit_breaker fl c) cs i (omega (arith, l)) (none_yet c)).0
