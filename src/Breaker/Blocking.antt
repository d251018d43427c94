-- ===== src/Breaker/Blocking.antt =====
-- How long internal/kernel/circuitbreaker.go keeps a key blocked, and that keys do not disturb one
-- another.
use asscor.Prelude.{
  Bytes, ℕ, ◌+◌, ◌≤◌, ◌≡◌, refl, sym, ap, ◌∙◌, ◌≢◌, List, [], ◌∷◌, Option, none, some, arith,
  lookup, lookup-insert, bytes_eq, bytes_beq_iff, Bool, false, Option-cases, Bool-cases, inl, inr,
  All, lookup-insert_ne, subst,
}
use asscor.Breaker.Defs.{
  open_state, Floats, Config, CircuitRecord, CircuitBreaker, Event, new_record,
}
use asscor.Breaker.Window.{add_entry, prune_window, stats}
use asscor.Breaker.Keys.{key}
use asscor.Breaker.Machine.{record_state, record_failure, record_success}
use asscor.Breaker.Calls.{
  Step, asks, fails, succeeds, resets, reads, cleans, refused, or_new, get_record, put_record,
  state, fail, succeed, reset, read_stats, is_stale, cleanup_records, cleanup_stale_records, step,
  run, intercept,
}
use asscor.Breaker.Transitions.{intercept_refuses}

-- The key whose record a step may change; a cleanup may drop any.
abbrev pub Touches : Bytes → Step → Type 0
Touches k (asks k' now) = k' ≡ k
Touches k (fails k' now) = k' ≡ k
Touches k (succeeds k' now) = k' ≡ k
Touches k (resets service method) = key service method ≡ k
Touches k (reads service method now) = key service method ≡ k
Touches k (cleans now) = Unit {0}

-- A step that neither resets a key nor asks for its state after a deadline.
abbrev pub Keeps : Bytes → ℕ → Step → Type 0
Keeps k deadline (asks k' now) = k' ≡ k → now ≤ deadline
Keeps k deadline (resets service method) = key service method ≢ k
Keeps k deadline (fails k' now) = Unit {0}
Keeps k deadline (succeeds k' now) = Unit {0}
Keeps k deadline (reads service method now) = Unit {0}
Keeps k deadline (cleans now) = Unit {0}

abbrev pub IsOpenSince : ℕ → CircuitRecord → Type 0
IsOpenSince since r = (r.state ≡ open_state) × (r.last_state_change ≡ since)

module _ {F : Type 0} where
  get_record-put_other :
      (k k' : Bytes) (r : CircuitRecord) (sent : List Event) (cb : CircuitBreaker F)
      → k' ≢ k
      → get_record k (put_record k' r sent cb) ≡ get_record k cb
  unfolding get_record put_record
  get_record-put_other k k' r sent cb h = ap or_new (lookup-insert_ne k' k r cb.records h)

  put_record_cases {ℓ} :
      (P : CircuitRecord → Type ℓ) (k k' : Bytes) (r : CircuitRecord) (sent : List Event)
      (cb : CircuitBreaker F)
      → P (get_record k cb)
      → (k' ≡ k → P r)
      → P (get_record k (put_record k' r sent cb))
  unfolding get_record put_record
  put_record_cases P k k' r sent cb h g = elim (Bool-cases (bytes_eq.beq k' k)) [
    | inl e ↦ rw (lookup-insert k' k r cb.records, e) (g ((bytes_beq_iff k' k).0 e))
    | inr e ↦ rw (lookup-insert k' k r cb.records, e) h
  ]

module _ {F : Type 0} (fl : Floats F) where
  -- A step that concerns another key leaves a key's record as it is.
  pub step_isolated :
      (k : Bytes) (cb : CircuitBreaker F) (c : Step)
      → ¬ Touches k c
      → get_record k (step fl cb c) ≡ get_record k cb
  unfolding step state fail succeed read_stats reset
  step_isolated k cb (asks k' now) h = get_record-put_other k k' _ [] cb h
  step_isolated k cb (fails k' now) h = get_record-put_other k k' _ [] cb h
  step_isolated k cb (succeeds k' now) h = get_record-put_other k k' _ [] cb h
  step_isolated k cb (resets service method) h =
      elim (Option-cases (lookup (key service method) cb.records)) [
        | inl e ↦ rw e refl
        | inr (r, e) ↦ rw e (get_record-put_other k _ _ [] cb h)
      ]
  step_isolated k cb (reads service method now) h = get_record-put_other k _ _ [] cb h
  step_isolated k cb (cleans now) h = absurd (h tt)

  cleanup-lookup_kept :
      (now : ℕ) (k : Bytes) (r : CircuitRecord) (m : List (Bytes × CircuitRecord))
      → lookup k m ≡ some r
      → is_stale now r ≡ false
      → lookup k (cleanup_records now m) ≡ some r
  unfolding cleanup_records lookup
  cleanup-lookup_kept now k r [] h s = cc
  cleanup-lookup_kept now k r ((j, w) ∷ m) h s = ground (arith, cleanup-lookup_kept now k r m)

  record_failure-open :
      (cfg : Config F) (k : Bytes) (now since : ℕ) (r : CircuitRecord)
      → IsOpenSince since r
      → IsOpenSince since (record_failure fl cfg k now r).0
  unfolding record_failure add_entry
  record_failure-open cfg k now since r h = ground arith

  record_success-open :
      (cfg : Config F) (k : Bytes) (now since : ℕ) (r : CircuitRecord)
      → IsOpenSince since r
      → IsOpenSince since (record_success cfg k now r).0
  unfolding record_success add_entry prune_window
  record_success-open cfg k now since r h = ground arith

  stats-open :
      (size now since : ℕ) (r : CircuitRecord)
      → IsOpenSince since r
      → IsOpenSince since (stats size now r).0
  unfolding stats
  stats-open size now since r h = h

  record_state-kept :
      (cfg : Config F) (k : Bytes) (now since : ℕ) (r : CircuitRecord)
      → IsOpenSince since r
      → now ≤ since + cfg.timeout
      → IsOpenSince since (record_state cfg k now r).0
  unfolding record_state
  record_state-kept cfg k now since r h l = ground arith

  cleanup-open :
      (k : Bytes) (now since : ℕ) (o : Option CircuitRecord) (m : List (Bytes × CircuitRecord))
      → lookup k m ≡ o
      → IsOpenSince since (or_new o)
      → IsOpenSince since (or_new (lookup k (cleanup_records now m)))
  unfolding is_stale new_record
  cleanup-open k now since none m e h = cc
  cleanup-open k now since (some r) m e h = rw (cleanup-lookup_kept now k r m e (ground arith)) h

  step-open :
      (k : Bytes) (since : ℕ) (cb : CircuitBreaker F) (c : Step)
      → IsOpenSince since (get_record k cb)
      → Keeps k (since + cb.cfg.timeout) c
      → IsOpenSince since (get_record k (step fl cb c))
  unfolding step state fail succeed read_stats reset cleanup_stale_records
  step-open k since cb (asks k' now) h l = put_record_cases (IsOpenSince since) k k' _ [] cb h λ e.
      record_state-kept cb.cfg k' now since _
        (subst (λ j. IsOpenSince since (get_record j cb)) (sym e) h) (l e)
  step-open k since cb (fails k' now) h l = put_record_cases (IsOpenSince since) k k' _ [] cb h λ e.
      record_failure-open cb.cfg k' now since _
        (subst (λ j. IsOpenSince since (get_record j cb)) (sym e) h)
  step-open k since cb (succeeds k' now) h l =
      put_record_cases (IsOpenSince since) k k' _ [] cb h λ e.
        record_success-open cb.cfg k' now since _
          (subst (λ j. IsOpenSince since (get_record j cb)) (sym e) h)
  step-open k since cb (resets service method) h l =
      rw (step_isolated k cb (resets service method) l) h
  step-open k since cb (reads service method now) h l =
      let j = key service method in
      put_record_cases (IsOpenSince since) k j (stats cb.cfg.window_size now (get_record j cb)).0 []
        cb h
        λ e.
          stats-open cb.cfg.window_size now since _
            (subst (λ j. IsOpenSince since (get_record j cb)) (sym e) h)
  step-open k since cb (cleans now) h l = cleanup-open k now since _ cb.records refl h

  pub cfg-step : (cb : CircuitBreaker F) (c : Step) → (step fl cb c).cfg ≡ cb.cfg
  unfolding step state fail succeed read_stats reset cleanup_stale_records put_record
  cfg-step cb (asks k now) = refl
  cfg-step cb (resets service method) = ground arith
  cfg-step cb _ = refl

  open_run :
      (k : Bytes) (since : ℕ) (cb : CircuitBreaker F) (cs : List Step)
      → IsOpenSince since (get_record k cb)
      → All (Keeps k (since + cb.cfg.timeout)) cs
      → IsOpenSince since (get_record k (run fl cb cs)) × ((run fl cb cs).cfg ≡ cb.cfg)
  unfolding run
  open_run k since cb [] h l = (h, refl)
  open_run k since cb (c ∷ cs) h l =
      let e = cfg-step cb c in
      let r =
        open_run k since (step fl cb c) cs (step-open k since cb c h l.0)
          (subst (λ (g : Config F). All (Keeps k (since + g.timeout)) cs) (sym e) l.1) in
      (r.0, r.1 ∙ e)

  -- Once a key's record is open it stays open, with the same time of opening, through any calls on
  -- any keys that do not overlap, cleanups included, but for a reset of that key and for a question
  -- of its state after the deadline; and the interceptor refuses each call
  -- for that key until the timeout has passed.
  pub open_run_refuses :
      (service method : Bytes) (since now later : ℕ) (result : Bool × Bytes) (cb : CircuitBreaker F)
      (cs : List Step)
      → IsOpenSince since (get_record (key service method) cb)
      → All (Keeps (key service method) (since + cb.cfg.timeout)) cs
      → now ≤ since + cb.cfg.timeout
      → let cb' = run fl cb cs in
        IsOpenSince since (get_record (key service method) cb')
        × ((intercept fl service method now later result cb').1 ≡ refused)
  open_run_refuses service method since now later result cb cs h l t =
      let k = key service method in
      let (o, e) = open_run k since cb cs h l in
      let cb' = run fl cb cs in
      (o, (intercept_refuses fl service method now later result cb').0.1 (o.0, ground arith))
