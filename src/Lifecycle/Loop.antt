-- ===== src/Lifecycle/Loop.antt =====
-- The loop of passes of internal/kernel/lifecycle.go.
use asscor.Prelude.{
  ℕ, zero, suc, ◌<◌, ◌≡◌, refl, ap, ◌∙◌, inl, inr, true, false, ◌&&◌, List, ◌++◌, none, arith,
  Bytes, Bool-cases, bytes_eq, lookup, lookup-insert_self, lookup-remove, bytes_beq_iff,
}
use asscor.Lifecycle.{
  Engine, Answers, Activity, mark_active, is_active, clear, Event, repeats, completed, execute,
  persists, pass_events, marked, must_repeat, cleared, run_from, run, max_iterations,
}

module _ (e : Engine) where
  marked_active :
      (host : Bytes) (a : Answers) (s : Activity)
      → persists e a && e.has_activity ≡ true
      → is_active host (marked e host a s) ≡ true
  unfolding is_active marked mark_active
  marked_active host a s h =
      rw
        (h, lookup-insert_self host (record { host_id = host; active = true; last_seen = a.now }) s)
        refl

  -- Whether a pass is repeated does not depend on what the store held before it.
  must_repeat-marked :
      (host : Bytes) (a : Answers) (s : Activity)
      → must_repeat e host a (marked e host a s) ≡ (persists e a && e.has_activity)
  unfolding must_repeat
  must_repeat-marked host a s = elim (Bool-cases (persists e a && e.has_activity)) [
    | inl t ↦ ground (arith, marked_active host a s t)
    | inr f ↦ ground arith
  ]

  -- A pass after which the loop goes on.
  abbrev pub GoesOn : Answers → Type 0
  GoesOn a =
      (a.cancelled ≡ false)
      × (persists e a && e.has_activity ≡ true)
      × (a.cancelled_in_wait ≡ false)

  -- So many passes, from the pass of a number on, after each of which the loop goes on.
  abbrev pub GoOn : ℕ → (ℕ → Answers) → ℕ → Type 0
  GoOn zero answer i = Unit
  GoOn (suc k) answer i = GoesOn (answer i) × GoOn k answer (suc i)

  -- The same, and behind them a pass that is not cancelled and finds no threat.
  abbrev pub StopsAfter : ℕ → (ℕ → Answers) → ℕ → Type 0
  StopsAfter zero answer i =
      ((answer i).cancelled ≡ false) × (persists e (answer i) && e.has_activity ≡ false)
  StopsAfter (suc k) answer i = GoesOn (answer i) × StopsAfter k answer (suc i)

  -- The events of so many passes that are repeated, and of the next one.
  abbrev pub repeated : ℕ → (ℕ → Answers) → ℕ → Bytes → List Event → List Event
  repeated zero answer i host tail = tail
  repeated (suc k) answer i host tail =
      pass_events e host (answer i)
      ++ (execute e (repeats host) ++ repeated k answer (suc i) host tail)

  abbrev pub stopped_after : ℕ → (ℕ → Answers) → ℕ → Bytes → List Event
  stopped_after zero answer i host = pass_events e host (answer i) ++ execute e (completed host)
  stopped_after (suc k) answer i host =
      pass_events e host (answer i)
      ++ (execute e (repeats host) ++ stopped_after k answer (suc i) host)

  run_from-go :
      (n i : ℕ) (answer : ℕ → Answers) (host : Bytes) (s : Activity)
      → GoesOn (answer i)
      → let rest = run_from e n answer (suc i) host (marked e host (answer i) s) in
        run_from e (suc n) answer i host s
        ≡ (pass_events e host (answer i) ++ (execute e (repeats host) ++ rest.0), rest.1)
  unfolding run_from
  run_from-go n i answer host s (c, p, w) =
      ground (arith, must_repeat-marked host (answer i) s, c, p, w)

  run_from-stop :
      (n i : ℕ) (answer : ℕ → Answers) (host : Bytes) (s : Activity)
      → (answer i).cancelled ≡ false
      → (persists e (answer i) && e.has_activity) ≡ false
      → run_from e (suc n) answer i host s ≡ (
        pass_events e host (answer i) ++ execute e (completed host),
        cleared e host (marked e host (answer i) s),
      )
  unfolding run_from
  run_from-stop n i answer host s c p = ground (arith, must_repeat-marked host (answer i) s, c, p)

  go_events :
      (n i : ℕ) (answer : ℕ → Answers) (host : Bytes) (s : Activity) (evs : List Event)
      → GoesOn (answer i)
      → (run_from e n answer (suc i) host (marked e host (answer i) s)).0 ≡ evs
      → (run_from e (suc n) answer i host s).0
        ≡ pass_events e host (answer i) ++ (execute e (repeats host) ++ evs)
  go_events n i answer host s evs g h =
      ap (λ r. r.0) (run_from-go n i answer host s g)
      ∙ ap (λ (r : List Event). pass_events e host (answer i) ++ (execute e (repeats host) ++ r)) h

  go_store :
      (n i : ℕ) (answer : ℕ → Answers) (host : Bytes) (s : Activity)
      → GoesOn (answer i)
      → (run_from e (suc n) answer i host s).1
        ≡ (run_from e n answer (suc i) host (marked e host (answer i) s)).1
  go_store n i answer host s g = ap (λ r. r.1) (run_from-go n i answer host s g)

  lookup-cleared :
      (host : Bytes) (s : Activity) → e.has_activity ≡ true → lookup host (cleared e host s) ≡ none
  unfolding cleared clear
  lookup-cleared host s h = ground (arith, h, lookup-remove host host s, bytes_beq_iff host host)

  stops_from :
      (k n i : ℕ) (answer : ℕ → Answers) (host : Bytes) (s : Activity)
      → k < n
      → StopsAfter k answer i
      → e.has_activity ≡ true
      → ((run_from e n answer i host s).0 ≡ stopped_after k answer i host)
        × (lookup host (run_from e n answer i host s).1 ≡ none)
  stops_from k zero i answer host s lt h a = absurd (omega arith)
  stops_from zero (suc n) i answer host s lt (c, p) a =
      let r = run_from-stop n i answer host s c p in
      (ap (λ r. r.0) r, ap (λ r. lookup host r.1) r ∙ lookup-cleared host _ a)
  stops_from (suc k) (suc n) i answer host s lt (g, h) a =
      let rest =
        stops_from k n (suc i) answer host (marked e host (answer i) s) (omega arith) h a in
      (
        go_events n i answer host s _ g rest.0,
        ap (λ r. lookup host r) (go_store n i answer host s g) ∙ rest.1,
      )

  exhausted_from :
      (n i : ℕ) (answer : ℕ → Answers) (host : Bytes) (s : Activity)
      → GoOn n answer i
      → (run_from e n answer i host s).0 ≡ repeated n answer i host (execute e (completed host))
  unfolding run_from
  exhausted_from zero i answer host s h = refl
  exhausted_from (suc n) i answer host s (g, h) =
      go_events n i answer host s _ g
        (exhausted_from n (suc i) answer host (marked e host (answer i) s) h)

  exhausted_store :
      (n i : ℕ) (answer : ℕ → Answers) (host : Bytes) (s : Activity)
      → GoOn n answer i
      → is_active host s ≡ true
      → is_active host (run_from e n answer i host s).1 ≡ true
  unfolding run_from
  exhausted_store zero i answer host s h a = a
  exhausted_store (suc n) i answer host s (g, h) a =
      ap (λ r. is_active host r) (go_store n i answer host s g)
      ∙ exhausted_store n (suc i) answer host (marked e host (answer i) s) h
          (marked_active host (answer i) s g.1)

  -- A run that goes on after each of its first passes, fewer than 100, and in the next one is not
  -- cancelled and finds no threat: it does those passes with `lifecycle.repeat` between them, ends with
  -- `lifecycle.completed`, and leaves no activity of the host in the store.
  pub run_stops :
      (k : ℕ) (answer : ℕ → Answers) (host : Bytes) (s : Activity)
      → k < max_iterations e
      → StopsAfter k answer 0
      → e.has_activity ≡ true
      → ((run e answer host s).0 ≡ stopped_after k answer 0 host)
        × (lookup host (run e answer host s).1 ≡ none)
  unfolding run
  run_stops k answer host s lt h a = stops_from k 100 0 answer host s lt h a

  -- A run whose threat persists through 100 passes does them all, then ends with
  -- `lifecycle.completed` all the same, and the host stays active in the store.
  pub run_exhausted :
      (answer : ℕ → Answers) (host : Bytes) (s : Activity)
      → GoOn (max_iterations e) answer 0
      → ((run e answer host s).0
          ≡ repeated (max_iterations e) answer 0 host (execute e (completed host)))
        × (is_active host (run e answer host s).1 ≡ true)
  unfolding run
  run_exhausted answer host s h = (
    exhausted_from 100 0 answer host s h,
    ap (λ r. is_active host r) (go_store 99 0 answer host s h.0)
        ∙ exhausted_store 99 1 answer host (marked e host (answer 0) s) h.1
            (marked_active host (answer 0) s h.0.1),
  )
