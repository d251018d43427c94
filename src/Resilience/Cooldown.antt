-- ===== src/Resilience/Cooldown.antt =====
-- What an open or half-open breaker of internal/resilience/circuit.go lets through.
use asscor.Prelude.{
  ℕ, suc, ◌+◌, ◌≤◌, ◌<◌, ◌≡◌, refl, ◌≢◌, Bool, true, false, List, [], ◌∷◌, Option, none, some,
  arith, All, leb, if◌then◌else◌, subst, sym,
}
use asscor.Resilience.{
  closed, open_state, half_open, Breaker, Call, fails, succeeds, asks, resets, record_failure,
  record_success, allow, step, run, collect, answers,
}

-- A call that is no `Reset`, and no `Allow` that reads a time after `limit`.
abbrev pub NoLater : ℕ → Call → Type 0
NoLater limit (fails now) = Unit {0}
NoLater limit succeeds = Unit {0}
NoLater limit (asks now) = now ≤ limit
NoLater limit resets = ⊥

abbrev pub AllFalse : List Bool → Type 0
AllFalse = All (λ b. b ≡ false)

AllFalse-collect :
    (o : Option Bool) (rest : List Bool) → o ≢ some true → AllFalse rest → AllFalse (collect o rest)
AllFalse-collect none rest h r = r
AllFalse-collect (some true) rest h r = absurd (h refl)
AllFalse-collect (some false) rest h r = (refl, r)

-- The breaker is open, and was opened at `since`.
abbrev pub IsOpenSince : ℕ → ℕ → Breaker → Type 0
IsOpenSince since cooldown b =
    (b.state ≡ open_state) × (b.opened_at ≡ since) × (b.cooldown ≡ cooldown)

step-open :
    (since cooldown : ℕ) (b : Breaker) (c : Call)
    → IsOpenSince since cooldown b
    → NoLater (since + cooldown) c
    → IsOpenSince since cooldown (step b c).0 × ((step b c).1 ≢ some true)
unfolding step record_failure record_success allow
step-open since cooldown b (fails now) h l = ground arith
step-open since cooldown b succeeds h l = ground arith
step-open since cooldown b (asks now) h l = ground arith
step-open since cooldown b resets h l = absurd l

-- Until its cooldown has passed, and unless it is reset, an open breaker stays open with the same
-- opening time whatever results are recorded, and refuses every call.
pub cooldown_refuses :
    (since cooldown : ℕ) (b : Breaker) (cs : List Call)
    → IsOpenSince since cooldown b
    → All (NoLater (since + cooldown)) cs
    → IsOpenSince since cooldown (run b cs) × AllFalse (answers b cs)
unfolding run answers
cooldown_refuses since cooldown b [] h l = (h, tt)
cooldown_refuses since cooldown b (c ∷ cs) h l =
    let s = step-open since cooldown b c h l.0 in
    let r = cooldown_refuses since cooldown (step b c).0 cs s.0 l.1 in
    (r.0, AllFalse-collect (step b c).1 (answers (step b c).0 cs) s.1 r.1)

-- The calls `Allow` at the given times.
abbrev pub asking : List ℕ → List Call
asking [] = []
asking (t ∷ ts) = asks t ∷ asking ts

half_open_asking :
    (b : Breaker) (ts : List ℕ)
    → b.state ≡ half_open
    → (run b (asking ts) ≡ b) × AllFalse (answers b (asking ts))
unfolding run answers step allow
half_open_asking b [] h = (refl, tt)
half_open_asking b (t ∷ ts) h = let r = half_open_asking b ts h in ground (arith, r.0, r.1)

allow_trial :
    (b : Breaker) (now : ℕ)
    → b.state ≡ open_state
    → b.opened_at + b.cooldown < now
    → allow now b ≡ (record b { state = half_open }, true)
unfolding allow
allow_trial b now h l = ground arith

-- The first `Allow` after the cooldown is answered `true` and leaves the breaker half-open; each
-- further one, at any time, is answered `false` and changes nothing.
pub one_trial :
    (b : Breaker) (now : ℕ) (ts : List ℕ)
    → b.state ≡ open_state
    → b.opened_at + b.cooldown < now
    → (answers b (asks now ∷ []) ≡ true ∷ [])
      × ((run b (asks now ∷ [])).state ≡ half_open)
      × (run b (asks now ∷ asking ts) ≡ run b (asks now ∷ []))
      × AllFalse (answers (run b (asks now ∷ [])) (asking ts))
unfolding run answers step
one_trial b now ts h l =
    let trial : Breaker = record b { state = half_open } in
    let later = half_open_asking trial ts refl in
    let e = allow_trial b now h l in
    (
      cc e,
      cc e,
      subst (λ (r : Breaker × Bool). run r.0 (asking ts) ≡ r.0) (sym e) later.0,
      subst (λ (r : Breaker × Bool). AllFalse (answers r.0 (asking ts))) (sym e) later.1,
    )

-- A trial that fails puts the breaker back to open, from the time of the failure, if the failures
-- counted so far reach the threshold with it, and else leaves it half-open; a trial that succeeds
-- closes it and clears the count.
pub trial_result :
    (b : Breaker) (now : ℕ)
    → b.state ≡ half_open
    → let reopens = leb b.threshold (suc b.failures) in
      let failed = record_failure now b in
      (failed.state ≡ (if reopens then open_state else half_open))
      × (failed.opened_at ≡ (if reopens then now else b.opened_at))
      × (failed.total_trips ≡ (if reopens then suc b.total_trips else b.total_trips))
      × ((record_success b).state ≡ closed)
      × ((record_success b).failures ≡ 0)
unfolding record_failure record_success
trial_result b now h = ground arith

-- A success while the breaker is open, then a trial that is admitted and fails.
abbrev pub late_success : ℕ → ℕ → List Call
late_success t u = succeeds ∷ asks t ∷ fails u ∷ []

answers-late_success :
    (b : Breaker) (t u : ℕ)
    → b.state ≡ open_state
    → b.opened_at + b.cooldown < t
    → answers b (late_success t u) ≡ true ∷ []
unfolding answers step record_success allow
answers-late_success b t u h l = ground arith

run-late_success :
    (b : Breaker) (t u : ℕ)
    → b.state ≡ open_state
    → 1 < b.threshold
    → b.opened_at + b.cooldown < t
    → (run b (late_success t u)).state ≡ half_open
unfolding run step record_success record_failure allow
run-late_success b t u h k l = ground arith

-- If a success is recorded while a breaker with a threshold above 1 is open, then the first call
-- after the cooldown is admitted as a trial, and if that fails the breaker stays half-open and
-- refuses every further call, at any time.
pub trial_stuck :
    (b : Breaker) (t u : ℕ) (ts : List ℕ)
    → b.state ≡ open_state
    → 1 < b.threshold
    → b.opened_at + b.cooldown < t
    → let b' = run b (late_success t u) in
      (answers b (late_success t u) ≡ true ∷ [])
      × (b'.state ≡ half_open)
      × (run b' (asking ts) ≡ b')
      × AllFalse (answers b' (asking ts))
trial_stuck b t u ts h k l =
    let e = run-late_success b t u h k l in
    let stuck = half_open_asking (run b (late_success t u)) ts e in
    (answers-late_success b t u h l, e, stuck.0, stuck.1)
