-- ===== src/Lifecycle/Effects.antt =====
-- What a run of internal/kernel/lifecycle.go does not do.
use asscor.Prelude.{
  ℕ, zero, suc, ◌≤◌, ◌≡◌, ◌≢◌, refl, true, ◌++◌, arith, if◌then◌else◌, Bytes, bytes_beq_iff,
  count_if, count_if-append, bytes_eq, lookup, lookup-insert_ne, lookup-remove,
}
use asscor.Lifecycle.{
  Engine, Answers, Activity, mark_active, clear, repeats, completed, execute, found, pass_events,
  marked, cleared, run_from, run, max_iterations,
}
use asscor.Lifecycle.Phases.{must_block}
use asscor.Lifecycle.Responses.{is_block, pass_responds}

module _ (e : Engine) where
  lookup-marked :
      (host other : Bytes) (a : Answers) (s : Activity)
      → host ≢ other
      → lookup other (marked e host a s) ≡ lookup other s
  unfolding marked mark_active
  lookup-marked host other a s h = ground (
    arith,
    lookup-insert_ne host other (record { host_id = host; active = true; last_seen = a.now }) s h,
  )

  lookup-cleared_ne :
      (host other : Bytes) (s : Activity)
      → host ≢ other
      → lookup other (cleared e host s) ≡ lookup other s
  unfolding cleared clear
  lookup-cleared_ne host other s h =
      ground (arith, lookup-remove host other s, bytes_beq_iff host other)

  isolated_from :
      (n i : ℕ) (answer : ℕ → Answers) (host other : Bytes) (s : Activity)
      → host ≢ other
      → lookup other (run_from e n answer i host s).1 ≡ lookup other s
  unfolding run_from
  isolated_from zero i answer host other s h = refl
  isolated_from (suc n) i answer host other s h =
      let s' = marked e host (answer i) s in
      ground (
        arith,
        lookup-marked host other (answer i) s h,
        lookup-cleared_ne host other s' h,
        isolated_from n (suc i) answer host other s' h,
      )

  -- A run changes the activity of no other host, however it ends.
  pub run_isolated :
      (answer : ℕ → Answers) (host other : Bytes) (s : Activity)
      → host ≢ other
      → lookup other (run e answer host s).1 ≡ lookup other s
  unfolding run
  run_isolated answer host other s h = isolated_from 100 0 answer host other s h

  -- How many of so many passes must block.
  abbrev pub blocking_passes : ℕ → (ℕ → Answers) → ℕ → ℕ
  blocking_passes zero answer i = 0
  blocking_passes (suc n) answer i =
      let rest = blocking_passes n answer (suc i) in
      if must_block e (found e (answer i)) (answer i) then suc rest else rest

  execute_counts :
      (host : Bytes)
      → (count_if is_block (execute e (repeats host)) ≡ 0)
        × (count_if is_block (execute e (completed host)) ≡ 0)
  unfolding execute
  execute_counts host = ground arith

  blocks_from :
      (n i : ℕ) (answer : ℕ → Answers) (host : Bytes) (s : Activity)
      → count_if is_block (run_from e n answer i host s).0 ≤ blocking_passes n answer i
  unfolding run_from
  blocks_from zero i answer host s = omega (arith, (execute_counts host).1)
  blocks_from (suc n) i answer host s =
      let a = answer i in
      let evs = (run_from e n answer (suc i) host (marked e host a s)).0 in
      ground (
        arith,
        execute_counts host,
        (pass_responds e host a).0,
        count_if-append is_block (pass_events e host a) (execute e (repeats host)),
        count_if-append is_block (pass_events e host a) (execute e (completed host)),
        count_if-append is_block (pass_events e host a) (execute e (repeats host) ++ evs),
        count_if-append is_block (execute e (repeats host)) evs,
        blocks_from n (suc i) answer host (marked e host a s),
      )

  -- A run calls the blocker no more often than there are passes, among the first 100, in which the
  -- engine must block.
  pub run_blocks :
      (answer : ℕ → Answers) (host : Bytes) (s : Activity)
      → count_if is_block (run e answer host s).0 ≤ blocking_passes (max_iterations e) answer 0
  unfolding run
  run_blocks answer host s = blocks_from 100 0 answer host s
