-- ===== src/Lifecycle.antt =====
-- internal/kernel/lifecycle.go: the passes of the security lifecycle over one host. What the
-- engine's parts answer in each pass is an input of the model; what the engine does, the calls of
-- the guider and the blocker among it, is its list of events.
pub mod Phases
pub mod Responses
pub mod Loop
pub mod Effects
pub mod Examples
use asscor.Prelude.{
  ℕ, zero, suc, Bool, true, false, ◌&&◌, not, List, [], ◌∷◌, ◌++◌, Option, none, some, ltb,
  if◌then◌else◌, Bytes, bytes_eq, lookup, insert, remove, length,
}

pub data Phase : Type 0 where
  detect locate respond report guide block remediate verify relocate archive : Phase

pub record ActivityState : Type 0 where
  pub host_id : Bytes
  pub active : Bool
  pub last_seen : ℕ

-- The map of `inMemActivityStore`.
abbrev pub Activity : Type 0
Activity = List (Bytes × ActivityState)

-- `MarkActive`.
unfoldable pub mark_active : Bytes → ℕ → Activity → Activity
mark_active host now s = insert host (record { host_id = host; active = true; last_seen = now }) s

abbrev pub active_in : Option ActivityState → Bool
active_in none = false
active_in (some st) = st.active

-- `IsActive`.
unfoldable pub is_active : Bytes → Activity → Bool
is_active host s = active_in (lookup host s)

-- `Clear`.
unfoldable pub clear : Bytes → Activity → Activity
clear host s = remove host s

-- Which parts the engine has: those that are not nil.
pub record Engine : Type 0 where
  pub has_locator : Bool
  pub has_guider : Bool
  pub has_blocker : Bool
  pub has_activity : Bool
  pub has_extensions : Bool

-- What the parts answer in one pass, and at what time. A location is its `FootholdHost`; an error
-- of `Locate`, or nil, is `none`, as is an error of `Guide`, and an error or nil of `Block`.
pub record Answers : Type 0 where
  pub cancelled : Bool
  pub location : Option Bytes
  pub captures : Option ℕ
  pub blocked : Option Bool
  pub still_active : Bool
  pub cancelled_in_wait : Bool
  pub now : ℕ

-- Executions of extension points, and the calls of the guider and the blocker.
pub data Event : Type 0 where
  entered exited : Phase → Event
  located : Bytes → Event
  guides : Bytes → Event
  guide_completed guide_confirmed : Bytes → ℕ → Event
  block_pre_apply blocks : Bytes → Event
  block_post_apply block_confirmed : Event
  threat_active repeats completed : Bytes → Event

abbrev pub is_some {ℓ} : {A : Type ℓ} → Option A → Bool
is_some none = false
is_some (some x) = true

module _ (e : Engine) where
  unfoldable pub execute : Event → List Event
  execute ev = if e.has_extensions then ev ∷ [] else []

  -- `enterPhase` and `exitPhase` around what a phase does.
  unfoldable pub in_phase : Phase → List Event → List Event
  unfolding execute
  in_phase p evs = execute (entered p) ++ (evs ++ execute (exited p))

  abbrev pub found : Answers → Option Bytes
  found a = if e.has_locator then a.location else none

  locate_events : Option Bytes → List Event
  unfolding execute
  locate_events none = []
  locate_events (some host) = if ltb 0 (length host) then execute (located host) else []

  guide_result : Option ℕ → Bytes → List Event
  unfolding execute
  guide_result none host = []
  guide_result (some captures) host =
      execute (guide_completed host captures)
      ++ (if ltb 0 captures then execute (guide_confirmed host captures) else [])

  guide_events : Option Bytes → Answers → List Event
  unfolding guide_result
  guide_events none a = []
  guide_events (some host) a =
      if e.has_guider then guides host ∷ guide_result a.captures host else []

  -- The variable `guided`.
  abbrev pub guided : Option Bytes → Answers → Bool
  guided loc a = e.has_guider && (is_some loc && is_some a.captures)

  block_result : Option Bool → List Event
  unfolding execute
  block_result none = []
  block_result (some blocked) =
      execute block_post_apply ++ (if blocked then execute block_confirmed else [])

  -- The sixth phase, which is entered only as the last resort.
  unfoldable pub block_events : Option Bytes → Answers → List Event
  unfolding execute block_result
  block_events none a = []
  block_events (some host) a =
      if not (guided (some host) a) && e.has_blocker
      then in_phase block (execute (block_pre_apply host) ++ (blocks host ∷ block_result a.blocked))
      else []

  abbrev pub persists : Answers → Bool
  persists a = e.has_locator && a.still_active

  relocate_events : Bytes → Answers → List Event
  unfolding execute
  relocate_events host a = if persists a then execute (threat_active host) else []

  -- The ten phases of one pass.
  unfoldable pub pass_events : Bytes → Answers → List Event
  unfolding locate_events guide_events relocate_events
  pass_events host a =
      in_phase detect []
      ++ (in_phase locate (locate_events (found a))
          ++ (in_phase respond []
              ++ (in_phase report []
                  ++ (in_phase guide (guide_events (found a) a)
                      ++ (block_events (found a) a
                          ++ (in_phase remediate []
                              ++ (in_phase verify []
                                  ++ (in_phase relocate (relocate_events host a)
                                      ++ in_phase archive []))))))))

  -- The activity store after the ninth phase.
  unfoldable pub marked : Bytes → Answers → Activity → Activity
  marked host a s = if persists a && e.has_activity then mark_active host a.now s else s

  -- The condition of the eleventh step.
  unfoldable pub must_repeat : Bytes → Answers → Activity → Bool
  must_repeat host a s = persists a && (e.has_activity && is_active host s)

  -- `Clear` at the end of a pass that is not repeated.
  unfoldable pub cleared : Bytes → Activity → Activity
  cleared host s = if e.has_activity then clear host s else s

  -- The loop of `Run` with so many passes left, from the pass of a number on, and
  -- `lifecycle.completed` behind it; no other run for the host comes in between.
  unfoldable pub run_from : ℕ → (ℕ → Answers) → ℕ → Bytes → Activity → List Event × Activity
  unfolding execute
  run_from zero answer i host s = (execute (completed host), s)
  run_from (suc n) answer i host s =
      let a = answer i in
      let s' = marked host a s in
      let (evs, s'') = run_from n answer (suc i) host s' in
      if a.cancelled
      then ([], s)
      else if must_repeat host a s'
      then (if a.cancelled_in_wait
          then (pass_events host a ++ execute (repeats host), s')
          else (pass_events host a ++ (execute (repeats host) ++ evs), s''))
      else (pass_events host a ++ execute (completed host), cleared host s')

  abbrev pub max_iterations : ℕ
  max_iterations = 100

  -- `Run`.
  unfoldable pub run : (ℕ → Answers) → Bytes → Activity → List Event × Activity
  run answer host s = run_from max_iterations answer 0 host s
