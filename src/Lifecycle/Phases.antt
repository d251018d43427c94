-- ===== src/Lifecycle/Phases.antt =====
-- What one pass of internal/kernel/lifecycle.go does.
use asscor.Prelude.{
  ◌≡◌, refl, ap, ◌∙◌, Bool, true, false, ◌&&◌, not, List, [], ◌∷◌, ◌++◌, Option, none, some, arith,
  if◌then◌else◌, Bytes, keep, keep-append,
}
use asscor.Lifecycle.{
  Phase, detect, locate, respond, report, guide, block, remediate, verify, relocate, archive,
  Engine, Answers, Event, entered, exited, block_pre_apply, blocks, execute, in_phase, found,
  locate_events, guide_result, guide_events, is_some, block_result, block_events, relocate_events,
  pass_events,
}

abbrev pub is_mark : Event → Bool
is_mark (entered p) = true
is_mark (exited p) = true
is_mark _ = false

-- Each of some phases entered and then left.
abbrev pub bracketed : List Phase → List Event
bracketed [] = []
bracketed (p ∷ ps) = entered p ∷ exited p ∷ bracketed ps

choose_phases :
    (b : Bool) {out : List Event}
    → out ≡ bracketed (remediate ∷ verify ∷ relocate ∷ archive ∷ [])
    → (if b then entered block ∷ exited block ∷ out else out)
      ≡ bracketed (
          if b
          then block ∷ remediate ∷ verify ∷ relocate ∷ archive ∷ []
          else remediate ∷ verify ∷ relocate ∷ archive ∷ [])
choose_phases true t = ap (λ (o : List Event). entered block ∷ exited block ∷ o) t
choose_phases false t = t

module _ (e : Engine) where
  -- The engine must block: it has a location and a blocker, and no guider that succeeds.
  abbrev pub must_block : Option Bytes → Answers → Bool
  must_block o a = is_some o && (e.has_blocker && not (e.has_guider && is_some a.captures))

  abbrev pub phases_of : Answers → List Phase
  phases_of a =
      detect
      ∷ locate
      ∷ respond
      ∷ report
      ∷ guide
      ∷ (if must_block (found e a) a
          then block ∷ remediate ∷ verify ∷ relocate ∷ archive ∷ []
          else remediate ∷ verify ∷ relocate ∷ archive ∷ [])

  keep-execute :
      (p : Event → Bool) (ev : Event)
      → e.has_extensions ≡ true
      → keep p (execute e ev) ≡ keep p (ev ∷ [])
  unfolding execute
  keep-execute p ev h = rw h refl

  -- The marks of one phase whose inner events are none.
  phase_marks :
      (p : Phase) (evs rest : List Event)
      → e.has_extensions ≡ true
      → keep is_mark evs ≡ []
      → keep is_mark (in_phase e p evs ++ rest) ≡ entered p ∷ exited p ∷ keep is_mark rest
  unfolding in_phase execute
  phase_marks p evs rest h k =
      rw
        (
          h,
          keep-append is_mark (evs ++ exited p ∷ []) rest,
          keep-append is_mark evs (exited p ∷ []),
          k,
        )
        refl

  then_phase :
      (p : Phase) (evs rest out : List Event)
      → e.has_extensions ≡ true
      → keep is_mark evs ≡ []
      → keep is_mark rest ≡ out
      → keep is_mark (in_phase e p evs ++ rest) ≡ entered p ∷ exited p ∷ out
  then_phase p evs rest out h k r =
      phase_marks p evs rest h k ∙ ap (λ (o : List Event). entered p ∷ exited p ∷ o) r

  last_phase :
      (p : Phase)
      → e.has_extensions ≡ true
      → keep is_mark (in_phase e p []) ≡ entered p ∷ exited p ∷ []
  unfolding in_phase execute
  last_phase p h = rw h refl

  locate_unmarked : (o : Option Bytes) → keep is_mark (locate_events e o) ≡ []
  unfolding locate_events execute
  locate_unmarked none = refl
  locate_unmarked (some host) = ground arith

  guide_unmarked : (o : Option Bytes) (a : Answers) → keep is_mark (guide_events e o a) ≡ []
  unfolding guide_events guide_result execute
  guide_unmarked none a = refl
  guide_unmarked (some host) a = ground arith

  relocate_unmarked : (host : Bytes) (a : Answers) → keep is_mark (relocate_events e host a) ≡ []
  unfolding relocate_events execute
  relocate_unmarked host a = ground arith

  block_result_unmarked : (o : Option Bool) → keep is_mark (block_result e o) ≡ []
  unfolding block_result execute
  block_result_unmarked none = refl
  block_result_unmarked (some b) = ground arith

  block_inner_unmarked :
      (host : Bytes) (o : Option Bool)
      → keep is_mark (execute e (block_pre_apply host) ++ (blocks host ∷ block_result e o)) ≡ []
  unfolding execute
  block_inner_unmarked host o = ground (arith, block_result_unmarked o)

  block_marks :
      (o : Option Bytes) (a : Answers) (rest : List Event)
      → e.has_extensions ≡ true
      → keep is_mark (block_events e o a ++ rest) ≡ (
          if must_block o a
          then entered block ∷ exited block ∷ keep is_mark rest
          else keep is_mark rest)
  unfolding block_events
  block_marks none a rest h = refl
  block_marks (some host) a rest h =
      let evs = execute e (block_pre_apply host) ++ (blocks host ∷ block_result e a.blocked) in
      ground (arith, phase_marks block evs rest h (block_inner_unmarked host a.blocked))

  then_block :
      (host : Bytes) (a : Answers) (rest : List Event)
      → e.has_extensions ≡ true
      → keep is_mark rest ≡ bracketed (remediate ∷ verify ∷ relocate ∷ archive ∷ [])
      → keep is_mark (block_events e (found e a) a ++ rest)
        ≡ bracketed (
            if must_block (found e a) a
            then block ∷ remediate ∷ verify ∷ relocate ∷ archive ∷ []
            else remediate ∷ verify ∷ relocate ∷ archive ∷ [])
  then_block host a rest h t =
      block_marks (found e a) a rest h ∙ choose_phases (must_block (found e a) a) t

  -- With extensions, the phases that a pass enters and leaves are the ten in their order, each left
  -- before the next is entered, and blocking among them exactly if the engine must block.
  pub pass_phases :
      (host : Bytes) (a : Answers)
      → e.has_extensions ≡ true
      → keep is_mark (pass_events e host a) ≡ bracketed (phases_of a)
  unfolding pass_events
  pass_phases host a h =
      let tail = then_phase remediate [] _ _ h refl (
        then_phase verify [] _ _ h refl
          (then_phase relocate _ _ _ h (relocate_unmarked host a) (last_phase archive h))) in
      then_phase detect [] _ _ h refl (
        then_phase locate _ _ _ h (locate_unmarked (found e a)) (
          then_phase respond [] _ _ h refl (
            then_phase report [] _ _ h refl (
              then_phase guide _ _ _ h (guide_unmarked (found e a) a)
                (then_block host a _ h tail)))))
