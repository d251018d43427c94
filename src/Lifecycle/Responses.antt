-- ===== src/Lifecycle/Responses.antt =====
-- How a pass of internal/kernel/lifecycle.go guides and blocks.
use asscor.Prelude.{
  ℕ, ◌+◌, ◌≡◌, refl, ap, ◌∙◌, Bool, true, false, ◌&&◌, List, [], ◌∷◌, ◌++◌, Option, none, some,
  arith, if◌then◌else◌, Bytes, count_if, count_if-append,
}
use asscor.Lifecycle.{
  Phase, detect, locate, respond, report, guide, block, remediate, verify, relocate, archive,
  Engine, Answers, Event, entered, exited, guides, block_pre_apply, blocks, execute, in_phase,
  found, locate_events, guide_result, guide_events, is_some, block_result, block_events,
  relocate_events, pass_events,
}
use asscor.Lifecycle.Phases.{must_block}

abbrev pub is_block : Event → Bool
is_block (blocks host) = true
is_block _ = false

abbrev pub is_guide : Event → Bool
is_guide (guides host) = true
is_guide _ = false

module _ (e : Engine) where
  count-in_phase :
      (p : Event → Bool) (q : Phase) (evs : List Event)
      → p (entered q) ≡ false
      → p (exited q) ≡ false
      → count_if p (in_phase e q evs) ≡ count_if p evs
  unfolding in_phase execute
  count-in_phase p q evs h k =
      ground (arith, count_if-append p evs (exited q ∷ []), count_if-append p evs [])

  count_phase :
      (p : Event → Bool) (q : Phase) (evs rest : List Event)
      → p (entered q) ≡ false
      → p (exited q) ≡ false
      → count_if p (in_phase e q evs ++ rest) ≡ count_if p evs + count_if p rest
  count_phase p q evs rest h k =
      count_if-append p (in_phase e q evs) rest
      ∙ ap (λ n. n + count_if p rest) (count-in_phase p q evs h k)

  then_count :
      (p : Event → Bool) (q : Phase) (evs rest : List Event) (n : ℕ)
      → ((q : Phase) → (p (entered q) ≡ false) × (p (exited q) ≡ false))
      → count_if p rest ≡ n
      → count_if p (in_phase e q evs ++ rest) ≡ count_if p evs + n
  then_count p q evs rest n h r =
      count_phase p q evs rest (h q).0 (h q).1 ∙ ap (λ m. count_if p evs + m) r

  locate_counts :
      (o : Option Bytes)
      → (count_if is_block (locate_events e o) ≡ 0) × (count_if is_guide (locate_events e o) ≡ 0)
  unfolding locate_events execute
  locate_counts none = (refl, refl)
  locate_counts (some host) = ground arith

  guide_counts :
      (o : Option Bytes) (a : Answers)
      → (count_if is_block (guide_events e o a) ≡ 0)
        × (count_if is_guide (guide_events e o a) ≡ (if is_some o && e.has_guider then 1 else 0))
  unfolding guide_events guide_result execute
  guide_counts none a = (refl, refl)
  guide_counts (some host) a = ground arith

  relocate_counts :
      (host : Bytes) (a : Answers)
      → (count_if is_block (relocate_events e host a) ≡ 0)
        × (count_if is_guide (relocate_events e host a) ≡ 0)
  unfolding relocate_events execute
  relocate_counts host a = ground arith

  block_inner_counts :
      (host : Bytes) (o : Option Bool)
      → let evs = execute e (block_pre_apply host) ++ (blocks host ∷ block_result e o) in
        (count_if is_block evs ≡ 1) × (count_if is_guide evs ≡ 0)
  unfolding block_result execute
  block_inner_counts host none = ground arith
  block_inner_counts host (some b) = ground arith

  block_counts :
      (o : Option Bytes) (a : Answers)
      → (count_if is_block (block_events e o a) ≡ (if must_block e o a then 1 else 0))
        × (count_if is_guide (block_events e o a) ≡ 0)
  unfolding block_events
  block_counts none a = (refl, refl)
  block_counts (some host) a =
      let evs = execute e (block_pre_apply host) ++ (blocks host ∷ block_result e a.blocked) in
      ground (
        arith,
        block_inner_counts host a.blocked,
        count-in_phase is_block block evs refl refl,
        count-in_phase is_guide block evs refl refl,
      )

  pass_sum :
      (p : Event → Bool) (host : Bytes) (a : Answers)
      → ((q : Phase) → (p (entered q) ≡ false) × (p (exited q) ≡ false))
      → count_if p (pass_events e host a)
        ≡ 0
          + (count_if p (locate_events e (found e a))
              + (0
                  + (0
                      + (count_if p (guide_events e (found e a) a)
                          + (count_if p (block_events e (found e a) a)
                              + (0 + (0 + (count_if p (relocate_events e host a) + 0))))))))
  unfolding pass_events
  pass_sum p host a h =
      let archived = count-in_phase p archive [] (h archive).0 (h archive).1 in
      let tail =
        then_count p remediate [] _ _ h
          (then_count p verify [] _ _ h (then_count p relocate _ _ _ h archived)) in
      let blocked =
        count_if-append p (block_events e (found e a) a) _
        ∙ ap (λ m. count_if p (block_events e (found e a) a) + m) tail in
      then_count p detect [] _ _ h (
        then_count p locate _ _ _ h (
          then_count p respond [] _ _ h
            (then_count p report [] _ _ h (then_count p guide _ _ _ h blocked))))

  pass_counts :
      (p : Event → Bool) (host : Bytes) (a : Answers)
      → ((q : Phase) → (p (entered q) ≡ false) × (p (exited q) ≡ false))
      → count_if p (pass_events e host a)
        ≡ count_if p (locate_events e (found e a))
          + (count_if p (guide_events e (found e a) a)
              + (count_if p (block_events e (found e a) a) + count_if p (relocate_events e host a)))
  pass_counts p host a h = omega (arith, pass_sum p host a h)

  -- A pass calls the blocker once if it must block, that is if it has a location and a blocker, and
  -- no guider that succeeds, and else not; it calls the guider once if it has a location and a
  -- guider, and else not.
  pub pass_responds :
      (host : Bytes) (a : Answers)
      → (count_if is_block (pass_events e host a) ≡ (if must_block e (found e a) a then 1 else 0))
        × (count_if is_guide (pass_events e host a)
            ≡ (if is_some (found e a) && e.has_guider then 1 else 0))
  pass_responds host a =
      let b = pass_counts is_block host a (λ q. (refl, refl)) in
      let g = pass_counts is_guide host a (λ q. (refl, refl)) in
      ground (
        arith,
        b,
        g,
        locate_counts (found e a),
        guide_counts (found e a) a,
        block_counts (found e a) a,
        relocate_counts host a,
      )
