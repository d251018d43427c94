-- ===== src/Lifecycle/Examples.antt =====
-- Runs of the lifecycle, and the theorems at concrete engines.
use asscor.Prelude.{
  ℕ, zero, suc, ◌≡◌, refl, true, false, ◌&&◌, [], ◌∷◌, none, some, arith, if◌then◌else◌, Bytes,
  codes, bytes_eq, lookup, count_if,
}
use asscor.Lifecycle.{Engine, Answers, Activity, found, is_some, pass_events, run}
use asscor.Lifecycle.Phases.{must_block}
use asscor.Lifecycle.Responses.{is_block, is_guide, pass_responds}
use asscor.Lifecycle.Loop.{GoOn, stopped_after, run_stops}

-- An engine with all parts.
abbrev engine : Engine
engine = record {
  has_locator = true;
  has_guider = true;
  has_blocker = true;
  has_activity = true;
  has_extensions = true;
}

abbrev web : Bytes
web = codes "web-1"

abbrev database : Bytes
database = codes "db-1"

-- A pass whose guider fails, so that the blocker is called.
abbrev threatened : Answers
threatened = record {
  cancelled = false;
  location = some web;
  captures = none;
  blocked = some true;
  still_active = true;
  cancelled_in_wait = false;
  now = 7;
}

abbrev calm : Answers
calm = record threatened { captures = some 2; still_active = false }

-- The threat is gone from the third pass on.
abbrev two_threats : ℕ → Answers
two_threats zero = threatened
two_threats (suc zero) = threatened
two_threats (suc (suc i)) = calm

abbrev known : Activity
known = (database, record { host_id = database; active = true; last_seen = 1 }) ∷ []

pass_responds_example :
    (count_if is_block (pass_events engine web threatened)
      ≡ (if must_block engine (found engine threatened) threatened then 1 else 0))
    × (count_if is_guide (pass_events engine web threatened)
        ≡ (if is_some (found engine threatened) && engine.has_guider then 1 else 0))
pass_responds_example = pass_responds engine web threatened

run_stops_example :
    ((run engine two_threats web known).0 ≡ stopped_after engine 2 two_threats 0 web)
    × (lookup web (run engine two_threats web known).1 ≡ none)
run_stops_example =
    run_stops engine 2 two_threats web known (omega arith)
      ((refl, refl, refl), ((refl, refl, refl), (refl, refl))) refl

abbrev always : ℕ → Answers
always i = threatened

always-GoOn : (n i : ℕ) → GoOn engine n always i
always-GoOn zero i = tt
always-GoOn (suc n) i = ((refl, refl, refl), always-GoOn n (suc i))
