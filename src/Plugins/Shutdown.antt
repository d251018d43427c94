-- ===== src/Plugins/Shutdown.antt =====
-- What `Bootstrap` calls, and how `Shutdown` mirrors it, of internal/kernel/kernel_lifecycle.go.
use asscor.Prelude.{
  ◌≡◌, refl, ap₂, ◌∙◌, Bool, true, ◌&&◌, not, List, [], ◌∷◌, ◌++◌, some, if◌then◌else◌, Bool-cases,
  inl, inr, Bytes, keep, All,
}
use mathlib.Core.List.{append-nil}
use asscor.Plugins.{Plugin, order_plugins}
use asscor.Plugins.Boot.{
  post_init, pre_start, post_start, Event, hook, pre_init, configures, inits, starts, Conduct,
  names, init_all, start_all, boot_in, bootstrap, find_plugin, backwards, is_listed, shutdown_order,
}

-- The plugins in the opposite order.
abbrev pub mirrored : List Plugin → List Plugin
mirrored [] = []
mirrored (p ∷ ps) = mirrored ps ++ p ∷ []

backwards-names :
    (ordered all : List Plugin)
    → All (λ p. find_plugin p.name all ≡ some p) ordered
    → backwards (names ordered) all ≡ mirrored ordered
unfolding backwards
backwards-names [] all h = refl
backwards-names (p ∷ ps) all h = rw (h.0, backwards-names ps all h.1) refl

none_left :
    (order : List Bytes) (all : List Plugin)
    → All (λ p. is_listed p.name order ≡ true) all
    → keep (λ p. not (is_listed p.name order)) all ≡ []
none_left order [] h = refl
none_left order (p ∷ ps) h = rw (h.0) (none_left order ps h.1)

-- A shutdown takes the plugins in the opposite of the order in which `Bootstrap` took them, however
-- the map lists them then, if `Bootstrap` took some, each of those is still found by its name, and
-- each plugin of the map is one of them by name.
pub shutdown_order-names :
    (first : Plugin) (others all : List Plugin)
    → All (λ p. find_plugin p.name all ≡ some p) (first ∷ others)
    → All (λ p. is_listed p.name (names (first ∷ others)) ≡ true) all
    → shutdown_order (names (first ∷ others)) all ≡ mirrored (first ∷ others)
unfolding shutdown_order
shutdown_order-names first others all h k =
    let ordered = first ∷ others in
    ap₂ (λ (a b : List Plugin). a ++ b) (backwards-names ordered all h)
      (none_left (names ordered) all k)
    ∙ append-nil (mirrored ordered)

-- Whether a call succeeds on all plugins, and the plugins up to the first on which it fails, that one
-- included.
abbrev pub all_ok : (Bytes → Bool) → List Plugin → Bool
all_ok f [] = true
all_ok f (p ∷ ps) = f p.name && all_ok f ps

abbrev pub up_to_failure : (Bytes → Bool) → List Plugin → List Plugin
up_to_failure f [] = []
up_to_failure f (p ∷ ps) = let rest = up_to_failure f ps in if f p.name then p ∷ rest else p ∷ []

-- Each plugin is configured, if it can be, and initialised at once after that.
abbrev pub init_calls : Conduct → List Plugin → List Event
init_calls c [] = []
init_calls c (p ∷ ps) =
    (if c.configurable p.name then configures p.name ∷ [] else []) ++ inits p.name ∷ init_calls c ps

abbrev pub start_calls : List Plugin → List Event
start_calls [] = []
start_calls (p ∷ ps) = starts p.name ∷ start_calls ps

-- What follows the initialisation of all plugins.
abbrev pub start_phase : Conduct → List Plugin → List Event
start_phase c ordered =
    hook post_init
    ∷ hook pre_start
    ∷ (start_calls (up_to_failure c.start_ok ordered)
        ++ (if all_ok c.start_ok ordered then hook post_start ∷ [] else []))

module _ (c : Conduct) where
  init_all_lem :
      (ps : List Plugin)
      → ((init_all c ps).0 ≡ init_calls c (up_to_failure c.init_ok ps))
        × ((init_all c ps).1 ≡ all_ok c.init_ok ps)
  unfolding init_all
  init_all_lem [] = (refl, refl)
  init_all_lem (p ∷ ps) = elim (Bool-cases (c.init_ok p.name)) [
    | inl q ↦ rw (q, (init_all_lem ps).0, (init_all_lem ps).1) (refl, refl)
    | inr q ↦ rw q (refl, refl)
  ]

  start_all_lem :
      (ps : List Plugin)
      → ((start_all c ps).0 ≡ start_calls (up_to_failure c.start_ok ps))
        × ((start_all c ps).1 ≡ all_ok c.start_ok ps)
  unfolding start_all
  start_all_lem [] = (refl, refl)
  start_all_lem (p ∷ ps) = elim (Bool-cases (c.start_ok p.name)) [
    | inl q ↦ rw (q, (start_all_lem ps).0, (start_all_lem ps).1) (refl, refl)
    | inr q ↦ rw q (refl, refl)
  ]

  -- The calls of `Bootstrap`, one after another: in the plugins' order it configures and initialises
  -- each up to the first whose initialisation fails; only if none fails it starts them, in the same
  -- order, up to the first that fails; the hooks come before, between and, if all are started, after.
  -- It succeeds exactly if no initialisation and no start fails, and keeps the order for the shutdown.
  pub bootstrap_calls :
      (all : List Plugin)
      → let ordered = order_plugins all in
        let boot = bootstrap c all in
        (boot.events ≡ (
          hook pre_init
          ∷ (init_calls c (up_to_failure c.init_ok ordered)
              ++ (if all_ok c.init_ok ordered then start_phase c ordered else []))))
        × (boot.succeeded ≡ (all_ok c.init_ok ordered && all_ok c.start_ok ordered))
        × (boot.startup_order ≡ names ordered)
  unfolding bootstrap boot_in
  bootstrap_calls all =
      let i = init_all_lem (order_plugins all) in
      let s = start_all_lem (order_plugins all) in rw (i.0, i.1, s.0, s.1) (refl, refl, refl)
