-- ===== src/Plugins/Boot.antt =====
-- `Bootstrap` and `Shutdown` of internal/kernel/kernel_lifecycle.go, as the calls that they make.
-- What a plugin answers is an input, by its name.
use asscor.Prelude.{
  Bool, true, false, ◌&&◌, ◌||◌, not, List, [], ◌∷◌, ◌++◌, Option, none, some, ltb, if◌then◌else◌,
  Bytes, bytes_beq, keep,
}
use asscor.Plugins.{Plugin, order_plugins, add_found}

pub data Hook : Type 0 where
  pre_init post_init pre_start post_start pre_stop post_stop : Hook

pub data Event : Type 0 where
  hook : Hook → Event
  configures inits starts stops : Bytes → Event

pub record Conduct : Type 0 where
  pub configurable : Bytes → Bool
  pub init_ok : Bytes → Bool
  pub start_ok : Bytes → Bool
  -- `State() == PluginStarted`, at the shutdown.
  pub is_started : Bytes → Bool

pub record Boot : Type 0 where
  pub startup_order : List Bytes
  pub events : List Event
  pub succeeded : Bool

abbrev pub names : List Plugin → List Bytes
names [] = []
names (p ∷ ps) = p.name ∷ names ps

module _ (c : Conduct) where
  -- The first loop of `Bootstrap`, to the first failure; errors of `Configure` and missing
  -- interfaces are only logged.
  unfoldable pub init_all : List Plugin → List Event × Bool
  init_all [] = ([], true)
  init_all (p ∷ ps) =
      let (evs, done) = init_all ps in
      let before = if c.configurable p.name then configures p.name ∷ [] else [] in
      if c.init_ok p.name
      then (before ++ inits p.name ∷ evs, done)
      else (before ++ inits p.name ∷ [], false)

  -- The second loop.
  unfoldable pub start_all : List Plugin → List Event × Bool
  start_all [] = ([], true)
  start_all (p ∷ ps) =
      let (evs, done) = start_all ps in
      if c.start_ok p.name then (starts p.name ∷ evs, done) else (starts p.name ∷ [], false)

  unfoldable pub boot_in : List Plugin → Boot
  unfolding init_all start_all
  boot_in ordered =
      let (inited, init_done) = init_all ordered in
      let (started, start_done) = start_all ordered in
      let finished = if start_done then hook post_start ∷ [] else [] in
      let second = hook post_init ∷ hook pre_start ∷ (started ++ finished) in
      record {
        startup_order = names ordered;
        events = hook pre_init ∷ (inited ++ (if init_done then second else []));
        succeeded = init_done && start_done;
      }

  -- `Bootstrap`.
  unfoldable pub bootstrap : List Plugin → Boot
  unfolding boot_in
  bootstrap all = boot_in (order_plugins all)

-- The map `byName` of `shutdownOrder`, for plugins whose names differ.
unfoldable pub find_plugin : Bytes → List Plugin → Option Plugin
find_plugin name [] = none
find_plugin name (p ∷ ps) =
    let rest = find_plugin name ps in if bytes_beq p.name name then some p else rest

-- The loop that goes backwards through the startup order.
unfoldable pub backwards : List Bytes → List Plugin → List Plugin
unfolding find_plugin
backwards [] all = []
backwards (n ∷ ns) all = backwards ns all ++ add_found (find_plugin n all) []

abbrev pub is_listed : Bytes → List Bytes → Bool
is_listed name [] = false
is_listed name (n ∷ ns) = bytes_beq name n || is_listed name ns

-- `sort.Slice` by falling priority, for no startup order.
unfoldable pub insert_falling : Plugin → List Plugin → List Plugin
insert_falling p [] = p ∷ []
insert_falling p (q ∷ qs) =
    let rest = insert_falling p qs in if ltb p.priority q.priority then q ∷ rest else p ∷ q ∷ qs

unfoldable pub sort_falling : List Plugin → List Plugin
unfolding insert_falling
sort_falling [] = []
sort_falling (p ∷ ps) = insert_falling p (sort_falling ps)

-- `shutdownOrder`.
unfoldable pub shutdown_order : List Bytes → List Plugin → List Plugin
unfolding backwards sort_falling
shutdown_order [] all = sort_falling all
shutdown_order (n ∷ ns) all =
    backwards (n ∷ ns) all ++ keep (λ p. not (is_listed p.name (n ∷ ns))) all

abbrev pub stop_events : Conduct → List Plugin → List Event
stop_events c [] = []
stop_events c (p ∷ ps) =
    let rest = stop_events c ps in if c.is_started p.name then stops p.name ∷ rest else rest

-- The calls of `Shutdown`; an error of `Stop` is only logged.
unfoldable pub shutdown : Conduct → List Bytes → List Plugin → List Event
unfolding shutdown_order
shutdown c order all =
    hook pre_stop ∷ (stop_events c (shutdown_order order all) ++ hook post_stop ∷ [])
