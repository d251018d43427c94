-- ===== src/Plugins/Examples.antt =====
-- Plugins put in order, and the theorems at concrete plugins.
use asscor.Prelude.{
  ◌<◌, ℕ, zero, suc, ◌≡◌, refl, true, false, List, [], ◌∷◌, arith, ltb, ◌==◌, if◌then◌else◌, ◌&&◌,
  Bytes, codes, length,
}
use asscor.Plugins.{
  order_plugins, Plugin, Dependency, by_name, edges_of, edges_from, in_degree, less, best_of,
  without, release, dependents, kahn, places, insert_place, sort_places, order_places,
}
use asscor.Plugins.Kahn.{count}
use asscor.Plugins.Order.{edges, order_places_exact}
use asscor.Plugins.Boot.{Conduct, bootstrap}
use asscor.Plugins.Shutdown.{all_ok, up_to_failure, init_calls, start_phase, bootstrap_calls}
use asscor.Plugins.Boot.{hook, pre_init, names}
use asscor.Prelude.{◌++◌}
use asscor.Plugins.Named.{dependency_before}
use asscor.Plugins.Acyclic.{IsRanked}

abbrev needs : Bytes → Dependency
needs n = record { name = n; has_interface = false }

abbrev store : Plugin
store = record { name = codes "store"; priority = 9; dependencies = [] }

abbrev scorer : Plugin
scorer = record {
  name = codes "scorer";
  priority = 1;
  dependencies = needs (codes "store") ∷ needs (codes "absent") ∷ [];
}

abbrev policy : Plugin
policy = record { name = codes "policy"; priority = 2; dependencies = needs (codes "scorer") ∷ [] }

abbrev plugins : List Plugin
plugins = policy ∷ scorer ∷ store ∷ []

-- The store comes first, although its priority is the last.
store_first : order_places plugins ≡ 2 ∷ 1 ∷ 0 ∷ []
unfolding order_places places kahn in_degree edges_from edges_of by_name less best_of without
    release dependents sort_places insert_place
store_first = refl

abbrev cyclic : List Plugin
cyclic = record store { dependencies = needs (codes "policy") ∷ [] } ∷ scorer ∷ policy ∷ []

order_places_exact_example :
    count 1 (order_places cyclic) ≡ (if ltb 1 (length cyclic) then 1 else 0)
order_places_exact_example = order_places_exact cyclic 1

abbrev rank : ℕ → ℕ
rank zero = 2
rank (suc zero) = 1
rank (suc (suc i)) = 0

plugins-IsRanked : IsRanked rank (edges plugins)
unfolding edges_from edges_of by_name
plugins-IsRanked = (omega arith, (omega arith, tt))

dependency_before_example : 0 < count 2 (2 ∷ [])
unfolding by_name
dependency_before_example =
    dependency_before plugins rank 1 2 scorer (2 ∷ []) (0 ∷ []) plugins-IsRanked refl refl
      store_first

-- Of the plugins only the store can be initialised.
abbrev failing : Conduct
failing = record {
  configurable = λ n. false;
  init_ok = λ n. length n == 5;
  start_ok = λ n. true;
  is_started = λ n. false;
}

bootstrap_calls_example :
    ((bootstrap failing plugins).events ≡ (
      hook pre_init
      ∷ (init_calls failing (up_to_failure failing.init_ok (order_plugins plugins))
          ++ (if all_ok failing.init_ok (order_plugins plugins)
              then start_phase failing (order_plugins plugins)
              else []))))
    × ((bootstrap failing plugins).succeeded ≡ (
        all_ok failing.init_ok (order_plugins plugins)
        && all_ok failing.start_ok (order_plugins plugins)))
    × ((bootstrap failing plugins).startup_order ≡ names (order_plugins plugins))
bootstrap_calls_example = bootstrap_calls failing plugins
