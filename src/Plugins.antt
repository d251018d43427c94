-- ===== src/Plugins.antt =====
-- The order of the plugins, of internal/kernel/kernel_lifecycle.go. The list of the plugins is in
-- the order in which Go's map gives them; a plugin is known by its place in that list.
pub mod Kahn
pub mod Loop
pub mod Order
pub mod Boot
pub mod Shutdown
pub mod Acyclic
pub mod Named
pub mod Examples
use asscor.Prelude.{
  ℕ, zero, suc, ◌+◌, ◌-◌, Bool, true, false, ◌&&◌, ◌||◌, not, List, [], ◌∷◌, ◌++◌, Option, none,
  some, ltb, leb, ◌==◌, if◌then◌else◌, Bytes, bytes_beq, bytes_ltb, length, get_elem?, keep,
  count_if, map,
}

pub record Dependency : Type 0 where
  pub name : Bytes
  pub has_interface : Bool

-- A priority is an int moved up by 2 ^ 63, which keeps the order; 0 moved up where a plugin has none.
pub record Plugin : Type 0 where
  pub name : Bytes
  pub priority : ℕ
  pub dependencies : List Dependency

abbrev pub or_later : Option ℕ → Option ℕ → Option ℕ
or_later later none = later
or_later none (some i) = some i
or_later (some j) (some i) = some j

-- The map `byName`: the last place of a name, if any, in the plugins from a place on.
unfoldable pub by_name : Bytes → ℕ → List Plugin → Option ℕ
by_name name i [] = none
by_name name i (p ∷ ps) =
    let later = by_name name (suc i) ps in
    or_later later (if bytes_beq p.name name then some i else none)

abbrev pub edge_to : ℕ → Option ℕ → List (ℕ × ℕ) → List (ℕ × ℕ)
edge_to i none es = es
edge_to i (some j) es = if j == i then es else (j, i) ∷ es

-- The edges that the dependencies of one plugin make: from the place that must come first.
unfoldable pub edges_of : List Plugin → ℕ → List Dependency → List (ℕ × ℕ)
edges_of all i [] = []
edges_of all i (d ∷ ds) =
    let rest = edges_of all i ds in
    if length d.name == 0 || d.has_interface then rest else edge_to i (by_name d.name 0 all) rest

-- `deps`, as the list of all its edges.
unfoldable pub edges_from : List Plugin → ℕ → List Plugin → List (ℕ × ℕ)
unfolding edges_of
edges_from all i [] = []
edges_from all i (p ∷ ps) = edges_of all i p.dependencies ++ edges_from all (suc i) ps

-- `deps[j]`.
unfoldable pub dependents : ℕ → List (ℕ × ℕ) → List ℕ
dependents j [] = []
dependents j ((a, i) ∷ es) = let rest = dependents j es in if a == j then i ∷ rest else rest

-- `indeg[i]` before the loop.
unfoldable pub in_degree : List (ℕ × ℕ) → ℕ → ℕ
in_degree es i = count_if (λ e. e.1 == i) es

-- `less`, of two plugins.
abbrev pub plugin_less : Plugin → Plugin → Bool
plugin_less p q =
    if not (p.priority == q.priority) then ltb p.priority q.priority else bytes_ltb p.name q.name

abbrev pub less_found : Option Plugin → Option Plugin → Bool
less_found (some p) (some q) = plugin_less p q
less_found _ _ = false

-- `less`, of two places.
unfoldable pub less : List Plugin → ℕ → ℕ → Bool
less all a b = less_found (get_elem? all a) (get_elem? all b)

-- The place that the inner loop finds, of the best one so far and those behind it.
unfoldable pub best_of : List Plugin → ℕ → List ℕ → ℕ
unfolding less
best_of all b [] = b
best_of all b (r ∷ rs) = if less all r b then best_of all r rs else best_of all b rs

-- The first occurrence removed.
unfoldable pub without : ℕ → List ℕ → List ℕ
without b [] = []
without b (r ∷ rs) = let rest = without b rs in if r == b then rs else r ∷ rest

abbrev pub lower : ℕ → (ℕ → ℕ) → ℕ → ℕ
lower i indeg k = if k == i then indeg k - 1 else indeg k

-- The loop over the dependents of a place: a number that falls to 0 was 1.
unfoldable pub release : List ℕ → (ℕ → ℕ) → List ℕ → (ℕ → ℕ) × List ℕ
release [] indeg ready = (indeg, ready)
release (i ∷ is) indeg ready =
    release is (lower i indeg) (if indeg i == 1 then ready ++ i ∷ [] else ready)

-- The places from one on, as many as given.
unfoldable pub places : ℕ → ℕ → List ℕ
places i zero = []
places i (suc n) = i ∷ places (suc i) n

module _ (all : List Plugin) (edges : List (ℕ × ℕ)) where
  -- The loop while `ready` is not empty, with at most so many places left.
  unfoldable pub kahn : ℕ → (ℕ → ℕ) → List ℕ → List ℕ
  unfolding best_of without release dependents
  kahn zero indeg ready = []
  kahn (suc n) indeg [] = []
  kahn (suc n) indeg (r ∷ rs) =
      let b = best_of all r rs in
      let (indeg', ready') = release (dependents b edges) indeg (without b (r ∷ rs)) in
      b ∷ kahn n indeg' ready'

-- `sort.Slice` by `less`.
unfoldable pub insert_place : List Plugin → ℕ → List ℕ → List ℕ
unfolding less
insert_place all i [] = i ∷ []
insert_place all i (j ∷ js) =
    let rest = insert_place all i js in if less all j i then j ∷ rest else i ∷ j ∷ js

unfoldable pub sort_places : List Plugin → List ℕ → List ℕ
unfolding insert_place
sort_places all [] = []
sort_places all (i ∷ is) = insert_place all i (sort_places all is)

abbrev pub has_place : ℕ → List ℕ → Bool
has_place i out = ltb 0 (count_if (λ k. k == i) out)

-- The places in the order of `orderPlugins`: those of the loop, then the rest by priority.
unfoldable pub order_places : List Plugin → List ℕ
unfolding places sort_places kahn in_degree edges_from
order_places all =
    let n = length all in
    let edges = edges_from all 0 all in
    let start = places 0 n in
    let out = kahn all edges n (in_degree edges) (keep (λ i. in_degree edges i == 0) start) in
    out ++ sort_places all (keep (λ i. not (has_place i out)) start)

abbrev pub add_found : Option Plugin → List Plugin → List Plugin
add_found none ps = ps
add_found (some p) ps = p ∷ ps

abbrev pub plugin_at : List Plugin → List ℕ → List Plugin
plugin_at all [] = []
plugin_at all (i ∷ is) = add_found (get_elem? all i) (plugin_at all is)

-- `orderPlugins`, for plugins whose names differ.
unfoldable pub order_plugins : List Plugin → List Plugin
unfolding order_places
order_plugins all = if leb (length all) 1 then all else plugin_at all (order_places all)
