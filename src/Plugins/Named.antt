-- ===== src/Plugins/Named.antt =====
-- The edges that a named dependency makes, of internal/kernel/kernel_lifecycle.go.
use asscor.Prelude.{
  ℕ, zero, suc, ◌+◌, ◌≤◌, ◌<◌, ◌≡◌, sym, ap, Bool, true, false, ◌&&◌, ◌||◌, not, List, [], ◌∷◌,
  ◌++◌, Option, none, some, arith, ◌==◌, length, get_elem?, count_if, count_if-append, subst,
}
use mathlib.Core.List.{append-nil, append_assoc}
use asscor.Plugins.{Plugin, Dependency, by_name, edge_to, edges_of, edges_from, order_places}
use asscor.Plugins.Kahn.{count, pending}
use asscor.Plugins.Loop.{Ordered}
use asscor.Plugins.Order.{edges}
use asscor.Plugins.Acyclic.{IsRanked, dependencies_first}

-- How often an edge is among some.
abbrev edge_count : ℕ → ℕ → List (ℕ × ℕ) → ℕ
edge_count j i es = count_if (λ e. e.0 == j && e.1 == i) es

abbrev pub is_place : Option ℕ → ℕ → Bool
is_place none j = false
is_place (some k) j = k == j

-- A dependency that counts: with a name and without an interface, on another plugin than the one
-- at a place.
abbrev pub names_place : List Plugin → ℕ → ℕ → Dependency → Bool
names_place all i j d =
    not (length d.name == 0 || d.has_interface)
    && (is_place (by_name d.name 0 all) j && not (j == i))

abbrev pub any_dependency : (Dependency → Bool) → List Dependency → Bool
any_dependency p [] = false
any_dependency p (d ∷ ds) = p d || any_dependency p ds

edge_to_keeps :
    (i j : ℕ) (o : Option ℕ) (es : List (ℕ × ℕ))
    → edge_count j i es ≤ edge_count j i (edge_to i o es)
edge_to_keeps i j none es = omega arith
edge_to_keeps i j (some k) es = ground arith

edge_to_has :
    (i j : ℕ) (o : Option ℕ) (es : List (ℕ × ℕ))
    → is_place o j && not (j == i) ≡ true
    → 0 < edge_count j i (edge_to i o es)
edge_to_has i j none es h = cc
edge_to_has i j (some k) es h = ground arith

edges_of_has :
    (all : List Plugin) (i j : ℕ) (ds : List Dependency)
    → any_dependency (names_place all i j) ds ≡ true
    → 0 < edge_count j i (edges_of all i ds)
unfolding edges_of
edges_of_has all i j [] h = cc
edges_of_has all i j (d ∷ ds) h =
    let o = by_name d.name 0 all in
    let es = edges_of all i ds in
    ground (arith, edge_to_keeps i j o es, edge_to_has i j o es, edges_of_has all i j ds)

abbrev dependencies_of : Option Plugin → List Dependency
dependencies_of none = []
dependencies_of (some p) = p.dependencies

edges_from_has :
    (all : List Plugin) (s k i j : ℕ) (p : Plugin) (ps : List Plugin)
    → s + k ≡ i
    → get_elem? ps k ≡ some p
    → any_dependency (names_place all i j) p.dependencies ≡ true
    → 0 < edge_count j i (edges_from all s ps)
unfolding edges_from
edges_from_has all s k i j p [] q e h = cc
edges_from_has all s zero i j p (r ∷ ps) q e h =
    let place : s ≡ i = omega (arith, q) in
    let has = edges_of_has all i j p.dependencies h in
    let here : 0 < edge_count j i (edges_of all s r.dependencies) =
      subst (λ x. 0 < edge_count j i (edges_of all x r.dependencies)) (sym place)
        (subst (λ ds. 0 < edge_count j i (edges_of all i ds)) (sym (ap dependencies_of e)) has) in
    omega (
      arith,
      here,
      count_if-append (λ (x : ℕ × ℕ). x.0 == j && x.1 == i) (edges_of all s r.dependencies)
          (edges_from all (suc s) ps),
    )
edges_from_has all s (suc k) i j p (r ∷ ps) q e h = omega (
  arith,
  edges_from_has all (suc s) k i j p ps (omega (arith, q)) e h,
  count_if-append (λ (x : ℕ × ℕ). x.0 == j && x.1 == i) (edges_of all s r.dependencies)
      (edges_from all (suc s) ps),
)

edge_done :
    (j i : ℕ) (es : List (ℕ × ℕ)) (before : List ℕ)
    → 0 < edge_count j i es
    → pending es before i ≡ 0
    → 0 < count j before
unfolding pending
edge_done j i [] before h p = absurd (omega arith)
edge_done j i ((a, b) ∷ es) before h p = ground (arith, edge_done j i es before)

Ordered-at :
    (all : List Plugin) (es : List (ℕ × ℕ)) (n i : ℕ) (before pre post : List ℕ)
    → Ordered all es n before (pre ++ i ∷ post)
    → pending es (before ++ pre) i ≡ 0
Ordered-at all es n i before [] post o = rw (append-nil before) o.0
Ordered-at all es n i before (k ∷ pre) post o =
    subst (λ b. pending es b i ≡ 0) (append_assoc before (k ∷ []) pre)
      (Ordered-at all es n i (before ++ k ∷ []) pre post o.1)

-- Where the dependencies have no cycle, that is where they go up in some rank: if the plugin at one
-- place names the plugin at another as a dependency, without an interface, then wherever the first
-- stands in the order, the second stands before it.
pub dependency_before :
    (all : List Plugin) (rank : ℕ → ℕ) (i j : ℕ) (p : Plugin) (pre post : List ℕ)
    → IsRanked rank (edges all)
    → get_elem? all i ≡ some p
    → any_dependency (names_place all i j) p.dependencies ≡ true
    → order_places all ≡ pre ++ i ∷ post
    → 0 < count j pre
dependency_before all rank i j p pre post r e h o =
    let ordered =
      subst (λ (x : List ℕ). Ordered all (edges all) (length all) [] x) o
        (dependencies_first all rank r) in
    edge_done j i (edges all) pre (edges_from_has all 0 i i j p all (omega arith) e h)
      (Ordered-at all (edges all) (length all) i [] pre post ordered)
