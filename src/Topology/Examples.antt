-- ===== src/Topology/Examples.antt =====
-- The theorems on the graph at a concrete one: a host in a subnet with a second host, and a host alone.
use asscor.Prelude.{
  ◌≡◌, ◌≢◌, ◌↔◌, refl, true, List, [], ◌∷◌, some, Bytes, codes, lookup, insert, bytes_eq, bytes_ltb,
}
use asscor.Topology.Graph.{new_multi_graph, GraphEdge}
use asscor.Topology.Linked.{
  NoDangling, Change, node_added, node_removed, edge_added, all_changed, all_changed-NoDangling,
}
use asscor.Topology.Search.{Edges, has, reachable}
use asscor.Topology.Search.Ends.{reachable_ends}
use asscor.Topology.Search.Correct.{Walk, reachable_decides}

abbrev changes : List Change
changes =
    node_added (codes "a") (codes "network") (codes "host") [] 1
    ∷ node_added (codes "net") (codes "network") (codes "subnet") [] 2
    ∷ edge_added (codes "a") (codes "net") (codes "connects") (codes "network") true 1 (codes "up")
        [] 3
    ∷ edge_added (codes "a") (codes "gone") (codes "connects") (codes "network") true 1 (codes "up")
        [] 4
    ∷ node_removed (codes "net")
    ∷ []

all_changed-NoDangling_example : NoDangling (all_changed changes new_multi_graph)
all_changed-NoDangling_example = all_changed-NoDangling changes new_multi_graph tt

abbrev edge : Bytes → Bytes → GraphEdge
edge s t = record {
  source = s;
  target = t;
  edge_type = codes "connects";
  layer = codes "network";
  first_seen = 1;
  last_seen = 1;
  weight = 0;
  status = codes "up";
  meta = [];
}

abbrev edges : Edges
edges =
    (codes "1", edge (codes "a") (codes "net"))
    ∷ (codes "2", edge (codes "b") (codes "net"))
    ∷ (codes "3", edge (codes "c") (codes "d"))
    ∷ []

reachable_ends_example :
    (out : List Bytes) × (reachable (codes "a") 1 (codes "connects") edges ≡ some out)
reachable_ends_example = reachable_ends (codes "a") 1 (codes "connects") edges

reachable_decides_example :
    (out : List Bytes) × (reachable (codes "a") 0 [] edges ≡ some out)
    × ((v : Bytes) → (has v out ≡ true) ↔ ((v ≢ codes "a") × ∥ Walk [] edges (codes "a") v ∥₁))
reachable_decides_example = reachable_decides (codes "a") [] edges

found : reachable (codes "a") 0 [] edges ≡ some (codes "b" ∷ codes "net" ∷ [])
unfolding reachable bytes_ltb
found = refl

found_near : reachable (codes "a") 1 [] edges ≡ some (codes "net" ∷ [])
unfolding reachable lookup insert
found_near = refl
