-- ===== src/Topology/Graph.antt =====
-- The graph of internal/topology/multigraph.go and the operations that change it. The time is an
-- argument, and a weight, a float64, is its bits with `positive` as `weight > 0`.
use asscor.Prelude.{
  ℕ, Bool, true, false, ◌&&◌, ◌||◌, List, [], ◌∷◌, ◌++◌, Option, none, some, if◌then◌else◌, Bytes,
  codes, ◌==◌, length, bytes_beq, bytes_eq, lookup, insert, remove,
}

pub record GraphEvent : Type 0 where
  pub event_type : Bytes
  pub at_time : ℕ
  pub detail : Bytes
  pub confidence : ℕ

abbrev pub Meta : Type 0
Meta = List (Bytes × Bytes)

pub record GraphNode : Type 0 where
  pub id : Bytes
  pub layer : Bytes
  pub node_type : Bytes
  pub meta : Meta
  pub first_seen : ℕ
  pub last_seen : ℕ
  pub events : List GraphEvent

pub record GraphEdge : Type 0 where
  pub source : Bytes
  pub target : Bytes
  pub edge_type : Bytes
  pub layer : Bytes
  pub first_seen : ℕ
  pub last_seen : ℕ
  pub weight : ℕ
  pub status : Bytes
  pub meta : Meta

-- A set of ids, and the ids of each layer or type.
abbrev pub Index : Type 0
Index = List (Bytes × List (Bytes × Bool))

pub record MultiGraph : Type 0 where
  pub nodes : List (Bytes × GraphNode)
  pub edges : List (Bytes × GraphEdge)
  pub by_layer : Index
  pub by_type : Index

-- `NewMultiGraph`.
abbrev pub new_multi_graph : MultiGraph
new_multi_graph = record { nodes = []; edges = []; by_layer = []; by_type = [] }

-- `edgeKey`.
unfoldable pub edge_key : Bytes → Bytes → Bytes → Bytes
edge_key source target typ = source ++ (0 ∷ (typ ++ (0 ∷ target)))

abbrev ids_of : Option (List (Bytes × Bool)) → List (Bytes × Bool)
ids_of none = []
ids_of (some ids) = ids

abbrev index_add : Bytes → Bytes → Index → Index
index_add group id index = insert group (insert id true (ids_of (lookup group index))) index

index_found : Option (List (Bytes × Bool)) → Bytes → Bytes → Index → Index
index_found none group id index = index
index_found (some ids) group id index = insert group (remove id ids) index

index_remove : Bytes → Bytes → Index → Index
unfolding index_found
index_remove group id index = index_found (lookup group index) group id index

unfoldable pub merge_meta : Meta → Meta → Meta
merge_meta [] meta = meta
merge_meta ((k, v) ∷ new) meta = merge_meta new (insert k v meta)

abbrev touched_node : Meta → ℕ → GraphNode → GraphNode
touched_node meta now n = record n { last_seen = now; meta = merge_meta meta n.meta }

unfoldable pub add_node_found :
    Option GraphNode → Bytes → Bytes → Bytes → Meta → ℕ → MultiGraph → MultiGraph
unfolding merge_meta
add_node_found (some n) id layer typ meta now g = record g {
  nodes = insert id (touched_node meta now n) g.nodes;
}
add_node_found none id layer typ meta now g =
    let n : GraphNode = record {
      id = id;
      layer = layer;
      node_type = typ;
      meta = [];
      first_seen = now;
      last_seen = now;
      events = [];
    } in
    record g {
      nodes = insert id (touched_node meta now n) g.nodes;
      by_layer = index_add layer id g.by_layer;
      by_type = index_add typ id g.by_type;
    }

-- `AddNode`.
unfoldable pub add_node : Bytes → Bytes → Bytes → Meta → ℕ → MultiGraph → MultiGraph
unfolding add_node_found
add_node id layer typ meta now g = add_node_found (lookup id g.nodes) id layer typ meta now g

abbrev pub touches : Bytes → GraphEdge → Bool
touches id e = bytes_beq e.source id || bytes_beq e.target id

-- The edges that do not touch a node.
unfoldable pub drop_touching : Bytes → List (Bytes × GraphEdge) → List (Bytes × GraphEdge)
drop_touching id [] = []
drop_touching id ((k, e) ∷ es) =
    let rest = drop_touching id es in if touches id e then rest else (k, e) ∷ rest

unfoldable pub remove_node_found : Option GraphNode → Bytes → MultiGraph → MultiGraph
unfolding index_remove drop_touching
remove_node_found none id g = g
remove_node_found (some n) id g = record {
  nodes = remove id g.nodes;
  edges = drop_touching id g.edges;
  by_layer = index_remove n.layer id g.by_layer;
  by_type = index_remove n.node_type id g.by_type;
}

-- `RemoveNode`.
unfoldable pub remove_node : Bytes → MultiGraph → MultiGraph
unfolding remove_node_found
remove_node id g = remove_node_found (lookup id g.nodes) id g

abbrev updated_edge : Bool → ℕ → Bytes → Meta → ℕ → GraphEdge → GraphEdge
updated_edge positive weight status meta now e = record e {
  last_seen = now;
  weight = if positive then weight else e.weight;
  status = if length status == 0 then e.status else status;
  meta = merge_meta meta e.meta;
}

abbrev pub edge_or_new : Option GraphEdge → Bytes → Bytes → Bytes → Bytes → ℕ → GraphEdge
edge_or_new (some e) source target typ layer now = e
edge_or_new none source target typ layer now = record {
  source = source;
  target = target;
  edge_type = typ;
  layer = layer;
  first_seen = now;
  last_seen = now;
  weight = 0;
  status = [];
  meta = [];
}

abbrev pub has_key {ℓ} : {A : Type ℓ} → Option A → Bool
has_key none = false
has_key (some a) = true

unfoldable pub put_edge :
    Bytes → Bytes → Bytes → Bytes → Bool → ℕ → Bytes → Meta → ℕ → MultiGraph → MultiGraph
unfolding merge_meta edge_key
put_edge source target typ layer positive weight status meta now g =
    let key = edge_key source target typ in
    let e = edge_or_new (lookup key g.edges) source target typ layer now in
    record g { edges = insert key (updated_edge positive weight status meta now e) g.edges }

-- `AddEdgeDetailed`.
unfoldable pub add_edge_detailed :
    Bytes → Bytes → Bytes → Bytes → Bool → ℕ → Bytes → Meta → ℕ → MultiGraph → Bool × MultiGraph
unfolding put_edge
add_edge_detailed source target typ layer positive weight status meta now g =
    if has_key (lookup source g.nodes) && has_key (lookup target g.nodes)
    then (true, put_edge source target typ layer positive weight status meta now g)
    else (false, g)

-- `AddEdge`.
unfoldable pub add_edge :
    Bytes → Bytes → Bytes → Bytes → Bool → ℕ → ℕ → MultiGraph → Bool × MultiGraph
unfolding add_edge_detailed
add_edge source target typ layer positive weight now g =
    add_edge_detailed source target typ layer positive weight (codes "up") [] now g

unfoldable pub set_status_found : Option GraphEdge → Bytes → Bytes → ℕ → MultiGraph → MultiGraph
set_status_found none key status now g = g
set_status_found (some e) key status now g = record g {
  edges = insert key (record e { status = status; last_seen = now }) g.edges;
}

-- `SetEdgeStatus`.
unfoldable pub set_edge_status : Bytes → Bytes → Bytes → Bytes → ℕ → MultiGraph → MultiGraph
unfolding set_status_found edge_key
set_edge_status source target typ status now g =
    let key = edge_key source target typ in set_status_found (lookup key g.edges) key status now g

-- `RemoveEdge`.
unfoldable pub remove_edge : Bytes → Bytes → Bytes → MultiGraph → MultiGraph
unfolding edge_key
remove_edge source target typ g = record g { edges = remove (edge_key source target typ) g.edges }

unfoldable pub append_found : Option GraphNode → Bytes → GraphEvent → ℕ → MultiGraph → MultiGraph
append_found none id ev now g = g
append_found (some n) id ev now g =
    let t = if ev.at_time == 0 then now else ev.at_time in
    record g {
      nodes =
          insert id
            (record n { events = n.events ++ (record ev { at_time = t } ∷ []); last_seen = t })
            g.nodes;
    }

-- `AppendEvent`.
unfoldable pub append_event : Bytes → GraphEvent → ℕ → MultiGraph → MultiGraph
unfolding append_found
append_event id ev now g = append_found (lookup id g.nodes) id ev now g
