-- ===== src/Topology/Linked.antt =====
-- No edge of the graph of internal/topology/multigraph.go dangles.
use asscor.Prelude.{
  ℕ, ◌≡◌, refl, Bool, true, false, inl, inr, List, [], ◌∷◌, Option, none, some, arith, Bytes,
  bytes_beq, bytes_beq_iff, bytes_eq, lookup, insert, remove, lookup-insert, lookup-remove,
  AllValues, lookup-AllValues, insert-AllValues, Bool-cases,
}
use asscor.Topology.Graph.{
  GraphEvent, GraphNode, GraphEdge, Meta, MultiGraph, has_key, drop_touching, add_node_found,
  add_node, remove_node_found, remove_node, edge_or_new, put_edge, add_edge_detailed, edge_key,
  set_status_found, set_edge_status, remove_edge, append_found, append_event,
}

abbrev pub Nodes : Type 0
Nodes = List (Bytes × GraphNode)

-- Both ends of an edge are nodes.
abbrev pub Linked : Nodes → GraphEdge → Type 0
Linked nodes e = (has_key (lookup e.source nodes) ≡ true) × (has_key (lookup e.target nodes) ≡ true)

abbrev pub NoDangling : MultiGraph → Type 0
NoDangling g = AllValues (Linked g.nodes) g.edges

weaken-AllValues {κ μ} :
    {V : Type 0} (P : V → Type κ) (Q : V → Type μ) (m : List (Bytes × V))
    → ((v : V) → P v → Q v)
    → AllValues P m
    → AllValues Q m
weaken-AllValues P Q [] f h = tt
weaken-AllValues P Q ((k, v) ∷ m) f h = (f v h.0, weaken-AllValues P Q m f h.1)

remove-AllValues {κ} :
    {V : Type 0} (P : V → Type κ) (k : Bytes) (m : List (Bytes × V))
    → AllValues P m
    → AllValues P (remove k m)
unfolding remove
remove-AllValues P k [] h = tt
remove-AllValues P k ((j, v) ∷ m) h = elim (Bool-cases (bytes_beq j k)) [
  | inl q ↦ rw q (remove-AllValues P k m h.1)
  | inr q ↦ rw q (h.0, remove-AllValues P k m h.1)
]

has_key-insert :
    (id x : Bytes) (n : GraphNode) (nodes : Nodes)
    → has_key (lookup x nodes) ≡ true
    → has_key (lookup x (insert id n nodes)) ≡ true
has_key-insert id x n nodes h =
    rw lookup-insert (elim (Bool-cases (bytes_beq id x)) [ inl q ↦ rw q refl | inr q ↦ rw q h ])

has_key-remove :
    (id x : Bytes) (nodes : Nodes)
    → bytes_beq x id ≡ false
    → has_key (lookup x nodes) ≡ true
    → has_key (lookup x (remove id nodes)) ≡ true
has_key-remove id x nodes n h =
    ground (arith, bytes_beq_iff id x, bytes_beq_iff x id, lookup-remove id x nodes, h)

more-Linked :
    (id : Bytes) (n : GraphNode) (nodes : Nodes) (es : List (Bytes × GraphEdge))
    → AllValues (Linked nodes) es
    → AllValues (Linked (insert id n nodes)) es
more-Linked id n nodes es =
    weaken-AllValues (Linked nodes) (Linked (insert id n nodes)) es
      λ e h. (has_key-insert id e.source n nodes h.0, has_key-insert id e.target n nodes h.1)

drop_touching-Linked :
    (id : Bytes) (nodes : Nodes) (es : List (Bytes × GraphEdge))
    → AllValues (Linked nodes) es
    → AllValues (Linked (remove id nodes)) (drop_touching id es)
unfolding drop_touching
drop_touching-Linked id nodes [] h = tt
drop_touching-Linked id nodes ((k, e) ∷ es) h = elim (Bool-cases (bytes_beq e.source id)) [
  | inl q ↦ rw q (drop_touching-Linked id nodes es h.1)
  | inr q ↦ elim (Bool-cases (bytes_beq e.target id)) [
    | inl r ↦ rw (q, r) (drop_touching-Linked id nodes es h.1)
    | inr r ↦
        rw (q, r)
          (
            (has_key-remove id e.source nodes q h.0.0, has_key-remove id e.target nodes r h.0.1),
            drop_touching-Linked id nodes es h.1,
          )
  ]
]

-- A change of the graph: the arguments of an operation and its time.
pub data Change : Type 0 where
  node_added : Bytes → Bytes → Bytes → Meta → ℕ → Change
  node_removed : Bytes → Change
  edge_added : Bytes → Bytes → Bytes → Bytes → Bool → ℕ → Bytes → Meta → ℕ → Change
  status_set : Bytes → Bytes → Bytes → Bytes → ℕ → Change
  edge_removed : Bytes → Bytes → Bytes → Change
  event_appended : Bytes → GraphEvent → ℕ → Change

abbrev pub changed : Change → MultiGraph → MultiGraph
changed (node_added id layer typ meta now) g = add_node id layer typ meta now g
changed (node_removed id) g = remove_node id g
changed (edge_added s t typ layer positive weight status meta now) g =
    (add_edge_detailed s t typ layer positive weight status meta now g).1
changed (status_set s t typ status now) g = set_edge_status s t typ status now g
changed (edge_removed s t typ) g = remove_edge s t typ g
changed (event_appended id ev now) g = append_event id ev now g

abbrev pub all_changed : List Change → MultiGraph → MultiGraph
all_changed [] g = g
all_changed (c ∷ cs) g = all_changed cs (changed c g)

module _ (g : MultiGraph) (h : NoDangling g) where
  added-NoDangling :
      (o : Option GraphNode) (id layer typ : Bytes) (meta : Meta) (now : ℕ)
      → NoDangling (add_node_found o id layer typ meta now g)
  unfolding add_node_found
  added-NoDangling (some n) id layer typ meta now = more-Linked id _ g.nodes g.edges h
  added-NoDangling none id layer typ meta now = more-Linked id _ g.nodes g.edges h

  removed-NoDangling : (o : Option GraphNode) (id : Bytes) → NoDangling (remove_node_found o id g)
  unfolding remove_node_found
  removed-NoDangling none id = h
  removed-NoDangling (some n) id = drop_touching-Linked id g.nodes g.edges h

  old-Linked :
      (o : Option GraphEdge) (key s t typ layer : Bytes) (now : ℕ)
      → lookup key g.edges ≡ o
      → Linked g.nodes (record {
        source = s;
        target = t;
        edge_type = typ;
        layer = layer;
        first_seen = now;
        last_seen = now;
        weight = 0;
        status = [];
        meta = [];
      })
      → Linked g.nodes (edge_or_new o s t typ layer now)
  old-Linked none key s t typ layer now l k = k
  old-Linked (some e) key s t typ layer now l k =
      lookup-AllValues (Linked g.nodes) key e g.edges h l

  edge-NoDangling :
      (s t typ layer : Bytes) (positive : Bool) (weight : ℕ) (status : Bytes) (meta : Meta)
      (now : ℕ)
      → NoDangling (add_edge_detailed s t typ layer positive weight status meta now g).1
  unfolding add_edge_detailed put_edge
  edge-NoDangling s t typ layer positive weight status meta now =
      elim (Bool-cases (has_key (lookup s g.nodes))) [
        | inr q ↦ rw q h
        | inl q ↦ elim (Bool-cases (has_key (lookup t g.nodes))) [
          | inr r ↦ rw (q, r) h
          | inl r ↦
              rw (q, r)
                (insert-AllValues (Linked g.nodes) (edge_key s t typ) _ g.edges h (
                  old-Linked (lookup (edge_key s t typ) g.edges) (edge_key s t typ) s t typ layer
                    now refl (q, r)))
        ]
      ]

  status-NoDangling :
      (o : Option GraphEdge) (key status : Bytes) (now : ℕ)
      → lookup key g.edges ≡ o
      → NoDangling (set_status_found o key status now g)
  unfolding set_status_found
  status-NoDangling none key status now l = h
  status-NoDangling (some e) key status now l =
      insert-AllValues (Linked g.nodes) key _ g.edges h
        (lookup-AllValues (Linked g.nodes) key e g.edges h l)

  event-NoDangling :
      (o : Option GraphNode) (id : Bytes) (ev : GraphEvent) (now : ℕ)
      → NoDangling (append_found o id ev now g)
  unfolding append_found
  event-NoDangling none id ev now = h
  event-NoDangling (some n) id ev now = more-Linked id _ g.nodes g.edges h

  changed-NoDangling : (c : Change) → NoDangling (changed c g)
  unfolding add_node remove_node set_edge_status remove_edge append_event
  changed-NoDangling (node_added id layer typ meta now) = added-NoDangling _ id layer typ meta now
  changed-NoDangling (node_removed id) = removed-NoDangling _ id
  changed-NoDangling (edge_added s t typ layer positive weight status meta now) =
      edge-NoDangling s t typ layer positive weight status meta now
  changed-NoDangling (status_set s t typ status now) = status-NoDangling _ _ status now refl
  changed-NoDangling (edge_removed s t typ) = remove-AllValues (Linked g.nodes) _ g.edges h
  changed-NoDangling (event_appended id ev now) = event-NoDangling _ id ev now

-- After any sequence of changes both ends of every edge are nodes, if they were before.
pub all_changed-NoDangling :
    (cs : List Change) (g : MultiGraph) → NoDangling g → NoDangling (all_changed cs g)
all_changed-NoDangling [] g h = h
all_changed-NoDangling (c ∷ cs) g h =
    all_changed-NoDangling cs (changed c g) (changed-NoDangling g h c)
