-- ===== src/Topology/Search.antt =====
-- `Neighbors`' loop, `adjacentLocked` and `Reachable` of internal/topology/multigraph.go. The maps of
-- a search whose values are all true are the lists of their keys. The breadth-first loop is on fuel,
-- which Ends shows to suffice; a bound of the hops that is not positive is 0.
pub mod Ends
pub mod Correct
use asscor.Prelude.{
  ℕ, zero, suc, ◌+◌, Bool, true, false, not, ◌&&◌, ◌||◌, List, [], ◌∷◌, ◌++◌, Option, none, some,
  ltb, leb, if◌then◌else◌, Bytes, ◌==◌, length, keep, bytes_beq, bytes_eq, bytes_ltb, lookup,
  insert,
}
use asscor.Topology.Graph.{GraphEdge, MultiGraph}

abbrev pub Edges : Type 0
Edges = List (Bytes × GraphEdge)

abbrev pub has : Bytes → List Bytes → Bool
has x [] = false
has x (y ∷ ys) = bytes_beq y x || has x ys

-- The other ends of an edge, at a node.
abbrev pub ends_at : Bytes → GraphEdge → List Bytes
ends_at id e =
    (if bytes_beq e.source id then e.target ∷ [] else [])
    ++ (if bytes_beq e.target id then e.source ∷ [] else [])

abbrev pub of_type : Bytes → GraphEdge → Bool
of_type typ e = length typ == 0 || bytes_beq e.edge_type typ

-- `adjacentLocked`.
unfoldable pub adjacent : Bytes → Bytes → Edges → List Bytes
adjacent typ id [] = []
adjacent typ id ((k, e) ∷ es) =
    let rest = adjacent typ id es in if of_type typ e then ends_at id e ++ rest else rest

pub record Search : Type 0 where
  pub seen : List Bytes
  pub hops : List (Bytes × ℕ)
  pub queue : List Bytes

abbrev pub or_zero : Option ℕ → ℕ
or_zero none = 0
or_zero (some n) = n

-- The body of the inner loop.
unfoldable pub offer : Bytes → Bytes → Search → Search
offer cur nb s = if has nb s.seen then s else record {
  seen = nb ∷ s.seen;
  hops = insert nb (or_zero (lookup cur s.hops) + 1) s.hops;
  queue = s.queue ++ (nb ∷ []);
}

unfoldable pub scan : Bytes → List Bytes → Search → Search
unfolding offer
scan cur [] s = s
scan cur (nb ∷ nbs) s = scan cur nbs (offer cur nb s)

-- Whether the search goes no further from a node.
abbrev pub too_far : ℕ → Bytes → Search → Bool
too_far max_hops cur s = ltb 0 max_hops && leb max_hops (or_zero (lookup cur s.hops))

module _ (typ : Bytes) (max_hops : ℕ) (es : Edges) where
  -- One round, after `cur` left the queue.
  unfoldable pub expand : Bytes → List Bytes → Search → Search
  unfolding scan adjacent
  expand cur rest s =
      let s' : Search = record s { queue = rest } in
      if too_far max_hops cur s then s' else scan cur (adjacent typ cur es) s'

  unfoldable pub search_loop : ℕ → Search → Option Search
  unfolding expand
  search_loop zero s = elim s.queue [ [] ↦ some s | _ ∷ _ ↦ none ]
  search_loop (suc fuel) s = elim s.queue [
    | [] ↦ some s
    | cur ∷ rest ↦ search_loop fuel (expand cur rest s)
  ]

abbrev pub start_search : Bytes → Search
start_search start = record { seen = start ∷ []; hops = (start, 0) ∷ []; queue = start ∷ [] }

-- `sort.Strings`.
abbrev pub sort_in : Bytes → List Bytes → List Bytes
sort_in x [] = x ∷ []
sort_in x (y ∷ ys) = let rest = sort_in x ys in if bytes_ltb y x then y ∷ rest else x ∷ y ∷ ys

abbrev pub sort_strings : List Bytes → List Bytes
sort_strings [] = []
sort_strings (x ∷ xs) = sort_in x (sort_strings xs)

-- The ends of all edges: as many rounds as these suffice.
abbrev pub all_ends : Edges → List Bytes
all_ends [] = []
all_ends ((k, e) ∷ es) = e.source ∷ e.target ∷ all_ends es

abbrev pub result_of : Bytes → Search → List Bytes
result_of start s = sort_strings (keep (λ x. not (bytes_beq x start)) s.seen)

abbrev pub map_result : Bytes → Option Search → Option (List Bytes)
map_result start none = none
map_result start (some s) = some (result_of start s)

-- `Reachable`; `none` stands for fuel that did not suffice.
unfoldable pub reachable : Bytes → ℕ → Bytes → Edges → Option (List Bytes)
unfolding search_loop
reachable start max_hops typ es =
    map_result start (search_loop typ max_hops es (suc (length (all_ends es))) (start_search start))
