-- ===== src/Plugins/Order.antt =====
-- The order that `orderPlugins` of internal/kernel/kernel_lifecycle.go returns.
use asscor.Prelude.{
  Bytes, ℕ, zero, suc, ◌+◌, ◌≤◌, ◌<◌, ◌≡◌, refl, ap, Bool, true, false, ◌&&◌, ◌||◌, not, List, [],
  ◌∷◌, Option, none, some, arith, ltb, leb, ◌==◌, if◌then◌else◌, count_if-append, keep, length,
  Bool-cases, inl, inr, All, All-append, bytes_beq,
}
use asscor.Plugins.{
  Plugin, Dependency, by_name, or_later, edge_to, edges_of, edges_from, in_degree, kahn, places,
  insert_place, sort_places, has_place, order_places,
}
use asscor.Plugins.Kahn.{count, pending-start}
use asscor.Plugins.Loop.{TargetsBelow, IsState, IsClosed, Ordered, undone, kahn_end}

count-places : (s n i : ℕ) → count i (places s n) ≡ (if leb s i && ltb i (s + n) then 1 else 0)
unfolding places
count-places s zero i = ground arith
count-places s (suc n) i = ground (arith, count-places (suc s) n i)

count-keep :
    (p : ℕ → Bool) (xs : List ℕ) (i : ℕ) → count i (keep p xs) ≡ (if p i then count i xs else 0)
count-keep p [] i = ground arith
count-keep p (x ∷ xs) i = elim (Bool-cases (x == i)) [
  | inl t ↦ let e : x ≡ i = ground arith in ground (arith, count-keep p xs i, ap p e)
  | inr f ↦ ground (arith, count-keep p xs i)
]

count-insert_place :
    (all : List Plugin) (i j : ℕ) (js : List ℕ) → count i (insert_place all j js) ≡ count i (j ∷ js)
unfolding insert_place
count-insert_place all i j [] = refl
count-insert_place all i j (k ∷ ks) = ground (arith, count-insert_place all i j ks)

count-sort_places :
    (all : List Plugin) (i : ℕ) (js : List ℕ) → count i (sort_places all js) ≡ count i js
unfolding sort_places
count-sort_places all i [] = refl
count-sort_places all i (j ∷ js) =
    ground (arith, count-sort_places all i js, count-insert_place all i j (sort_places all js))

-- A place that `byName` holds is one of the list.
abbrev Below : ℕ → Option ℕ → Type 0
Below n none = Unit
Below n (some j) = j < n

or_later-Below : (n : ℕ) (a b : Option ℕ) → Below n a → Below n b → Below n (or_later a b)
or_later-Below n none none h k = tt
or_later-Below n none (some i) h k = k
or_later-Below n (some j) none h k = h
or_later-Below n (some j) (some i) h k = h

here-Below : (n s : ℕ) (t : Bool) → s < n → Below n (if t then some s else none)
here-Below n s true h = h
here-Below n s false h = tt

by_name-Below :
    (name : Bytes) (s n : ℕ) (ps : List Plugin) → s + length ps ≤ n → Below n (by_name name s ps)
unfolding by_name
by_name-Below name s n [] h = tt
by_name-Below name s n (p ∷ ps) h =
    or_later-Below n (by_name name (suc s) ps) _ (by_name-Below name (suc s) n ps (omega arith))
      (here-Below n s (bytes_beq p.name name) (omega arith))

-- Both ends of each edge.
abbrev pub EndsBelow : ℕ → List (ℕ × ℕ) → Type 0
EndsBelow n = All (λ e. (e.0 < n) × (e.1 < n))

edge_to-EndsBelow :
    (n i : ℕ) (o : Option ℕ) (es : List (ℕ × ℕ))
    → i < n
    → Below n o
    → EndsBelow n es
    → EndsBelow n (edge_to i o es)
edge_to-EndsBelow n i none es h k r = r
edge_to-EndsBelow n i (some j) es h k r = elim (Bool-cases (j == i)) [
  | inl t ↦ rw t r
  | inr f ↦ rw f ((k, h), r)
]

edges_of-EndsBelow :
    (all : List Plugin) (i : ℕ) (ds : List Dependency)
    → i < length all
    → EndsBelow (length all) (edges_of all i ds)
unfolding edges_of
edges_of-EndsBelow all i [] h = tt
edges_of-EndsBelow all i (d ∷ ds) h =
    let rest = edges_of-EndsBelow all i ds h in
    elim (Bool-cases (length d.name == 0 || d.has_interface)) [
      | inl t ↦ rw t rest
      | inr f ↦ rw f (
          edge_to-EndsBelow (length all) i (by_name d.name 0 all) (edges_of all i ds) h
            (by_name-Below d.name 0 (length all) all (omega arith)) rest)
    ]

edges_from-EndsBelow :
    (all : List Plugin) (s : ℕ) (ps : List Plugin)
    → s + length ps ≤ length all
    → EndsBelow (length all) (edges_from all s ps)
unfolding edges_from
edges_from-EndsBelow all s [] h = tt
edges_from-EndsBelow all s (p ∷ ps) h =
    All-append _ (edges_of all s p.dependencies) (edges_from all (suc s) ps)
      (edges_of-EndsBelow all s p.dependencies (omega arith))
      (edges_from-EndsBelow all (suc s) ps (omega arith))

ends-TargetsBelow : (n : ℕ) (es : List (ℕ × ℕ)) → EndsBelow n es → TargetsBelow n es
ends-TargetsBelow n [] h = tt
ends-TargetsBelow n (e ∷ es) h = (h.0.1, ends-TargetsBelow n es h.1)

module _ (all : List Plugin) where
  abbrev pub edges : List (ℕ × ℕ)
  edges = edges_from all 0 all

  -- The places that the loop orders.
  abbrev pub loop_order : List ℕ
  loop_order =
      kahn all edges (length all) (in_degree edges)
        (keep (λ i. in_degree edges i == 0) (places 0 (length all)))

  start-IsState :
      IsState all edges
        (length all)
        (in_degree edges)
        (keep (λ i. in_degree edges i == 0) (places 0 (length all)))
        []
  start-IsState = record {
    degrees = λ i. pending-start edges i;
    counts = λ i. ground (
      arith,
      count-keep (λ k. in_degree edges k == 0) (places 0 (length all)) i,
      count-places 0 (length all) i,
    );
  }

  undone_start : (n : ℕ) → undone n [] ≤ n
  undone_start zero = omega arith
  undone_start (suc n) = ground (arith, undone_start n)

  pub edges-EndsBelow : EndsBelow (length all) edges
  edges-EndsBelow = edges_from-EndsBelow all 0 all (omega arith)

  pub loop_end :
      IsClosed all edges (length all) loop_order × Ordered all edges (length all) [] loop_order
  loop_end =
      kahn_end all edges (length all) (length all) (in_degree edges) _ []
        (ends-TargetsBelow (length all) edges edges-EndsBelow) (undone_start (length all))
        start-IsState

  -- Each of the plugins' places stands in the order exactly once, and no other place does, whatever
  -- the dependencies are: cycles and missing plugins lose none.
  pub order_places_exact :
      (i : ℕ) → count i (order_places all) ≡ (if ltb i (length all) then 1 else 0)
  unfolding order_places
  order_places_exact i =
      let rest = keep (λ k. not (has_place k loop_order)) (places 0 (length all)) in
      ground (
        arith,
        count_if-append (λ k. k == i) loop_order (sort_places all rest),
        count-sort_places all i rest,
        count-keep (λ k. not (has_place k loop_order)) (places 0 (length all)) i,
        count-places 0 (length all) i,
        loop_end.0 i,
      )
