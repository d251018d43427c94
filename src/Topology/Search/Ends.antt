-- ===== src/Topology/Search/Ends.antt =====
-- The breadth-first search of internal/topology/multigraph.go ends: each round takes a node from the
-- queue, and a node enters it once.
use asscor.Prelude.{
  ℕ, zero, suc, ◌+◌, ◌≤◌, ◌≡◌, refl, ap, true, false, not, inl, inr, ◌⊎◌, List, [], ◌∷◌, some,
  arith, Bytes, length, length-append, count_if, count_if-le-length, bytes_beq, bytes_beq_iff, All,
  All-append, Bool-cases,
}
use asscor.Topology.Search.{
  Edges, has, ends_at, of_type, adjacent, Search, offer, scan, too_far, expand, search_loop,
  start_search, all_ends, result_of, reachable,
}

pub List-cases {ℓ} :
    {A : Type ℓ} (xs : List A) → (xs ≡ []) ⊎ ((x : A) × (rest : List A) × (xs ≡ x ∷ rest))
List-cases [] = inl refl
List-cases (x ∷ xs) = inr (x, xs, refl)

pub has_refl : (x : Bytes) (ys : List Bytes) → has x (x ∷ ys) ≡ true
has_refl x ys = ground (arith, bytes_beq_iff x x)

module _ (es : Edges) where
  abbrev pub Known : Bytes → Type 0
  Known x = has x (all_ends es) ≡ true

  -- The ends of the edges that were not seen.
  abbrev unseen : List Bytes → ℕ
  unseen seen = count_if (λ x. not (has x seen)) (all_ends es)

  abbrev work : Search → ℕ
  work s = unseen s.seen + length s.queue

adjacent-Known :
    (typ id : Bytes) (es fs : Edges)
    → ((x : Bytes) → has x (all_ends fs) ≡ true → Known es x)
    → All (Known es) (adjacent typ id fs)
unfolding adjacent
adjacent-Known typ id es [] k = tt
adjacent-Known typ id es ((key, e) ∷ fs) k =
    let rest = adjacent-Known typ id es fs λ x h. k x (ground (arith, h)) in
    let source : Known es e.source = k e.source (has_refl e.source (e.target ∷ all_ends fs)) in
    let target : Known es e.target = k e.target (ground (arith, bytes_beq_iff e.target e.target)) in
    elim (Bool-cases (of_type typ e)) [
      | inr q ↦ rw q rest
      | inl q ↦
          rw q (All-append (Known es) (ends_at id e) (adjacent typ id fs) (ends source target) rest)
    ]
  where
    ends : Known es e.source → Known es e.target → All (Known es) (ends_at id e)
    ends s t = elim (Bool-cases (bytes_beq e.source id)) [
      | inl q ↦ elim (Bool-cases (bytes_beq e.target id)) [
        | inl r ↦ rw (q, r) (t, (s, tt))
        | inr r ↦ rw (q, r) (t, tt)
      ]
      | inr q ↦ elim (Bool-cases (bytes_beq e.target id)) [
        | inl r ↦ rw (q, r) (s, tt)
        | inr r ↦ rw (q, r) tt
      ]
    ]

count_if-more :
    (x : Bytes) (seen us : List Bytes)
    → count_if (λ y. not (has y (x ∷ seen))) us ≤ count_if (λ y. not (has y seen)) us
count_if-more x seen [] = omega arith
count_if-more x seen (u ∷ us) = ground (arith, count_if-more x seen us)

-- A new node is one fewer to see.
count_if-seen :
    (x : Bytes) (seen us : List Bytes)
    → has x us ≡ true
    → has x seen ≡ false
    → suc (count_if (λ y. not (has y (x ∷ seen))) us) ≤ count_if (λ y. not (has y seen)) us
count_if-seen x seen [] h n = cc
count_if-seen x seen (u ∷ us) h n = elim (Bool-cases (bytes_beq u x)) [
  | inl q ↦
      let same = (bytes_beq_iff u x).0 q in
      ground (arith, count_if-more x seen us, same, bytes_beq_iff x u, n, ap (λ y. has y seen) same)
  | inr q ↦ ground (
    arith,
    count_if-seen x seen us,
    count_if-more x seen us,
    bytes_beq_iff x u,
    bytes_beq_iff u x,
    q,
    h,
  )
]

module _ (es : Edges) where
  offer-work : (cur nb : Bytes) (s : Search) → Known es nb → work es (offer cur nb s) ≤ work es s
  unfolding offer
  offer-work cur nb s k = elim (Bool-cases (has nb s.seen)) [
    | inl q ↦ rw q (omega arith)
    | inr q ↦
        rw q (
          omega (arith, count_if-seen nb s.seen (all_ends es) k q, length-append s.queue (nb ∷ [])))
  ]

  scan-work :
      (cur : Bytes) (nbs : List Bytes) (s : Search)
      → All (Known es) nbs
      → work es (scan cur nbs s) ≤ work es s
  unfolding scan
  scan-work cur [] s k = omega arith
  scan-work cur (nb ∷ nbs) s k =
      omega (arith, scan-work cur nbs (offer cur nb s) k.1, offer-work cur nb s k.0)

  module _ (typ : Bytes) (max_hops : ℕ) where
    expand-work :
        (cur : Bytes) (rest : List Bytes) (s : Search)
        → s.queue ≡ cur ∷ rest
        → suc (work es (expand typ max_hops es cur rest s)) ≤ work es s
    unfolding expand
    expand-work cur rest s e = elim (Bool-cases (too_far max_hops cur s)) [
      | inl q ↦ rw q (omega (arith, ap (length {A = Bytes}) e))
      | inr q ↦ rw q (
          omega (
            arith,
            ap (length {A = Bytes}) e,
            scan-work cur (adjacent typ cur es) (record s { queue = rest })
                (adjacent-Known typ cur es es (λ x h. h)),
          ))
    ]

    -- Enough fuel gives a result.
    pub search_ends :
        (fuel : ℕ) (s : Search)
        → work es s ≤ fuel
        → (t : Search) × (search_loop typ max_hops es fuel s ≡ some t)
    unfolding search_loop
    search_ends zero s h = elim (List-cases s.queue) [
      | inl e ↦ (s, rw e refl)
      | inr (cur, rest, e) ↦ absurd (omega (arith, ap (length {A = Bytes}) e))
    ]
    search_ends (suc fuel) s h = elim (List-cases s.queue) [
      | inl e ↦ (s, rw e refl)
      | inr (cur, rest, e) ↦
          let (t, ends) =
            search_ends fuel (expand typ max_hops es cur rest s)
              (omega (arith, expand-work cur rest s e)) in
          (t, rw e ends)
    ]

    pub start_ends :
        (start : Bytes)
        → (t : Search) × (search_loop typ max_hops es
              (suc (length (all_ends es)))
              (start_search start)
            ≡ some t)
    start_ends start =
        search_ends (suc (length (all_ends es))) (start_search start)
          (omega (arith, count_if-le-length (λ y. not (has y (start ∷ []))) (all_ends es)))

-- `Reachable` ends, for every graph, node, bound of the hops and type of edges.
pub reachable_ends :
    (start : Bytes) (max_hops : ℕ) (typ : Bytes) (es : Edges)
    → (out : List Bytes) × (reachable start max_hops typ es ≡ some out)
unfolding reachable
reachable_ends start max_hops typ es =
    let (t, e) = start_ends es typ max_hops start in (result_of start t, rw e refl)
