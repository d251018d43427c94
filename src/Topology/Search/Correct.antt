-- ===== src/Topology/Search/Correct.antt =====
-- Without a bound of the hops the search of internal/topology/multigraph.go finds exactly the nodes
-- that a walk leads to.
use asscor.Prelude.{
  ℕ, zero, suc, ◌≡◌, ◌≢◌, ◌↔◌, refl, sym, ◌∙◌, ap, subst, true, not, ◌&&◌, ◌||◌, ◌⊎◌, inl, inr,
  List, [], ◌∷◌, ◌++◌, some, arith, Bytes, length, keep, bytes_beq, bytes_beq_iff, Bool-cases,
  if◌then◌else◌,
}
use mathlib.Core.Bool.{So-prop}
use mathlib.Core.Logic.{∥∥₁_elim}
use asscor.Topology.Search.{
  Edges, has, adjacent, Search, offer, scan, expand, search_loop, start_search, all_ends, result_of,
  reachable, sort_in, sort_strings,
}
use asscor.Topology.Search.Ends.{List-cases, has_refl, start_ends}

has-concat : (x nb : Bytes) (q : List Bytes) → has x (q ++ (nb ∷ [])) ≡ (has x q || bytes_beq nb x)
has-concat x nb [] = ground arith
has-concat x nb (y ∷ q) = ground (arith, has-concat x nb q)

has_same : (x y : Bytes) (ys : List Bytes) → bytes_beq x y ≡ true → has x ys ≡ has y ys
has_same x y ys h = ap (λ z. has z ys) ((bytes_beq_iff x y).0 h)

seen-offer :
    (cur nb : Bytes) (s : Search) (w : Bytes)
    → has w (offer cur nb s).seen ≡ (bytes_beq nb w || has w s.seen)
unfolding offer
seen-offer cur nb s w = elim (Bool-cases (has nb s.seen)) [
  | inl q ↦ rw (q, if◌then◌else◌) (ground (arith, has_same nb w s.seen, q))
  | inr q ↦ rw (q, if◌then◌else◌) refl
]

queue-offer :
    (cur nb : Bytes) (s : Search) (w : Bytes)
    → has w (offer cur nb s).queue ≡ (has w s.queue || (bytes_beq nb w && not (has w s.seen)))
unfolding offer
queue-offer cur nb s w = elim (Bool-cases (has nb s.seen)) [
  | inl q ↦ rw (q, if◌then◌else◌) (ground (arith, has_same nb w s.seen, q))
  | inr q ↦ rw (q, if◌then◌else◌) (ground (arith, has_same nb w s.seen, has-concat w nb s.queue, q))
]

-- `scan` marks exactly the nodes that it is given.
pub seen-scan :
    (cur : Bytes) (nbs : List Bytes) (s : Search) (w : Bytes)
    → has w (scan cur nbs s).seen ≡ (has w nbs || has w s.seen)
unfolding scan
seen-scan cur [] s w = refl
seen-scan cur (nb ∷ nbs) s w =
    seen-scan cur nbs (offer cur nb s) w ∙ ground (arith, seen-offer cur nb s w)

-- What was queued stays, and what is newly marked is queued.
pub queue-scan :
    (cur : Bytes) (nbs : List Bytes) (s : Search) (w : Bytes)
    → has w (scan cur nbs s).queue ≡ (has w s.queue || (has w nbs && not (has w s.seen)))
unfolding scan
queue-scan cur [] s w = ground arith
queue-scan cur (nb ∷ nbs) s w =
    queue-scan cur nbs (offer cur nb s) w
    ∙ ground (arith, seen-offer cur nb s w, queue-offer cur nb s w)

-- The walks from a node over edges of a type.
pub data Walk (typ : Bytes) (es : Edges) (start : Bytes) : Bytes → Type 0 where
  here : Walk typ es start start
  step :
      {u v : Bytes} → Walk typ es start u → has v (adjacent typ u es) ≡ true → Walk typ es start v

module _ (typ : Bytes) (es : Edges) (start : Bytes) where
  record Inv (s : Search) : Type 0 where
    first : has start s.seen ≡ true
    queued : (v : Bytes) → has v s.queue ≡ true → has v s.seen ≡ true
    sound : (v : Bytes) → has v s.seen ≡ true → Walk typ es start v
    closed :
        (u v : Bytes)
        → has u s.seen ≡ true
        → has v (adjacent typ u es) ≡ true
        → (has u s.queue ≡ true) ⊎ (has v s.seen ≡ true)

  start-Inv : Inv (start_search start)
  start-Inv = record {
    first = has_refl start [];
    queued = λ v q. q;
    sound = λ v m. subst (Walk typ es start) ((bytes_beq_iff start v).0 (ground (arith, m))) here;
    closed = λ u v m e. inl m;
  }

  expand-Inv :
      (s : Search) (cur : Bytes) (rest : List Bytes)
      → s.queue ≡ cur ∷ rest
      → Inv s
      → Inv (expand typ 0 es cur rest s)
  unfolding expand
  expand-Inv s cur rest e h =
      let s' : Search = record s { queue = rest } in
      let nbs = adjacent typ cur es in
      let flags = seen-scan cur nbs s' in
      let queue = queue-scan cur nbs s' in
      let split = λ (x : Bytes). ap (has x) e in
      let cur_seen = h.queued cur (split cur ∙ has_refl cur rest) in
      record {
        first = ground (arith, flags start, h.first);
        queued = λ v q. ground (arith, flags v, queue v, h.queued v, split v);
        sound = λ v m. elim (Bool-cases (has v s.seen)) [
          | inl q ↦ h.sound v q
          | inr q ↦ step (h.sound cur cur_seen) (ground (arith, flags v, q, m))
        ];
        closed = λ u v m edge. elim (Bool-cases (has u s.seen)) [
          | inr q ↦ inl (ground (arith, queue u, flags u, q, m))
          | inl q ↦ elim (h.closed u v q edge) [
            | inr n ↦ inr (ground (arith, flags v, n))
            | inl n ↦ elim (Bool-cases (bytes_beq cur u)) [
              | inl same ↦
                  let at_cur : has v nbs ≡ true =
                    subst (λ x. has v (adjacent typ x es) ≡ true)
                      (sym ((bytes_beq_iff cur u).0 same)) edge in
                  inr (ground (arith, flags v, at_cur))
              | inr apart ↦ inl (ground (arith, queue u, split u, n, apart))
            ]
          ]
        ];
      }

  search_rule :
      (fuel : ℕ) (s t : Search)
      → Inv s
      → search_loop typ 0 es fuel s ≡ some t
      → Inv t × (t.queue ≡ [])
  unfolding search_loop
  search_rule zero s t h e = elim (List-cases s.queue) [
    | inl q ↦ ground (arith, q)
    | inr (cur, rest, q) ↦ absurd (ground (arith, q))
  ]
  search_rule (suc fuel) s t h e = elim (List-cases s.queue) [
    | inl q ↦ ground (arith, q)
    | inr (cur, rest, q) ↦
        search_rule fuel (expand typ 0 es cur rest s) t (expand-Inv s cur rest q h)
          (rw (q, search_loop) at e)
  ]

  complete :
      (t : Search) → Inv t → t.queue ≡ [] → {v : Bytes} → Walk typ es start v → has v t.seen ≡ true
  complete t h e here = h.first
  complete t h e (step {u} {v} p edge) = elim (h.closed u v (complete t h e p) edge) [
    | inl q ↦ absurd (cc (ap (has u) e, q))
    | inr m ↦ m
  ]

has-sort_in : (v x : Bytes) (ys : List Bytes) → has v (sort_in x ys) ≡ (bytes_beq x v || has v ys)
has-sort_in v x [] = refl
has-sort_in v x (y ∷ ys) = ground (arith, has-sort_in v x ys)

has-sort_strings : (v : Bytes) (xs : List Bytes) → has v (sort_strings xs) ≡ has v xs
has-sort_strings v [] = refl
has-sort_strings v (x ∷ xs) =
    has-sort_in v x (sort_strings xs) ∙ ground (arith, has-sort_strings v xs)

has-keep :
    (v start : Bytes) (xs : List Bytes)
    → has v (keep (λ x. not (bytes_beq x start)) xs) ≡ (has v xs && not (bytes_beq v start))
has-keep v start [] = refl
has-keep v start (x ∷ xs) =
    ground
      (arith, has-keep v start xs, λ (e : x ≡ v). ap (λ y. bytes_beq y start) e, bytes_beq_iff x v)

-- Without a bound of the hops, `Reachable` returns, and the nodes of the result are exactly those
-- other than the start that a walk over edges of the type leads to, in either direction of the edges.
pub reachable_decides :
    (start typ : Bytes) (es : Edges)
    → (out : List Bytes) × (reachable start 0 typ es ≡ some out)
      × ((v : Bytes) → (has v out ≡ true) ↔ ((v ≢ start) × ∥ Walk typ es start v ∥₁))
unfolding reachable
reachable_decides start typ es =
    let (t, e) = start_ends es typ 0 start in
    let (inv, empty) =
      search_rule typ es start (suc (length (all_ends es))) (start_search start) t
        (start-Inv typ es start) e in
    (
      result_of start t,
      rw e refl,
      λ v.
          let found = has-sort_strings v _ ∙ has-keep v start t.seen in
          (
            λ m. (
              λ p. ground (arith, found, bytes_beq_iff v start, m, p),
              ∣ inv.sound v (ground (arith, found, m)) ∣₁,
            ),
            λ (n, w).
                let seen = ∥∥₁_elim w (So-prop _) (complete typ es start t inv empty) in
                ground (arith, found, bytes_beq_iff v start, n, seen),
          ),
    )
