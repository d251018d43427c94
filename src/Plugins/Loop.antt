-- ===== src/Plugins/Loop.antt =====
-- The loop in `orderPlugins` of internal/kernel/kernel_lifecycle.go, run to its end.
use asscor.Prelude.{
  ℕ, zero, suc, ◌+◌, ◌≤◌, ◌<◌, ◌≡◌, refl, false, ◌&&◌, List, [], ◌∷◌, ◌++◌, arith, ltb, ◌==◌,
  if◌then◌else◌, count_if-append, All, subst,
}
use mathlib.Core.List.{append-nil, append_assoc}
use asscor.Plugins.{Plugin, dependents, best_of, without, release, kahn}
use asscor.Plugins.Kahn.{
  count, count-best_of, count-without, release_degree, release_ready, pending, pending-done,
}

abbrev pub TargetsBelow : ℕ → List (ℕ × ℕ) → Type 0
TargetsBelow n = All (λ e. e.1 < n)

pending_below :
    (n i : ℕ) (es : List (ℕ × ℕ)) (done : List ℕ)
    → TargetsBelow n es
    → ltb i n ≡ false
    → pending es done i ≡ 0
unfolding pending
pending_below n i [] done t h = refl
pending_below n i ((a, b) ∷ es) done t h = ground (arith, pending_below n i es done t.1 h, t.0)

-- How many of the first places are not done.
abbrev pub undone : ℕ → List ℕ → ℕ
undone zero done = 0
undone (suc k) done = let rest = undone k done in if count k done == 0 then suc rest else rest

undone_above : (n b : ℕ) (done : List ℕ) → n ≤ b → undone n (done ++ b ∷ []) ≡ undone n done
undone_above zero b done h = refl
undone_above (suc k) b done h =
    ground (arith, undone_above k b done, count_if-append (λ j. j == k) done (b ∷ []))

undone-done :
    (n b : ℕ) (done : List ℕ)
    → b < n
    → count b done ≡ 0
    → undone n done ≡ suc (undone n (done ++ b ∷ []))
undone-done zero b done h c = absurd (omega arith)
undone-done (suc k) b done h c = ground (
  arith,
  undone-done k b done,
  undone_above k b done,
  count_if-append (λ j. j == k) done (b ∷ []),
)

undone_none : (n i : ℕ) (done : List ℕ) → undone n done ≡ 0 → i < n → 0 < count i done
undone_none zero i done h k = absurd (omega arith)
undone_none (suc m) i done h k = ground (arith, undone_none m i done)

module _ (all : List Plugin) (es : List (ℕ × ℕ)) (n : ℕ) where
  -- The state of the loop: the degrees count the edges from places that are not done, and the
  -- places below the bound with degree 0 are, once each, either ready or done.
  pub record IsState (indeg : ℕ → ℕ) (ready done : List ℕ) : Type 0 where
    pub degrees : (i : ℕ) → indeg i ≡ pending es done i
    pub counts : (i : ℕ) → count i ready + count i done ≡ (if ltb i n && indeg i == 0 then 1 else 0)

  best_ready :
      (indeg : ℕ → ℕ) (r : ℕ) (rs done : List ℕ)
      → IsState indeg (r ∷ rs) done
      → let b = best_of all r rs in (b < n) × (count b done ≡ 0) × (pending es done b ≡ 0)
  best_ready indeg r rs done s =
      let b = best_of all r rs in ground (arith, count-best_of all r rs, s.counts b, s.degrees b)

  step-IsState :
      (indeg : ℕ → ℕ) (r : ℕ) (rs done : List ℕ)
      → TargetsBelow n es
      → IsState indeg (r ∷ rs) done
      → let b = best_of all r rs in
        let next = release (dependents b es) indeg (without b (r ∷ rs)) in
        IsState next.0 next.1 (done ++ b ∷ [])
  step-IsState indeg r rs done t s =
      let b = best_of all r rs in
      let ready = without b (r ∷ rs) in
      let ds = dependents b es in
      let best = best_ready indeg r rs done s in
      record {
        degrees = λ i.
            omega (
              arith,
              release_degree ds indeg ready i,
              s.degrees i,
              pending-done es done b i best.1,
            );
        counts = λ i. ground (
          arith,
          release_degree ds indeg ready i,
          release_ready ds indeg ready i,
          s.degrees i,
          s.counts i,
          pending-done es done b i best.1,
          count_if-append (λ k. k == i) done (b ∷ []),
          count-without b i (r ∷ rs) (count-best_of all r rs),
          pending_below n i es done t,
        );
      }

  -- The places below the bound that have no edge from a place that is not done are done, once each,
  -- and no others.
  abbrev pub IsClosed : List ℕ → Type 0
  IsClosed done = (i : ℕ) → count i done ≡ (if ltb i n && pending es done i == 0 then 1 else 0)

  -- Each place of a list behind others has all its edges from places before it.
  abbrev pub Ordered : List ℕ → List ℕ → Type 0
  Ordered before [] = Unit
  Ordered before (i ∷ is) = (pending es before i ≡ 0) × Ordered (before ++ i ∷ []) is

  pub kahn_end :
      (fuel : ℕ) (indeg : ℕ → ℕ) (ready done : List ℕ)
      → TargetsBelow n es
      → undone n done ≤ fuel
      → IsState indeg ready done
      → IsClosed (done ++ kahn all es fuel indeg ready)
        × Ordered done (kahn all es fuel indeg ready)
  unfolding kahn
  kahn_end zero indeg ready done t h s = (
    λ i.
        rw (append-nil done)
          (ground (arith, s.counts i, s.degrees i, undone_none n i done (omega arith))),
    tt,
  )
  kahn_end (suc fuel) indeg [] done t h s =
      ((λ i. rw (append-nil done) (ground (arith, s.counts i, s.degrees i))), tt)
  kahn_end (suc fuel) indeg (r ∷ rs) done t h s =
      let b = best_of all r rs in
      let best = best_ready indeg r rs done s in
      let next = release (dependents b es) indeg (without b (r ∷ rs)) in
      let rest =
        kahn_end fuel next.0 next.1 (done ++ b ∷ []) t
          (omega (arith, undone-done n b done best.0 best.1)) (step-IsState indeg r rs done t s) in
      (
        subst IsClosed (append_assoc done (b ∷ []) (kahn all es fuel next.0 next.1)) rest.0,
        (best.2, rest.1),
      )
