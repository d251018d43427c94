-- ===== src/Plugins/Acyclic.antt =====
-- Plugins without a cycle of dependencies, of internal/kernel/kernel_lifecycle.go.
use asscor.Prelude.{
  ℕ, zero, suc, ◌+◌, ◌≤◌, ◌<◌, ◌≡◌, refl, sym, ap, Bool, false, not, List, [], ◌∷◌, arith, ◌==◌,
  keep, length, All, subst, Bool-cases, inl, inr,
}
use mathlib.Core.List.{append-nil}
use asscor.Plugins.{Plugin, places, sort_places, has_place, order_places}
use asscor.Plugins.Kahn.{count, pending}
use asscor.Plugins.Loop.{Ordered}
use asscor.Plugins.Order.{EndsBelow, edges, edges-EndsBelow, loop_order, loop_end}

keep_none : (p : ℕ → Bool) (xs : List ℕ) → All (λ i. p i ≡ false) xs → keep p xs ≡ []
keep_none p [] h = refl
keep_none p (x ∷ xs) h = rw (h.0) (keep_none p xs h.1)

places-All {κ} : (P : ℕ → Type κ) (s n : ℕ) → ((i : ℕ) → i < s + n → P i) → All P (places s n)
unfolding places
places-All P s zero h = tt
places-All P s (suc n) h =
    (h s (omega arith), places-All P (suc s) n (λ i k. h i (omega (arith, k))))

-- Each edge goes up in a rank, so the dependencies have no cycle.
abbrev pub IsRanked : (ℕ → ℕ) → List (ℕ × ℕ) → Type 0
IsRanked rank = All (λ e. rank e.0 < rank e.1)

pending_ranked :
    (rank : ℕ → ℕ) (n k i : ℕ) (es : List (ℕ × ℕ)) (out : List ℕ)
    → EndsBelow n es
    → IsRanked rank es
    → ((j : ℕ) → j < n → rank j < k → 0 < count j out)
    → rank i ≤ k
    → pending es out i ≡ 0
unfolding pending
pending_ranked rank n k i [] out e r h b = refl
pending_ranked rank n k i ((a, c) ∷ es) out e r h b =
    let rest = pending_ranked rank n k i es out e.1 r.1 h b in
    elim (Bool-cases (c == i)) [
      | inl t ↦
          let same : c ≡ i = ground arith in
          let up = ap rank same in
          let done = h a e.0.0 (omega (arith, r.0, up, b)) in ground (arith, t, done, rest)
      | inr f ↦ ground (arith, f, rest)
    ]

module _ (all : List Plugin) (rank : ℕ → ℕ) (ranked : IsRanked rank (edges all)) where
  all_done : (k j : ℕ) → j < length all → rank j < k → 0 < count j (loop_order all)
  all_done zero j h r = absurd (omega arith)
  all_done (suc k) j h r =
      let none_left =
        pending_ranked rank (length all) k j (edges all) (loop_order all) (edges-EndsBelow all)
          ranked (all_done k) (omega arith) in
      ground (arith, none_left, (loop_end all).0 j)

  rest_empty : keep (λ i. not (has_place i (loop_order all))) (places 0 (length all)) ≡ []
  rest_empty = keep_none _ (places 0 (length all)) (
      places-All _ 0 (length all)
        (λ i h. ground (arith, all_done (suc (rank i)) i (omega arith) (omega arith))))

  order_places-loop_order : order_places all ≡ loop_order all
  unfolding order_places sort_places
  order_places-loop_order = rw rest_empty (append-nil (loop_order all))

  -- Where the dependencies have no cycle, that is where they go up in some rank, each plugin stands
  -- in the order behind all the other registered plugins that it names as dependencies, those that
  -- have an interface as well left out.
  pub dependencies_first : Ordered all (edges all) (length all) [] (order_places all)
  dependencies_first =
      subst (λ o. Ordered all (edges all) (length all) [] o) (sym order_places-loop_order)
        (loop_end all).1
