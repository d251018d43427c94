-- ===== src/Plugins/Kahn.antt =====
-- The steps of the loop in `orderPlugins` of internal/kernel/kernel_lifecycle.go, by how often a
-- place occurs.
use asscor.Prelude.{
  ℕ, suc, ◌+◌, ◌-◌, ◌<◌, ◌≡◌, refl, ◌&&◌, List, [], ◌∷◌, ◌++◌, arith, ltb, leb, ◌==◌, if◌then◌else◌,
  count_if, count_if-append,
}
use asscor.Plugins.{Plugin, dependents, in_degree, best_of, lower, without, release}

abbrev pub count : ℕ → List ℕ → ℕ
count i xs = count_if (λ k. k == i) xs

pub count-best_of :
    (all : List Plugin) (b : ℕ) (rs : List ℕ) → 0 < count (best_of all b rs) (b ∷ rs)
unfolding best_of
count-best_of all b [] = ground arith
count-best_of all b (r ∷ rs) = ground (arith, count-best_of all r rs, count-best_of all b rs)

pub count-without :
    (b i : ℕ) (rs : List ℕ)
    → 0 < count b rs
    → count i (without b rs) + (if b == i then 1 else 0) ≡ count i rs
unfolding without
count-without b i [] h = ground arith
count-without b i (r ∷ rs) h = ground (arith, count-without b i rs)

pub release_degree :
    (ds : List ℕ) (indeg : ℕ → ℕ) (ready : List ℕ) (i : ℕ)
    → (release ds indeg ready).0 i ≡ indeg i - count i ds
unfolding release
release_degree [] indeg ready i = omega arith
release_degree (d ∷ ds) indeg ready i =
    ground
      (arith, release_degree ds (lower d indeg) (if indeg d == 1 then ready ++ d ∷ [] else ready) i)

-- A place becomes ready where its degree falls to 0.
abbrev pub falls : ℕ → ℕ → ℕ
falls degree lowered = if ltb 0 degree && leb degree lowered then 1 else 0

pub release_ready :
    (ds : List ℕ) (indeg : ℕ → ℕ) (ready : List ℕ) (i : ℕ)
    → count i (release ds indeg ready).1 ≡ count i ready + falls (indeg i) (count i ds)
unfolding release
release_ready [] indeg ready i = ground arith
release_ready (d ∷ ds) indeg ready i = ground (
  arith,
  release_ready ds (lower d indeg) (if indeg d == 1 then ready ++ d ∷ [] else ready) i,
  count_if-append (λ k. k == i) ready (d ∷ []),
)

-- How many edges to a place come from places that are not done.
unfoldable pub pending : List (ℕ × ℕ) → List ℕ → ℕ → ℕ
pending [] done i = 0
pending ((a, b) ∷ es) done i =
    let rest = pending es done i in if b == i && count a done == 0 then suc rest else rest

pub pending-start : (es : List (ℕ × ℕ)) (i : ℕ) → in_degree es i ≡ pending es [] i
unfolding in_degree pending
pending-start [] i = refl
pending-start ((a, b) ∷ es) i = ground (arith, pending-start es i)

pub pending-done :
    (es : List (ℕ × ℕ)) (done : List ℕ) (b i : ℕ)
    → count b done ≡ 0
    → pending es done i ≡ pending es (done ++ b ∷ []) i + count i (dependents b es)
unfolding pending dependents
pending-done [] done b i h = omega arith
pending-done ((a, c) ∷ es) done b i h =
    ground (arith, pending-done es done b i h, count_if-append (λ k. k == a) done (b ∷ []), h)
