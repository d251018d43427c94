-- ===== src/Semver/Order/Laws.antt =====
-- `Less`, `Equal` and `Greater` of internal/semver/semver.go form an order.
use asscor.Prelude.{ℕ, ◌≡◌, ◌⊎◌, refl, sym, ap, ◌∙◌, Bool, true, false, arith, ◌==◌, inl, inr}
use asscor.Semver.Defs.{SemVer}
use asscor.Semver.Compare.{is_negative, is_positive, compare, less, greater, equal}
use asscor.Semver.Order.Refines.{sign_of, InRange, compare-version_sign}
use asscor.Semver.Order.Signs.{Sign, below, equal_to, above, flip}
use asscor.Semver.Order.Spec.{version_sign, version_sign-IsComparison}

abbrev is_below : Sign → Bool
is_below below = true
is_below _ = false

abbrev is_equal : Sign → Bool
is_equal equal_to = true
is_equal _ = false

abbrev is_above : Sign → Bool
is_above above = true
is_above _ = false

-- The three tests read the sign, also that of a difference that wraps.
sign_tests :
    (n : ℕ)
    → (is_negative n ≡ is_below (sign_of n))
      × ((n == 0) ≡ is_equal (sign_of n))
      × (is_positive n ≡ is_above (sign_of n))
sign_tests n = ground arith

module _ (u v : SemVer) (h : InRange u) (k : InRange v) where
  tests :
      (less u v ≡ is_below (version_sign u v))
      × (equal u v ≡ is_equal (version_sign u v))
      × (greater u v ≡ is_above (version_sign u v))
  unfolding less equal greater
  tests =
      let e = compare-version_sign u v h k in
      let t = sign_tests (compare u v) in
      (t.0 ∙ ap is_below e, t.1 ∙ ap is_equal e, t.2 ∙ ap is_above e)

  less→below : less u v ≡ true → version_sign u v ≡ below
  less→below l = below_of (version_sign u v) (sym tests.0 ∙ l)
    where
      below_of : (s : Sign) → is_below s ≡ true → s ≡ below
      below_of below e = refl
      below_of equal_to e = cc
      below_of above e = cc

  equal→equal_to : equal u v ≡ true → version_sign u v ≡ equal_to
  equal→equal_to l = equal_of (version_sign u v) (sym tests.1 ∙ l)
    where
      equal_of : (s : Sign) → is_equal s ≡ true → s ≡ equal_to
      equal_of below e = cc
      equal_of equal_to e = refl
      equal_of above e = cc

one_of_three :
    (s : Sign)
    → ((is_below s ≡ true) × (is_equal s ≡ false) × (is_above s ≡ false))
      ⊎ ((is_below s ≡ false) × (is_equal s ≡ true) × (is_above s ≡ false))
      ⊎ ((is_below s ≡ false) × (is_equal s ≡ false) × (is_above s ≡ true))
one_of_three below = inl (refl, refl, refl)
one_of_three equal_to = inr (inl (refl, refl, refl))
one_of_three above = inr (inr (refl, refl, refl))

flip_tests : (s : Sign) → (is_below (flip s) ≡ is_above s) × (is_equal (flip s) ≡ is_equal s)
flip_tests below = (refl, refl)
flip_tests equal_to = (refl, refl)
flip_tests above = (refl, refl)

-- `Less` is transitive on versions whose numbers are not negative.
pub less_trans :
    (u v w : SemVer)
    → InRange u
    → InRange v
    → InRange w
    → less u v ≡ true
    → less v w ≡ true
    → less u w ≡ true
less_trans u v w h k l p q =
    let r = version_sign-IsComparison.chain u v w (less→below u v h k p) (less→below v w k l q) in
    (tests u w h l).0 ∙ ap is_below r

-- Versions that `Equal` takes for one another compare alike with every other version.
pub equal-congruent :
    (u v w : SemVer)
    → InRange u
    → InRange v
    → InRange w
    → equal u v ≡ true
    → (less u w ≡ less v w) × (equal u w ≡ equal v w) × (greater u w ≡ greater v w)
equal-congruent u v w h k l p =
    let e = version_sign-IsComparison.congruent u v w (equal→equal_to u v h k p) in
    let a = tests u w h l in
    let b = tests v w k l in
    (a.0 ∙ ap is_below e ∙ sym b.0, a.1 ∙ ap is_equal e ∙ sym b.1, a.2 ∙ ap is_above e ∙ sym b.2)

-- Exactly one of `Less`, `Equal` and `Greater` holds; and `Greater` is `Less` the other way round,
-- `Equal` the same both ways.
pub trichotomy :
    (u v : SemVer)
    → InRange u
    → InRange v
    → (((less u v ≡ true) × (equal u v ≡ false) × (greater u v ≡ false))
        ⊎ ((less u v ≡ false) × (equal u v ≡ true) × (greater u v ≡ false))
        ⊎ ((less u v ≡ false) × (equal u v ≡ false) × (greater u v ≡ true)))
      × (less v u ≡ greater u v)
      × (equal v u ≡ equal u v)
trichotomy u v h k =
    let t = tests u v h k in
    let back = tests v u k h in
    let e = version_sign-IsComparison.flips u v in
    let s = version_sign u v in
    (
      rw (t.0, t.1, t.2) (one_of_three s),
      back.0 ∙ ap is_below e ∙ (flip_tests s).0 ∙ sym t.2,
      back.1 ∙ ap is_equal e ∙ (flip_tests s).1 ∙ sym t.1,
    )
