-- ===== src/Semver/Constraint/Satisfies.antt =====
-- Which versions a constraint of internal/semver/semver.go accepts.
use asscor.Prelude.{
  ℕ, ◌≤◌, ◌<◌, ◌≡◌, refl, ap, ◌∙◌, ◌↔◌, ◌⊎◌, Bool, true, false, not, ◌&&◌, ◌||◌, [], arith, ltb,
  leb, ◌==◌, if◌then◌else◌, Bytes,
}
use asscor.Semver.Defs.{SemVer}
use asscor.Semver.Compare.{is_negative, is_positive, compare, compare_pres}
use asscor.Semver.Order.Signs.{Sign, below, equal_to, above}
use asscor.Semver.Order.Spec.{version_sign, pre_sign}
use asscor.Semver.Order.Precedence.{IsPlain, precedence, version_sign-precedence}
use asscor.Prelude.{All, split}
use asscor.Semver.Order.Refines.{sign_of, InRange, compare-version_sign}
use asscor.Semver.Constraint.{Constraint, caret, tilde, satisfied_by, above_min, below_max}

-- The place of a version against a bound, open or not.
abbrev pub over : Bool → Sign → Bool
over is_open below = false
over is_open equal_to = not is_open
over is_open above = true

abbrev pub under : Bool → Sign → Bool
under is_open below = true
under is_open equal_to = not is_open
under is_open above = false

min_test :
    (n : ℕ) (is_open : Bool)
    → (if is_open then not (n == 0 || is_negative n) else not (is_negative n))
      ≡ over is_open (sign_of n)
min_test n is_open = ground arith

max_test :
    (n : ℕ) (is_open : Bool)
    → (if is_open then not (n == 0 || is_positive n) else not (is_positive n))
      ≡ under is_open (sign_of n)
max_test n is_open = ground arith

-- Where the numbers of the version and of both bounds are not negative, `SatisfiedBy` accepts exactly
-- the versions between the bounds that the constraint has, an open bound left out, in the order that
-- reads a field of a pre-release as a number where `strconv.Atoi` does.
pub satisfied_by-interval :
    (c : Constraint) (v : SemVer)
    → InRange c.min
    → InRange c.max
    → InRange v
    → satisfied_by c v ≡ (
        (if c.has_min then over c.min_open (version_sign v c.min) else true)
        && (if c.has_max then under c.max_open (version_sign v c.max) else true))
unfolding satisfied_by
satisfied_by-interval c v h k r =
    let a =
      min_test (compare v c.min) c.min_open
      ∙ ap (over c.min_open) (compare-version_sign v c.min r h) in
    let b =
      max_test (compare v c.max) c.max_open
      ∙ ap (under c.max_open) (compare-version_sign v c.max r k) in
    rw (a, b) refl

-- Where the numbers of the version and of both bounds are not negative, and their pre-release
-- identifiers begin with no sign and are below 2^63 where they are numeric, `SatisfiedBy` accepts
-- exactly the versions between the bounds that the constraint has, in the precedence of semver, an
-- open bound left out.
pub satisfied_by-precedence :
    (c : Constraint) (v : SemVer)
    → InRange c.min
    → InRange c.max
    → InRange v
    → All IsPlain (split b'.' c.min.pre)
    → All IsPlain (split b'.' c.max.pre)
    → All IsPlain (split b'.' v.pre)
    → satisfied_by c v ≡ (
        (if c.has_min then over c.min_open (precedence v c.min) else true)
        && (if c.has_max then under c.max_open (precedence v c.max) else true))
satisfied_by-precedence c v h k r a b d =
    satisfied_by-interval c v h k r
    ∙ rw (version_sign-precedence v c.min d a, version_sign-precedence v c.max d b) refl

release_sign : (p q : Bytes) → p ≡ [] → q ≡ [] → pre_sign q p ≡ equal_to
release_sign p q e f = rw (e, f) refl

-- For releases the upper bounds of `^` and `~` come to this, also where the next number wraps.
caret_max :
    (v w : SemVer)
    → InRange v
    → InRange w
    → w.pre ≡ []
    → below_max (caret v) w ≡ leb w.major v.major
unfolding compare compare_pres
caret_max v w h k q = ground arith

tilde_max :
    (v w : SemVer)
    → InRange v
    → InRange w
    → w.pre ≡ []
    → below_max (tilde v) w ≡ (ltb w.major v.major || (w.major == v.major && leb w.minor v.minor))
unfolding compare compare_pres
tilde_max v w h k q = ground arith

module _ (v w : SemVer) (h : InRange v) (k : InRange w) (p : v.pre ≡ []) (q : w.pre ≡ []) where
  min_lem : above_min (caret v) w ≡ over false (version_sign w v)
  min_lem = min_test (compare w v) false ∙ ap (over false) (compare-version_sign w v k h)

  -- Of the releases `^` accepts those with the same major number that are no lower in the two
  -- others.
  pub caret_releases :
      (satisfied_by (caret v) w ≡ true)
      ↔ ((w.major ≡ v.major) × ((v.minor < w.minor) ⊎ ((w.minor ≡ v.minor) × (v.patch ≤ w.patch))))
  unfolding satisfied_by
  caret_releases =
      let a = min_lem in
      let b = caret_max v w h k q in
      let f = release_sign v.pre w.pre p q in
      ((λ t. ground (arith, a, b, f)), (λ t. ground (arith, a, b, f)))

  -- Of the releases `~` accepts those with the same major and minor numbers that are no lower in
  -- the patch number.
  pub tilde_releases :
      (satisfied_by (tilde v) w ≡ true)
      ↔ ((w.major ≡ v.major) × (w.minor ≡ v.minor) × (v.patch ≤ w.patch))
  unfolding satisfied_by
  tilde_releases =
      let a = min_lem in
      let b = tilde_max v w h k q in
      let f = release_sign v.pre w.pre p q in
      ((λ t. ground (arith, a, b, f)), (λ t. ground (arith, a, b, f)))
