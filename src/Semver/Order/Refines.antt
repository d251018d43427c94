-- ===== src/Semver/Order/Refines.antt =====
-- `Compare` of internal/semver/semver.go decides the precedence of versions.
use asscor.Prelude.{
  ℕ, ◌^◌, ◌<◌, ◌≡◌, ◌≢◌, refl, ap, ◌∙◌, List, [], ◌∷◌, Option, none, some, arith, ◌==◌,
  if◌then◌else◌, Bytes, split, atoi, bytes_ltb, inl, inr, Option-cases,
}
use asscor.Semver.Defs.{SemVer}
use asscor.Semver.Compare.{
  int_mod, minus_one, sub_int, is_negative, compare_numbers, compare_texts, compare_field, or_else,
  compare_fields, compare_pre, compare_pres, compare,
}
use asscor.Semver.Order.Signs.{Sign, below, equal_to, above, next, nat_sign}
use asscor.Semver.Order.Spec.{
  moved, read_field, bytes_sign, field_sign, fields_sign, pre_sign, version_sign,
}

-- The sign of an `int`.
abbrev pub sign_of : ℕ → Sign
sign_of n = if n == 0 then equal_to else if is_negative n then below else above

atoi_bound : (s : Bytes) {n : ℕ} → atoi s ≡ some n → n < int_mod
unfolding atoi
atoi_bound [] h = cc
atoi_bound (c ∷ s) h = ground arith

-- A field that decides, or none.
abbrev field_result : Sign → Option ℕ
field_result below = some minus_one
field_result equal_to = none
field_result above = some 1

compare_numbers_lem :
    (m n : ℕ)
    → m < int_mod
    → n < int_mod
    → compare_numbers m n ≡ field_result (nat_sign (moved m) (moved n))
unfolding compare_numbers
compare_numbers_lem m n h k = ground arith

compare_texts_lem : (s t : Bytes) → compare_texts s t ≡ field_result (bytes_sign s t)
unfolding compare_texts bytes_ltb
compare_texts_lem [] [] = refl
compare_texts_lem [] (b ∷ t) = refl
compare_texts_lem (a ∷ s) [] = refl
compare_texts_lem (a ∷ s) (b ∷ t) = ground (arith, compare_texts_lem s t)

sign_of-or_else : (s : Sign) (n : ℕ) → sign_of (or_else (field_result s) n) ≡ next s (sign_of n)
sign_of-or_else below n = refl
sign_of-or_else equal_to n = refl
sign_of-or_else above n = refl

compare_field_lem :
    (s t : Bytes) → compare_field s t ≡ field_result (field_sign (read_field s) (read_field t))
unfolding compare_field
compare_field_lem s t = elim (Option-cases (atoi s)) [
  | inl e ↦ elim (Option-cases (atoi t)) [
    | inl f ↦ rw (e, f) (compare_texts_lem s t)
    | inr (n, f) ↦ rw (e, f) refl
  ]
  | inr (m, e) ↦ elim (Option-cases (atoi t)) [
    | inl f ↦ rw (e, f) refl
    | inr (n, f) ↦ rw (e, f) (compare_numbers_lem m n (atoi_bound s e) (atoi_bound t f))
  ]
]

compare_fields_lem : (s t : List Bytes) → sign_of (compare_fields s t) ≡ fields_sign s t
unfolding compare_fields
compare_fields_lem [] [] = refl
compare_fields_lem [] (b ∷ t) = refl
compare_fields_lem (a ∷ s) [] = refl
compare_fields_lem (a ∷ s) (b ∷ t) = rw (compare_field_lem a b) (
    sign_of-or_else (field_sign (read_field a) (read_field b)) (compare_fields s t)
    ∙ ap (next (field_sign (read_field a) (read_field b))) (compare_fields_lem s t))

-- The three numbers are not negative.
pub record InRange (v : SemVer) : Type 0 where
  pub major_range : v.major < 2 ^ 63
  pub minor_range : v.minor < 2 ^ 63
  pub patch_range : v.patch < 2 ^ 63

sub_int-sign : (a b : ℕ) → a < 2 ^ 63 → b < 2 ^ 63 → a ≢ b → sign_of (sub_int a b) ≡ nat_sign a b
sub_int-sign a b h k n = ground arith

compare_pres_lem : (p q : Bytes) → sign_of (compare_pres p q) ≡ pre_sign p q
unfolding compare_pres compare_pre
compare_pres_lem [] [] = refl
compare_pres_lem [] (d ∷ t) = refl
compare_pres_lem (c ∷ s) [] = refl
compare_pres_lem (c ∷ s) (d ∷ t) = compare_fields_lem (split b'.' (c ∷ s)) (split b'.' (d ∷ t))

-- For versions whose numbers are not negative the differences that `Compare` returns do not wrap,
-- and its sign is this order: by the three numbers; then a release above its pre-releases; then
-- field by field, numbers by value and below texts, texts by their bytes, and a list of fields below
-- a longer one that it begins. A field is a number if `strconv.Atoi` reads it, so with a sign too
-- and only if it fits 64 bits; but for that the order is the precedence of semver.
pub compare-version_sign :
    (v w : SemVer) → InRange v → InRange w → sign_of (compare v w) ≡ version_sign v w
unfolding compare
compare-version_sign v w h k = ground (
  arith,
  sub_int-sign v.major w.major,
  sub_int-sign v.minor w.minor,
  sub_int-sign v.patch w.patch,
  compare_pres_lem v.pre w.pre,
)
