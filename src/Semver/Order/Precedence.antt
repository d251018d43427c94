-- ===== src/Semver/Order/Precedence.antt =====
-- `Compare` of internal/semver/semver.go against the precedence of semver (§11), which knows neither
-- signs nor machine integers.
use asscor.Prelude.{
  ℕ, ◌+◌, ◌*◌, ◌-◌, ◌^◌, ◌<◌, ◌≡◌, refl, ◌∙◌, Bool, true, false, ◌&&◌, ◌||◌, inl, inr, List, [],
  ◌∷◌, none, some, arith, ◌==◌, if◌then◌else◌, Bytes, split, atoi, is_digit, digits_value, All,
  Bool-cases,
}
use asscor.Semver.Defs.{SemVer}
use asscor.Semver.Compare.{compare}
use asscor.Semver.Order.Signs.{Sign, below, equal_to, above, next, nat_sign, list_sign}
use asscor.Semver.Order.Spec.{
  moved, read_field, bytes_sign, field_sign, fields_sign, pre_sign, version_sign,
}
use asscor.Semver.Order.Refines.{sign_of, InRange, compare-version_sign}

abbrev pub all_digits : Bytes → Bool
all_digits [] = true
all_digits (c ∷ s) = is_digit c && all_digits s

-- A numeric identifier has digits only.
abbrev pub is_numeric : Bytes → Bool
is_numeric [] = false
is_numeric (c ∷ s) = all_digits (c ∷ s)

abbrev pub decimal_value : Bytes → ℕ → ℕ
decimal_value [] n = n
decimal_value (c ∷ s) n = decimal_value s (n * 10 + (c - b'0'))

-- Numeric identifiers by their value and below the others; those by their bytes.
abbrev pub identifier_sign : Bytes → Bytes → Sign
identifier_sign s t =
    if is_numeric s
    then (if is_numeric t then nat_sign (decimal_value s 0) (decimal_value t 0) else below)
    else if is_numeric t
    then above
    else bytes_sign s t

abbrev pub pre_precedence : Bytes → Bytes → Sign
pre_precedence [] [] = equal_to
pre_precedence [] (d ∷ t) = above
pre_precedence (c ∷ s) [] = below
pre_precedence (c ∷ s) (d ∷ t) = list_sign identifier_sign (split b'.' (c ∷ s)) (split b'.' (d ∷ t))

abbrev pub precedence : SemVer → SemVer → Sign
precedence v w =
    next (nat_sign v.major w.major) (
      next (nat_sign v.minor w.minor)
        (next (nat_sign v.patch w.patch) (pre_precedence v.pre w.pre)))

abbrev pub is_signed : Bytes → Bool
is_signed [] = false
is_signed (c ∷ s) = (c == b'-') || (c == b'+')

-- An identifier that begins with no sign, and whose value, if it is numeric, fits an int.
abbrev pub IsPlain : Bytes → Type 0
IsPlain s = (is_signed s ≡ false) × (is_numeric s ≡ true → decimal_value s 0 < 2 ^ 63)

digits_value_lem :
    (s : Bytes) (n : ℕ)
    → digits_value s n ≡ (if all_digits s then some (decimal_value s n) else none)
unfolding digits_value
digits_value_lem [] n = refl
digits_value_lem (c ∷ s) n = elim (Bool-cases (is_digit c)) [
  | inl q ↦ rw q (digits_value_lem s (n * 10 + (c - b'0')))
  | inr q ↦ rw q refl
]

atoi-plain :
    (s : Bytes) → IsPlain s → atoi s ≡ (if is_numeric s then some (decimal_value s 0) else none)
unfolding atoi
atoi-plain [] h = refl
atoi-plain (c ∷ s) h = elim (Bool-cases (all_digits (c ∷ s))) [
  | inl q ↦ ground (arith, q, h.0, h.1 q, digits_value_lem (c ∷ s) 0)
  | inr q ↦ ground (arith, q, h.0, digits_value_lem (c ∷ s) 0)
]

nat_sign-moved : (m n : ℕ) → m < 2 ^ 63 → n < 2 ^ 63 → nat_sign (moved m) (moved n) ≡ nat_sign m n
nat_sign-moved m n h k = ground arith

identifier_sign_lem :
    (s t : Bytes)
    → IsPlain s
    → IsPlain t
    → field_sign (read_field s) (read_field t) ≡ identifier_sign s t
identifier_sign_lem s t h k =
    let a = atoi-plain s h in
    let b = atoi-plain t k in
    elim (Bool-cases (is_numeric s)) [
      | inl q ↦ elim (Bool-cases (is_numeric t)) [
        | inl r ↦
            rw (a, b, q, r) (nat_sign-moved (decimal_value s 0) (decimal_value t 0) (h.1 q) (k.1 r))
        | inr r ↦ rw (a, b, q, r) refl
      ]
      | inr q ↦ elim (Bool-cases (is_numeric t)) [
        | inl r ↦ rw (a, b, q, r) refl
        | inr r ↦ rw (a, b, q, r) refl
      ]
    ]

fields_sign_lem :
    (s t : List Bytes)
    → All IsPlain s
    → All IsPlain t
    → fields_sign s t ≡ list_sign identifier_sign s t
fields_sign_lem [] [] h k = refl
fields_sign_lem [] (b ∷ t) h k = refl
fields_sign_lem (a ∷ s) [] h k = refl
fields_sign_lem (a ∷ s) (b ∷ t) h k =
    rw (identifier_sign_lem a b h.0 k.0, fields_sign_lem s t h.1 k.1) refl

pre_sign_lem :
    (p q : Bytes)
    → All IsPlain (split b'.' p)
    → All IsPlain (split b'.' q)
    → pre_sign p q ≡ pre_precedence p q
pre_sign_lem [] [] h k = refl
pre_sign_lem [] (d ∷ t) h k = refl
pre_sign_lem (c ∷ s) [] h k = refl
pre_sign_lem (c ∷ s) (d ∷ t) h k = fields_sign_lem (split b'.' (c ∷ s)) (split b'.' (d ∷ t)) h k

pub version_sign-precedence :
    (v w : SemVer)
    → All IsPlain (split b'.' v.pre)
    → All IsPlain (split b'.' w.pre)
    → version_sign v w ≡ precedence v w
version_sign-precedence v w a b = rw (pre_sign_lem v.pre w.pre a b) refl

-- For versions whose numbers are not negative, and whose pre-release identifiers begin with no sign and
-- are below 2^63 where they are numeric, the sign of `Compare` is the precedence of semver: by the
-- three numbers; then a release above its pre-releases; then identifier by identifier, those of
-- digits only by their value and below the others, which go by their bytes, and a list of
-- identifiers below a longer one that it begins.
pub compare-precedence :
    (v w : SemVer)
    → InRange v
    → InRange w
    → All IsPlain (split b'.' v.pre)
    → All IsPlain (split b'.' w.pre)
    → sign_of (compare v w) ≡ precedence v w
compare-precedence v w h k a b = compare-version_sign v w h k ∙ version_sign-precedence v w a b
