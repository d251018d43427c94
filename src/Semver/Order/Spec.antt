-- ===== src/Semver/Order/Spec.antt =====
-- The order of versions that internal/semver/semver.go means, as a comparison with three results. It
-- follows the precedence of semver (§11), but that a field of a pre-release is a number where
-- `strconv.Atoi` reads one: a sign is allowed, and what does not fit 64 bits is a text.
use asscor.Prelude.{
  ℕ, ◌+◌, ◌%◌, ◌^◌, ◌≡◌, refl, List, [], ◌∷◌, Option, none, some, Bytes, split, atoi,
}
use asscor.Semver.Defs.{SemVer}
use asscor.Semver.Compare.{int_mod}
use asscor.Semver.Order.Signs.{
  Sign, below, equal_to, above, flip, next, IsComparison, nat_sign, nat_sign-IsComparison,
  on-IsComparison, both-IsComparison, list_sign, list_sign-IsComparison,
}

-- A field of a pre-release: a number, moved up so that the negative ones come first, or a text.
pub data Field : Type 0 where
  number : ℕ → Field
  text : Bytes → Field

abbrev pub moved : ℕ → ℕ
moved n = (n + 2 ^ 63) % int_mod

abbrev pub field_of : Option ℕ → Bytes → Field
field_of (some n) s = number (moved n)
field_of none s = text s

abbrev pub read_field : Bytes → Field
read_field s = field_of (atoi s) s

abbrev pub bytes_sign : Bytes → Bytes → Sign
bytes_sign = list_sign nat_sign

-- Numbers by value, below every text; texts by their bytes.
abbrev pub field_sign : Field → Field → Sign
field_sign (number m) (number n) = nat_sign m n
field_sign (number m) (text t) = below
field_sign (text s) (number n) = above
field_sign (text s) (text t) = bytes_sign s t

bytes-IsComparison : IsComparison bytes_sign
bytes-IsComparison = list_sign-IsComparison nat_sign nat_sign-IsComparison

field_sign-flips : (a b : Field) → field_sign b a ≡ flip (field_sign a b)
field_sign-flips (number m) (number n) = nat_sign-IsComparison.flips m n
field_sign-flips (number m) (text t) = refl
field_sign-flips (text s) (number n) = refl
field_sign-flips (text s) (text t) = bytes-IsComparison.flips s t

field_sign-chain :
    (a b d : Field) → field_sign a b ≡ below → field_sign b d ≡ below → field_sign a d ≡ below
field_sign-chain (number m) (number n) (number k) h l = nat_sign-IsComparison.chain m n k h l
field_sign-chain (number m) b (text u) h l = refl
field_sign-chain (number m) (text t) (number k) h l = cc
field_sign-chain (text s) (number n) d h l = cc
field_sign-chain (text s) (text t) (number k) h l = cc
field_sign-chain (text s) (text t) (text u) h l = bytes-IsComparison.chain s t u h l

field_sign-congruent : (a b d : Field) → field_sign a b ≡ equal_to → field_sign a d ≡ field_sign b d
field_sign-congruent (number m) (number n) (number k) h = nat_sign-IsComparison.congruent m n k h
field_sign-congruent (number m) (number n) (text u) h = refl
field_sign-congruent (number m) (text t) d h = cc
field_sign-congruent (text s) (number n) d h = cc
field_sign-congruent (text s) (text t) (number k) h = refl
field_sign-congruent (text s) (text t) (text u) h = bytes-IsComparison.congruent s t u h

field_sign-IsComparison : IsComparison field_sign
field_sign-IsComparison = record {
  flips = field_sign-flips;
  chain = field_sign-chain;
  congruent = field_sign-congruent;
}

abbrev pub fields_sign : List Bytes → List Bytes → Sign
fields_sign = list_sign (λ a b. field_sign (read_field a) (read_field b))

fields_sign-IsComparison : IsComparison fields_sign
fields_sign-IsComparison =
    list_sign-IsComparison (λ a b. field_sign (read_field a) (read_field b))
      (on-IsComparison read_field field_sign field_sign-IsComparison)

-- A release is above its pre-releases, which go by their fields.
abbrev pub pre_sign : Bytes → Bytes → Sign
pre_sign [] [] = equal_to
pre_sign [] (d ∷ t) = above
pre_sign (c ∷ s) [] = below
pre_sign (c ∷ s) (d ∷ t) = fields_sign (split b'.' (c ∷ s)) (split b'.' (d ∷ t))

pre_sign-flips : (a b : Bytes) → pre_sign b a ≡ flip (pre_sign a b)
pre_sign-flips [] [] = refl
pre_sign-flips [] (d ∷ t) = refl
pre_sign-flips (c ∷ s) [] = refl
pre_sign-flips (c ∷ s) (d ∷ t) =
    fields_sign-IsComparison.flips (split b'.' (c ∷ s)) (split b'.' (d ∷ t))

pre_sign-chain :
    (a b d : Bytes) → pre_sign a b ≡ below → pre_sign b d ≡ below → pre_sign a d ≡ below
pre_sign-chain [] [] d h l = cc
pre_sign-chain [] (x ∷ t) d h l = cc
pre_sign-chain (c ∷ s) [] [] h l = refl
pre_sign-chain (c ∷ s) (x ∷ t) [] h l = refl
pre_sign-chain (c ∷ s) [] (y ∷ u) h l = cc
pre_sign-chain (c ∷ s) (x ∷ t) (y ∷ u) h l =
    fields_sign-IsComparison.chain (split b'.' (c ∷ s)) (split b'.' (x ∷ t)) (split b'.' (y ∷ u)) h
      l

pre_sign-congruent : (a b d : Bytes) → pre_sign a b ≡ equal_to → pre_sign a d ≡ pre_sign b d
pre_sign-congruent [] [] d h = refl
pre_sign-congruent [] (x ∷ t) d h = cc
pre_sign-congruent (c ∷ s) [] d h = cc
pre_sign-congruent (c ∷ s) (x ∷ t) [] h = refl
pre_sign-congruent (c ∷ s) (x ∷ t) (y ∷ u) h =
    fields_sign-IsComparison.congruent (split b'.' (c ∷ s)) (split b'.' (x ∷ t))
      (split b'.' (y ∷ u)) h

pre_sign-IsComparison : IsComparison pre_sign
pre_sign-IsComparison = record {
  flips = pre_sign-flips;
  chain = pre_sign-chain;
  congruent = pre_sign-congruent;
}

abbrev pub version_sign : SemVer → SemVer → Sign
version_sign a b =
    next (nat_sign a.major b.major)
      (next (nat_sign a.minor b.minor) (next (nat_sign a.patch b.patch) (pre_sign a.pre b.pre)))

pub version_sign-IsComparison : IsComparison version_sign
version_sign-IsComparison =
    both-IsComparison (λ a b. nat_sign a.major b.major) _
      (on-IsComparison (λ v. v.major) nat_sign nat_sign-IsComparison)
      (both-IsComparison (λ a b. nat_sign a.minor b.minor) _
        (on-IsComparison (λ v. v.minor) nat_sign nat_sign-IsComparison)
        (both-IsComparison (λ a b. nat_sign a.patch b.patch) _
          (on-IsComparison (λ v. v.patch) nat_sign nat_sign-IsComparison)
          (on-IsComparison (λ v. v.pre) pre_sign pre_sign-IsComparison)))
