-- ===== src/Semver/Compare.antt =====
-- The comparison of versions of internal/semver/semver.go.
use asscor.Prelude.{
  ℕ, ◌+◌, ◌-◌, ◌%◌, ◌^◌, Bool, not, ◌&&◌, List, [], ◌∷◌, Option, none, some, ltb, leb, ◌==◌,
  if◌then◌else◌, Bytes, split, atoi, bytes_ltb, bytes_beq,
}
use asscor.Semver.Defs.{SemVer}

abbrev pub int_mod : ℕ
int_mod = 2 ^ 64

-- `-1`.
abbrev pub minus_one : ℕ
minus_one = int_mod - 1

-- `a - b`, `a < b`, `n < 0` and `n > 0` on `int`.
abbrev pub sub_int : ℕ → ℕ → ℕ
sub_int a b = (a + int_mod - b) % int_mod

abbrev pub lt_int : ℕ → ℕ → Bool
lt_int a b = ltb ((a + 2 ^ 63) % int_mod) ((b + 2 ^ 63) % int_mod)

abbrev pub is_negative : ℕ → Bool
is_negative n = leb (2 ^ 63) n

abbrev pub is_positive : ℕ → Bool
is_positive n = ltb 0 n && ltb n (2 ^ 63)

-- The `switch` of `comparePre` at one pair of fields: `none` goes on with the loop.
unfoldable pub compare_numbers : ℕ → ℕ → Option ℕ
compare_numbers na nb = if na == nb then none else if lt_int na nb then some minus_one else some 1

unfoldable pub compare_texts : Bytes → Bytes → Option ℕ
compare_texts a b = if bytes_beq a b then none else if bytes_ltb a b then some minus_one else some 1

compare_read : Option ℕ → Option ℕ → Bytes → Bytes → Option ℕ
compare_read (some na) (some nb) a b = compare_numbers na nb
compare_read (some na) none a b = some minus_one
compare_read none (some nb) a b = some 1
compare_read none none a b = compare_texts a b

unfoldable pub compare_field : Bytes → Bytes → Option ℕ
unfolding compare_read
compare_field a b = compare_read (atoi a) (atoi b) a b

abbrev pub or_else : Option ℕ → ℕ → ℕ
or_else none n = n
or_else (some m) n = m

-- The loop of `comparePre`, and the comparison of the lengths behind it.
unfoldable pub compare_fields : List Bytes → List Bytes → ℕ
compare_fields [] [] = 0
compare_fields [] (b ∷ bs) = minus_one
compare_fields (a ∷ as') [] = 1
compare_fields (a ∷ as') (b ∷ bs) = or_else (compare_field a b) (compare_fields as' bs)

-- `comparePre`.
unfoldable pub compare_pre : Bytes → Bytes → ℕ
compare_pre a b = compare_fields (split b'.' a) (split b'.' b)

-- The end of `Compare`, at equal numbers.
unfoldable pub compare_pres : Bytes → Bytes → ℕ
compare_pres [] [] = 0
compare_pres [] (d ∷ t) = 1
compare_pres (c ∷ s) [] = minus_one
compare_pres (c ∷ s) (d ∷ t) = compare_pre (c ∷ s) (d ∷ t)

-- `Compare`.
unfoldable pub compare : SemVer → SemVer → ℕ
compare s o =
    if not (s.major == o.major)
    then sub_int s.major o.major
    else if not (s.minor == o.minor)
    then sub_int s.minor o.minor
    else if not (s.patch == o.patch)
    then sub_int s.patch o.patch
    else compare_pres s.pre o.pre

-- `Less`, `Greater` and `Equal`.
unfoldable pub less : SemVer → SemVer → Bool
less s o = is_negative (compare s o)

unfoldable pub greater : SemVer → SemVer → Bool
greater s o = is_positive (compare s o)

unfoldable pub equal : SemVer → SemVer → Bool
equal s o = compare s o == 0
