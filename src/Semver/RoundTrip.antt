-- ===== src/Semver/RoundTrip.antt =====
-- What internal/semver/semver.go prints it reads back, and what it reads is in range.
use mathlib.Core.WellFounded.{Acc}
use mathlib.Core.Logic.{dif_pos, dif_neg}
use native.Mathlib.Bridge.{le_prop}
use native.Mathlib.Decide.{dec_lt}
use asscor.Prelude.{
  ℕ, ◌+◌, ◌*◌, ◌/◌, ◌%◌, ◌^◌, ◌<◌, ◌≡◌, refl, ap, ◌∙◌, true, false, List, [], ◌∷◌, ◌++◌, Option,
  none, some, arith, ltb, ◌==◌, if◌then◌else◌, Bytes, cut, split, atoi, digits_value, is_digit,
  length, inl, inr, Option-cases, All, Lacks, in_range, cut-append, cut-Lacks, cut-LeftLacks,
  cut-none, push_head, Bool-cases, All-append,
}
use asscor.Semver.Defs.{
  SemVer, ok, parts_of, parse_parts, tenth_lt, parse, emit, lt_wf, decimal, to_string,
}
use asscor.Semver.Order.Refines.{InRange}

abbrev pub AllDigits : Bytes → Type 0
AllDigits = All (λ c. is_digit c ≡ true)

-- A text that begins with a digit, digits all along.
abbrev pub IsNumeral : Bytes → Type 0
IsNumeral [] = ⊥
IsNumeral (c ∷ s) = (is_digit c ≡ true) × AllDigits s

digit_lem : (d : ℕ) → d < 10 → is_digit (b'0' + d) ≡ true
digit_lem d h = ground arith

emit-IsNumeral : (n : ℕ) (w : Acc ◌<◌ n) (out : Bytes) → AllDigits out → IsNumeral (emit n w out)
unfolding emit
emit-IsNumeral n (Acc.intro _ smaller) out h = elim (dec_lt 9 n) [
  | yes p ↦ rw (dif_pos _ le_prop p) (
      emit-IsNumeral (n / 10) (smaller (n / 10) (tenth_lt n p)) ((b'0' + n % 10) ∷ out)
        (digit_lem (n % 10) (omega arith), h))
  | no p ↦ rw (dif_neg _ p) (digit_lem n (omega arith), h)
]

digits_value-digit :
    (d m : ℕ) (out : Bytes)
    → d < 10
    → digits_value ((b'0' + d) ∷ out) m ≡ digits_value out (m * 10 + d)
unfolding digits_value
digits_value-digit d m out h = rw (digit_lem d h) (ap (digits_value out) (omega arith))

emit-digits_value :
    (n : ℕ) (w : Acc ◌<◌ n) (out : Bytes) → digits_value (emit n w out) 0 ≡ digits_value out n
unfolding emit
emit-digits_value n (Acc.intro _ smaller) out = elim (dec_lt 9 n) [
  | yes p ↦ rw (dif_pos _ le_prop p) (
      emit-digits_value (n / 10) (smaller (n / 10) (tenth_lt n p)) ((b'0' + n % 10) ∷ out)
      ∙ digits_value-digit (n % 10) (n / 10) out (omega arith)
      ∙ ap (digits_value out) (omega arith))
  | no p ↦
      rw (dif_neg _ p)
        (digits_value-digit n 0 out (omega arith) ∙ ap (digits_value out) (omega arith))
]

atoi-numeral : (s : Bytes) → IsNumeral s → atoi s ≡ in_range (digits_value s 0)
unfolding atoi
atoi-numeral [] h = absurd h
atoi-numeral (c ∷ s) h = ground arith

-- `strconv.Atoi` reads back what `%d` prints of a number that is not negative.
atoi-decimal : (n : ℕ) → n < 2 ^ 63 → atoi (decimal n) ≡ some n
unfolding decimal digits_value
atoi-decimal n h =
    atoi-numeral (decimal n) (emit-IsNumeral n (lt_wf.apply n) [] tt)
    ∙ ap in_range (emit-digits_value n (lt_wf.apply n) [])
    ∙ ground arith

pub decimal-IsNumeral : (n : ℕ) → IsNumeral (decimal n)
unfolding decimal
decimal-IsNumeral n = emit-IsNumeral n (lt_wf.apply n) [] tt

AllDigits-Lacks : (d : ℕ) (s : Bytes) → is_digit d ≡ false → AllDigits s → Lacks d s
AllDigits-Lacks d [] e h = tt
AllDigits-Lacks d (c ∷ s) e h = (λ p. cc (ap is_digit p), AllDigits-Lacks d s e h.1)

decimal-Lacks : (d n : ℕ) → is_digit d ≡ false → Lacks d (decimal n)
unfolding decimal
decimal-Lacks d n e =
    AllDigits-Lacks d (decimal n) e (digits_of (decimal n) (emit-IsNumeral n (lt_wf.apply n) [] tt))
  where
    digits_of : (s : Bytes) → IsNumeral s → AllDigits s
    digits_of [] h = absurd h
    digits_of (c ∷ s) h = h

split-Lacks : (d : ℕ) (s : Bytes) → Lacks d s → split d s ≡ s ∷ []
unfolding split
split-Lacks d [] h = refl
split-Lacks d (c ∷ s) h = ground (arith, split-Lacks d s h.1, h.0)

split-append : (d : ℕ) (a b : Bytes) → Lacks d a → split d (a ++ d ∷ b) ≡ a ∷ split d b
unfolding split
split-append d [] b h = ground arith
split-append d (c ∷ a) b h = ground (arith, split-append d a b h.1, h.0)

abbrev pub core : SemVer → Bytes
core v = decimal v.major ++ (b'.' ∷ (decimal v.minor ++ (b'.' ∷ decimal v.patch)))

split-core :
    (v : SemVer) → split b'.' (core v) ≡ decimal v.major ∷ decimal v.minor ∷ decimal v.patch ∷ []
split-core v =
    split-append b'.' (decimal v.major) _ (decimal-Lacks b'.' v.major refl)
    ∙ ap (◌∷◌ (decimal v.major)) (
        split-append b'.' (decimal v.minor) _ (decimal-Lacks b'.' v.minor refl)
        ∙ ap (◌∷◌ (decimal v.minor))
            (split-Lacks b'.' (decimal v.patch) (decimal-Lacks b'.' v.patch refl)))

parse_parts-core : (v : SemVer) → InRange v → parse_parts (split b'.' (core v)) v.pre ≡ ok v
unfolding parse_parts
parse_parts-core v h =
    rw
      (
        split-core v,
        atoi-decimal v.major h.major_range,
        atoi-decimal v.minor h.minor_range,
        atoi-decimal v.patch h.patch_range,
      )
      refl

core-Lacks : (v : SemVer) → Lacks b'-' (core v)
core-Lacks v = All-append _ (decimal v.major) _ (decimal-Lacks b'-' v.major refl) (
  (λ e. cc e),
  All-append _ (decimal v.minor) _ (decimal-Lacks b'-' v.minor refl)
      ((λ e. cc e), decimal-Lacks b'-' v.patch refl),
)

pub to_string-core :
    (v : SemVer)
    → InRange v
    → to_string v ≡ (if ltb 0 (length v.pre) then core v ++ (b'-' ∷ v.pre) else core v)
unfolding to_string
to_string-core v h = ground arith

abbrev with_pre : Bytes → Bytes → Bytes
with_pre c pre = if ltb 0 (length pre) then c ++ (b'-' ∷ pre) else c

parts_of-with_pre :
    (c pre : Bytes)
    → Lacks b'-' c
    → parts_of (with_pre c pre) (cut b'-' (with_pre c pre)) ≡ (c, pre)
parts_of-with_pre c [] h = rw (cut-Lacks b'-' c h) refl
parts_of-with_pre c (d ∷ pre) h = ground (arith, cut-append b'-' c (d ∷ pre) h)

-- `Parse` reads back every version whose numbers are not negative from the text that `String`
-- makes of it, whatever stands in its pre-release, dashes and dots included.
pub parse-to_string : (v : SemVer) → InRange v → parse (to_string v) ≡ ok v
unfolding parse
parse-to_string v h =
    rw (to_string-core v h, parts_of-with_pre (core v) v.pre (core-Lacks v)) (parse_parts-core v h)

abbrev IsSmall : Option ℕ → Type 0
IsSmall none = Unit {0}
IsSmall (some n) = n < 2 ^ 63

atoi-IsSmall : (s : Bytes) → Lacks b'-' s → IsSmall (atoi s)
unfolding atoi
atoi-IsSmall [] h = tt
atoi-IsSmall (c ∷ s) h = ground (arith, h.0)

split-AllLack : (d e : ℕ) (s : Bytes) → Lacks e s → All (Lacks e) (split d s)
unfolding split
split-AllLack d e [] h = (tt, tt)
split-AllLack d e (c ∷ s) h = elim (Bool-cases (c == d)) [
  | inl q ↦ rw q (tt, split-AllLack d e s h.1)
  | inr q ↦ rw q (push_head-AllLack (split d s) (split-AllLack d e s h.1))
]
  where
    push_head-AllLack : (r : List Bytes) → All (Lacks e) r → All (Lacks e) (push_head c r)
    push_head-AllLack [] g = ((h.0, tt), tt)
    push_head-AllLack (x ∷ r) g = ((h.0, g.0), g.1)

parse_parts-InRange :
    (parts : List Bytes) (pre : Bytes) (v : SemVer)
    → All (Lacks b'-') parts
    → parse_parts parts pre ≡ ok v
    → InRange v
unfolding parse_parts
parse_parts-InRange [] pre v h e = cc
parse_parts-InRange (a ∷ []) pre v h e = ground (arith, atoi-IsSmall a h.0)
parse_parts-InRange (a ∷ b ∷ []) pre v h e =
    ground (arith, atoi-IsSmall a h.0, atoi-IsSmall b h.1.0)
parse_parts-InRange (a ∷ b ∷ c ∷ more) pre v h e =
    ground (arith, atoi-IsSmall a h.0, atoi-IsSmall b h.1.0, atoi-IsSmall c h.1.1.0)

before_dash-Lacks : (s : Bytes) → Lacks b'-' (parts_of s (cut b'-' s)).0
before_dash-Lacks s = elim (Option-cases (cut b'-' s)) [
  | inl e ↦ rw e (cut-none b'-' s e)
  | inr (p, e) ↦ rw e (rw e at (cut-LeftLacks b'-' s))
]

-- No number of a version that `Parse` returns is negative, for a dash begins the pre-release.
pub parse-InRange : (s : Bytes) (v : SemVer) → parse s ≡ ok v → InRange v
unfolding parse
parse-InRange s v e =
    let (rest, pre) = parts_of s (cut b'-' s) in
    parse_parts-InRange (split b'.' rest) pre v (split-AllLack b'.' b'-' rest (before_dash-Lacks s))
      e
