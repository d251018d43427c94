-- ===== src/Semver/Constraint/Ranges.antt =====
-- What `ParseConstraint` of internal/semver/semver.go makes of the texts that its comment lists.
use mathlib.Core.List.{reverse, reverse-cons, reverse-reverse}
use asscor.Prelude.{
  ℕ, ◌≡◌, refl, ap, sym, ◌∙◌, subst, Bool, true, false, ◌||◌, [], ◌∷◌, ◌++◌, none, arith, ◌==◌,
  Bytes, codes, cut-Lacks, All, All-append, Lacks, is_digit, is_space, trim_left, trim_space,
}
use asscor.Semver.Defs.{SemVer, ok, parse, decimal, to_string}
use asscor.Semver.Order.Refines.{InRange}
use asscor.Semver.RoundTrip.{
  core, AllDigits, IsNumeral, decimal-IsNumeral, parse-to_string, to_string-core,
}
use asscor.Semver.Constraint.{
  at_least, at_most, caret, tilde, exact, is_wild, any_byte, cut_text, spaced_dash, read_plain,
  read_range, parse_constraint,
}

abbrev pub NoSpace : Bytes → Type 0
NoSpace = All (λ c. is_space c ≡ false)

trim_left-NoSpace : (s : Bytes) → NoSpace s → trim_left s ≡ s
unfolding trim_left
trim_left-NoSpace [] h = refl
trim_left-NoSpace (c ∷ s) h = rw h.0 refl

reverse-NoSpace : (s : Bytes) → NoSpace s → NoSpace (reverse s)
reverse-NoSpace [] h = tt
reverse-NoSpace (c ∷ s) h =
    rw (reverse-cons c s)
      (All-append (λ c. is_space c ≡ false) (reverse s) (c ∷ []) (reverse-NoSpace s h.1) (h.0, tt))

pub trim_space-NoSpace : (s : Bytes) → NoSpace s → trim_space s ≡ s
unfolding trim_space
trim_space-NoSpace s h =
    rw (trim_left-NoSpace s h, trim_left-NoSpace (reverse s) (reverse-NoSpace s h))
      (reverse-reverse s)

-- The bytes of a release: digits and dots.
abbrev pub is_plain : ℕ → Bool
is_plain c = is_digit c || c == b'.'

abbrev pub AllPlain : Bytes → Type 0
AllPlain = All (λ c. is_plain c ≡ true)

pub plain-NoSpace : (s : Bytes) → AllPlain s → NoSpace s
plain-NoSpace [] h = tt
plain-NoSpace (c ∷ s) h = (plain_not_space c h.0, plain-NoSpace s h.1)
  where
    plain_not_space : (c : ℕ) → is_plain c ≡ true → is_space c ≡ false
    plain_not_space c e = ground arith

plain-any_byte : (s : Bytes) → AllPlain s → any_byte is_wild s ≡ false
plain-any_byte [] h = refl
plain-any_byte (c ∷ s) h = ground (arith, plain-any_byte s h.1, h.0)

plain-cut_text : (s : Bytes) → AllPlain s → cut_text spaced_dash s ≡ none
unfolding cut_text
plain-cut_text [] h = refl
plain-cut_text (c ∷ s) h = ground (arith, plain-cut_text s h.1, h.0)

pub plain-Lacks : (d : ℕ) (s : Bytes) → is_plain d ≡ false → AllPlain s → Lacks d s
plain-Lacks d [] e h = tt
plain-Lacks d (c ∷ s) e h = (λ p. cc (ap is_plain p), plain-Lacks d s e h.1)

digits-plain : (s : Bytes) → AllDigits s → AllPlain s
digits-plain [] h = tt
digits-plain (c ∷ s) h = (ground (arith, h.0), digits-plain s h.1)

pub decimal-plain : (n : ℕ) → AllPlain (decimal n)
decimal-plain n = plain_of (decimal n) (decimal-IsNumeral n)
  where
    plain_of : (s : Bytes) → IsNumeral s → AllPlain s
    plain_of [] h = absurd h
    plain_of (c ∷ s) h = digits-plain (c ∷ s) h

pub core-plain : (v : SemVer) → AllPlain (core v)
core-plain v =
    All-append _ (decimal v.major) _ (decimal-plain v.major)
      (refl, All-append _ (decimal v.minor) _ (decimal-plain v.minor) (refl, decimal-plain v.patch))

-- A release as a constraint, alone and behind each operator.
pub release_text : (v : SemVer) → InRange v → v.pre ≡ [] → to_string v ≡ core v
release_text v h e = to_string-core v h ∙ rw e refl

abbrev pub StartsWithDigit : Bytes → Type 0
StartsWithDigit [] = ⊥
StartsWithDigit (c ∷ s) = is_digit c ≡ true

abbrev pub ReadsAll : Bytes → SemVer → Type 0
ReadsAll t v =
    (parse_constraint t ≡ ok (exact v))
    × (parse_constraint (codes "^" ++ t) ≡ ok (caret v))
    × (parse_constraint (codes "~" ++ t) ≡ ok (tilde v))
    × (parse_constraint (codes ">=" ++ t) ≡ ok (at_least false v))
    × (parse_constraint (codes ">" ++ t) ≡ ok (at_least true v))
    × (parse_constraint (codes "<=" ++ t) ≡ ok (at_most false v))
    × (parse_constraint (codes "<" ++ t) ≡ ok (at_most true v))

read_range-plain :
    (s : Bytes) (v : SemVer) → AllPlain s → parse s ≡ ok v → read_range s ≡ ok (exact v)
unfolding read_range read_plain
read_range-plain s v h e =
    rw (plain-cut_text s h, cut-Lacks b'-' s (plain-Lacks b'-' s refl h), plain-any_byte s h, e)
      refl

operators :
    (s : Bytes) (v : SemVer) → StartsWithDigit s → AllPlain s → parse s ≡ ok v → ReadsAll s v
unfolding parse_constraint
operators [] v d h e = absurd d
operators (c ∷ r) v d h e =
    let s = c ∷ r in
    let n = plain-NoSpace s h in
    let t = trim_space-NoSpace s n in
    (
      rw t (ground (arith, read_range-plain s v h e, d)),
      rw (trim_space-NoSpace (b'^' ∷ s) (refl, n)) (ground (arith, t, e)),
      rw (trim_space-NoSpace (b'~' ∷ s) (refl, n)) (ground (arith, t, e)),
      rw (trim_space-NoSpace (b'>' ∷ b'=' ∷ s) (refl, (refl, n))) (ground (arith, t, e)),
      rw (trim_space-NoSpace (b'>' ∷ s) (refl, n)) (ground (arith, t, e, d)),
      rw (trim_space-NoSpace (b'<' ∷ b'=' ∷ s) (refl, (refl, n))) (ground (arith, t, e)),
      rw (trim_space-NoSpace (b'<' ∷ s) (refl, n)) (ground (arith, t, e, d)),
    )

pub core-StartsWithDigit : (v : SemVer) → StartsWithDigit (core v)
core-StartsWithDigit v = of_numeral (decimal v.major) _ (decimal-IsNumeral v.major)
  where
    of_numeral : (s t : Bytes) → IsNumeral s → StartsWithDigit (s ++ t)
    of_numeral [] t h = absurd h
    of_numeral (c ∷ s) t h = h.0

-- `ParseConstraint` reads the printed form of a release as that version alone, and behind `^`, `~`,
-- `>=`, `>`, `<=` and `<` as the range that the operator stands for.
pub parse_constraint-release : (v : SemVer) → InRange v → v.pre ≡ [] → ReadsAll (to_string v) v
parse_constraint-release v h e =
    let t = release_text v h e in
    let r = sym (ap parse t) ∙ parse-to_string v h in
    subst (λ (s : Bytes). ReadsAll s v) (sym t)
      (operators (core v) v (core-StartsWithDigit v) (core-plain v) r)
