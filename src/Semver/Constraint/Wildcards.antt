-- ===== src/Semver/Constraint/Wildcards.antt =====
-- Wildcard constraints of internal/semver/semver.go.
use mathlib.Core.List.{map-append}
use asscor.Prelude.{
  ℕ, ◌≡◌, ◌≢◌, refl, ap, ap₂, sym, ◌∙◌, true, false, [], ◌∷◌, ◌++◌, none, arith, Bytes, cut-Lacks,
  All-append, Lacks, map,
}
use asscor.Semver.Defs.{SemVer, ok, parse, decimal}
use asscor.Semver.Order.Refines.{InRange}
use asscor.Semver.RoundTrip.{core, IsNumeral, decimal-IsNumeral, parse-to_string}
use asscor.Semver.Constraint.Ranges.{
  NoSpace, AllPlain, StartsWithDigit, is_plain, trim_space-NoSpace, plain-NoSpace, plain-Lacks,
  decimal-plain, core-plain, release_text,
}
use asscor.Semver.Constraint.{
  caret, is_wild, any_byte, cut_text, spaced_dash, digit_for_wild, read_plain, read_range,
  read_constraint, parse_constraint,
}

read_constraint-digit : (s : Bytes) → StartsWithDigit s → read_constraint s ≡ read_range s
unfolding read_constraint
read_constraint-digit [] d = absurd d
read_constraint-digit (c ∷ s) d = ground (arith, d)

cut_text-Lacks : (s : Bytes) → Lacks b' ' s → cut_text spaced_dash s ≡ none
unfolding cut_text
cut_text-Lacks [] h = refl
cut_text-Lacks (c ∷ s) h = ground (arith, cut_text-Lacks s h.1, h.0)

any_byte-append : (s t : Bytes) → any_byte is_wild t ≡ true → any_byte is_wild (s ++ t) ≡ true
any_byte-append [] t h = h
any_byte-append (c ∷ s) t h = ground (arith, any_byte-append s t h)

map-plain : (s : Bytes) → AllPlain s → map digit_for_wild s ≡ s
map-plain [] h = refl
map-plain (c ∷ s) h = ground (arith, map-plain s h.1, h.0)

read_range-wild :
    (s : Bytes) (v : SemVer)
    → Lacks b' ' s
    → Lacks b'-' s
    → any_byte is_wild s ≡ true
    → map digit_for_wild s ≡ core v
    → NoSpace (core v)
    → parse (core v) ≡ ok v
    → read_range s ≡ ok (caret v)
unfolding read_range read_plain
read_range-wild s v h k w m n e =
    rw (cut_text-Lacks s h, cut-Lacks b'-' s k, w, m, trim_space-NoSpace (core v) n, e) refl

abbrev pub wild_text : SemVer → Bytes
wild_text v = decimal v.major ++ (b'.' ∷ (decimal v.minor ++ (b'.' ∷ b'x' ∷ [])))

wild-StartsWithDigit : (v : SemVer) → StartsWithDigit (wild_text v)
wild-StartsWithDigit v = of_numeral (decimal v.major) _ (decimal-IsNumeral v.major)
  where
    of_numeral : (s t : Bytes) → IsNumeral s → StartsWithDigit (s ++ t)
    of_numeral [] t h = absurd h
    of_numeral (c ∷ s) t h = h.0

wild-Lacks : (d : ℕ) (v : SemVer) → is_plain d ≡ false → b'x' ≢ d → Lacks d (wild_text v)
wild-Lacks d v e x = All-append _ (decimal v.major) _ (plain-Lacks d _ e (decimal-plain v.major)) (
  (λ p. cc (ap is_plain p)),
  All-append _ (decimal v.minor) _ (plain-Lacks d _ e (decimal-plain v.minor))
      ((λ p. cc (ap is_plain p)), (x, tt)),
)

wild-any_byte : (v : SemVer) → any_byte is_wild (wild_text v) ≡ true
wild-any_byte v = any_byte-append (decimal v.major) _ (any_byte-append (decimal v.minor) _ refl)

decimal_zero : decimal 0 ≡ b'0' ∷ []
unfolding decimal
decimal_zero = refl

wild-map : (v : SemVer) → v.patch ≡ 0 → map digit_for_wild (wild_text v) ≡ core v
wild-map v z =
    map-append digit_for_wild (decimal v.major) _
    ∙ ap₂ ◌++◌ (map-plain _ (decimal-plain v.major)) (
        ap (◌∷◌ b'.') (
          map-append digit_for_wild (decimal v.minor) _
          ∙ ap₂ ◌++◌ (map-plain _ (decimal-plain v.minor))
              (ap (◌∷◌ b'.') (sym (ap decimal z ∙ decimal_zero)))))

-- A wildcard in the place of the patch number, `1.2.x`, is read as `^1.2.0`, not as `~1.2.0`: the
-- minor number may grow.
pub wildcard_is_caret :
    (v : SemVer)
    → InRange v
    → v.patch ≡ 0
    → v.pre ≡ []
    → parse_constraint (wild_text v) ≡ ok (caret v)
unfolding parse_constraint
wildcard_is_caret v h z e =
    let t = wild_text v in
    let n : NoSpace t = All-append _ (decimal v.major) _ (plain-NoSpace _ (decimal-plain v.major)) (
      refl,
      All-append _ (decimal v.minor) _ (plain-NoSpace _ (decimal-plain v.minor)) (refl, (refl, tt)),
    ) in
    rw (trim_space-NoSpace t n) (
      read_constraint-digit t (wild-StartsWithDigit v)
      ∙ read_range-wild t v (wild-Lacks b' ' v refl (λ p. cc p))
          (wild-Lacks b'-' v refl (λ p. cc p)) (wild-any_byte v) (wild-map v z)
          (plain-NoSpace (core v) (core-plain v))
          (sym (ap parse (release_text v h e)) ∙ parse-to_string v h))
