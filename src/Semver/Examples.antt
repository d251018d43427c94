-- ===== src/Semver/Examples.antt =====
-- Versions and constraints as texts, and the theorems at concrete versions.

use asscor.Prelude.{ℕ, ◌≡◌, refl, true, false, ◌&&◌, [], arith, Bytes, codes, cut, split, atoi}
use asscor.Semver.Defs.{SemVer, ok, err, too_many_segments, parse, to_string, parse_parts}
use asscor.Semver.Compare.{compare}
use asscor.Semver.Order.Signs.{below}
use asscor.Prelude.{All}
use asscor.Semver.Order.Precedence.{IsPlain, precedence, compare-precedence}
use asscor.Semver.Order.Refines.{sign_of, InRange}
use asscor.Semver.RoundTrip.{parse-to_string, parse-InRange}
use asscor.Semver.Constraint.{satisfied_by, caret, parse_constraint}
use asscor.Semver.Constraint.Satisfies.{over, under, satisfied_by-precedence}
use asscor.Semver.Constraint.Wildcards.{wild_text, wildcard_is_caret}

abbrev version : ℕ → ℕ → ℕ → Bytes → SemVer
version a b c pre = record { major = a; minor = b; patch = c; pre = pre }

read_version : parse (codes "1.22.3-rc.1") ≡ ok (version 1 22 3 (codes "rc.1"))
unfolding parse parse_parts cut split atoi
read_version = refl

read_four : parse (codes "1.2.3.4") ≡ err too_many_segments
unfolding parse parse_parts cut split atoi
read_four = refl

parse-to_string_example :
    parse (to_string (version 1 22 3 (codes "rc.1-x"))) ≡ ok (version 1 22 3 (codes "rc.1-x"))
parse-to_string_example = parse-to_string (version 1 22 3 (codes "rc.1-x")) (omega arith)

parse-InRange_example : InRange (version 1 22 3 (codes "rc.1"))
parse-InRange_example = parse-InRange (codes "1.22.3-rc.1") _ read_version

two-IsPlain : All IsPlain (split b'.' (codes "alpha.2"))
unfolding split
two-IsPlain = ((refl, λ e. absurd (cc e)), ((refl, λ e. omega arith), tt))

ten-IsPlain : All IsPlain (split b'.' (codes "alpha.10"))
unfolding split
ten-IsPlain = ((refl, λ e. absurd (cc e)), ((refl, λ e. omega arith), tt))

compare-precedence_example :
    sign_of (compare (version 1 2 3 (codes "alpha.2")) (version 1 2 3 (codes "alpha.10"))) ≡ below
unfolding split
compare-precedence_example =
    compare-precedence (version 1 2 3 (codes "alpha.2")) (version 1 2 3 (codes "alpha.10"))
      (omega arith) (omega arith) two-IsPlain ten-IsPlain

-- Two texts for one number in a pre-release.
abbrev pre_1 : SemVer
pre_1 = version 1 0 0 (codes "1")

abbrev pre_01 : SemVer
pre_01 = version 1 0 0 (codes "01")

no_pre-IsPlain : All IsPlain (split b'.' [])
unfolding split
no_pre-IsPlain = ((refl, λ e. absurd (cc e)), tt)

satisfied_by-precedence_example :
    satisfied_by (caret (version 1 2 3 (codes "alpha.2"))) (version 1 2 3 (codes "alpha.10")) ≡ (
      over false (precedence (version 1 2 3 (codes "alpha.10")) (version 1 2 3 (codes "alpha.2")))
      && under true (precedence (version 1 2 3 (codes "alpha.10")) (version 2 0 0 [])))
satisfied_by-precedence_example =
    satisfied_by-precedence (caret (version 1 2 3 (codes "alpha.2")))
      (version 1 2 3 (codes "alpha.10")) (omega arith) (omega arith) (omega arith) two-IsPlain
      no_pre-IsPlain ten-IsPlain

wildcard_is_caret_example :
    parse_constraint (wild_text (version 1 2 0 [])) ≡ ok (caret (version 1 2 0 []))
wildcard_is_caret_example = wildcard_is_caret (version 1 2 0 []) (omega arith) refl refl
