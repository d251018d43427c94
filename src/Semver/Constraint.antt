-- ===== src/Semver/Constraint.antt =====
-- The version constraints of internal/semver/semver.go.
pub mod Satisfies
pub mod Ranges
pub mod Wildcards
use asscor.Prelude.{
  ℕ, suc, ◌+◌, ◌%◌, ◌^◌, Bool, true, false, not, ◌&&◌, ◌||◌, List, [], ◌∷◌, ◌++◌, Option, none,
  some, ltb, leb, ◌==◌, if◌then◌else◌, length, drop, map, Bytes, codes, cut, has_prefix, push_left,
  atoi, trim_space,
}
use asscor.Semver.Defs.{SemVer, ParseError, empty_constraint, Result, ok, err, ◌>>=◌, parse}
use asscor.Semver.Compare.{int_mod, is_negative, is_positive, compare}

pub record Constraint : Type 0 where
  pub min : SemVer
  pub max : SemVer
  pub min_open : Bool
  pub max_open : Bool
  pub has_min : Bool
  pub has_max : Bool

abbrev pub zero_version : SemVer
zero_version = record { major = 0; minor = 0; patch = 0; pre = [] }

-- `Constraint{}`.
abbrev pub unbounded : Constraint
unbounded = record {
  min = zero_version;
  max = zero_version;
  min_open = false;
  max_open = false;
  has_min = false;
  has_max = false;
}

-- A text cut at the first place of another, as `strings.SplitN` with 2 does.
unfoldable pub cut_text : Bytes → Bytes → Option (Bytes × Bytes)
cut_text p [] = if has_prefix p [] then some ([], []) else none
cut_text p (c ∷ s) =
    let rest = cut_text p s in
    if has_prefix p (c ∷ s) then some ([], drop (length p) (c ∷ s)) else push_left c rest

abbrev pub is_wild : ℕ → Bool
is_wild c = c == b'x' || (c == b'X' || c == b'*')

abbrev pub any_byte : (ℕ → Bool) → Bytes → Bool
any_byte p [] = false
any_byte p (c ∷ s) = p c || any_byte p s

abbrev pub is_some_int : Option ℕ → Bool
is_some_int none = false
is_some_int (some n) = true

abbrev first_part : Bytes → Option (Bytes × Bytes) → Bytes
first_part s none = s
first_part s (some (a, b)) = a

-- `looksLikeVersion`.
unfoldable pub looks_like_version : Bytes → Bool
looks_like_version s = let t = trim_space s in is_some_int (atoi (first_part t (cut b'.' t)))

abbrev pub add_int : ℕ → ℕ → ℕ
add_int a b = (a + b) % int_mod

-- The constraints that `ParseConstraint` returns, by the versions that it has read.
abbrev pub at_least : Bool → SemVer → Constraint
at_least is_open v = record unbounded { min = v; min_open = is_open; has_min = true }

abbrev pub at_most : Bool → SemVer → Constraint
at_most is_open v = record unbounded { max = v; max_open = is_open; has_max = true }

abbrev pub between : SemVer → SemVer → Bool → Constraint
between v w is_open = record {
  min = v;
  max = w;
  min_open = false;
  max_open = is_open;
  has_min = true;
  has_max = true;
}

abbrev pub next_major : SemVer → SemVer
next_major v = record zero_version { major = add_int v.major 1 }

abbrev pub next_minor : SemVer → SemVer
next_minor v = record zero_version { major = v.major; minor = add_int v.minor 1 }

abbrev pub caret : SemVer → Constraint
caret v = between v (next_major v) true

abbrev pub tilde : SemVer → Constraint
tilde v = between v (next_minor v) true

abbrev pub exact : SemVer → Constraint
exact v = between v v false

abbrev read_as : (SemVer → Constraint) → Bytes → Result Constraint
read_as f s = do v ← parse (trim_space s); ok (f v)

read_both : Bytes → Bytes → Result Constraint
read_both a b = do v ← parse (trim_space a); w ← parse (trim_space b); ok (between v w false)

abbrev pub digit_for_wild : ℕ → ℕ
digit_for_wild c = if is_wild c then b'0' else c

-- The end of `ParseConstraint`: wildcards, and exact versions.
unfoldable pub read_plain : Bytes → Result Constraint
read_plain s =
    if any_byte is_wild s
    then read_as caret (map digit_for_wild s)
    else do v ← parse s; ok (exact v)

read_spaced : Bytes → Option (Bytes × Bytes) → Result Constraint
unfolding read_both
read_spaced s none = read_plain s
read_spaced s (some (a, b)) = read_both a b

-- A dash without spaces makes a range only between two things that look like versions.
read_dashed : Bytes → Option (Bytes × Bytes) → Result Constraint
unfolding read_both read_spaced
read_dashed s none = read_plain s
read_dashed s (some (a, b)) =
    if looks_like_version a && looks_like_version b then read_both a b else read_plain s

abbrev pub spaced_dash : Bytes
spaced_dash = codes " - "

abbrev pub is_some_cut : Option (Bytes × Bytes) → Bool
is_some_cut none = false
is_some_cut (some p) = true

-- `ParseConstraint` behind the operators.
unfoldable pub read_range : Bytes → Result Constraint
unfolding read_dashed
read_range s =
    let spaced = cut_text spaced_dash s in
    if is_some_cut spaced then read_spaced s spaced else read_dashed s (cut b'-' s)

unfoldable pub read_constraint : Bytes → Result Constraint
read_constraint s =
    if length s == 0
    then err empty_constraint
    else if has_prefix (codes ">=") s
    then read_as (at_least false) (drop 2 s)
    else if has_prefix (codes ">") s
    then read_as (at_least true) (drop 1 s)
    else if has_prefix (codes "<=") s
    then read_as (at_most false) (drop 2 s)
    else if has_prefix (codes "<") s
    then read_as (at_most true) (drop 1 s)
    else if has_prefix (codes "^") s
    then read_as caret (drop 1 s)
    else if has_prefix (codes "~") s
    then read_as tilde (drop 1 s)
    else read_range s

-- `ParseConstraint`.
unfoldable pub parse_constraint : Bytes → Result Constraint
unfolding read_constraint
parse_constraint s = read_constraint (trim_space s)

-- The two halves of `SatisfiedBy`.
abbrev pub above_min : Constraint → SemVer → Bool
above_min c v =
    let n = compare v c.min in
    if c.has_min
    then (if c.min_open then not (n == 0 || is_negative n) else not (is_negative n))
    else true

abbrev pub below_max : Constraint → SemVer → Bool
below_max c v =
    let n = compare v c.max in
    if c.has_max
    then (if c.max_open then not (n == 0 || is_positive n) else not (is_positive n))
    else true

-- `SatisfiedBy`.
unfoldable pub satisfied_by : Constraint → SemVer → Bool
satisfied_by c v = above_min c v && below_max c v
