-- ===== src/ExtMgr/Spec.antt =====
-- The versions, constraints and specifications of internal/extmgr/extension_spec.go. Its versions are
-- not those of internal/semver: parts beyond the third are ignored, and pre-releases are compared as
-- texts. A specification's texts that nothing reads are left out.
use asscor.Prelude.{
  ℕ, Bool, true, false, not, ◌&&◌, ◌||◌, List, [], ◌∷◌, Option, none, some, if◌then◌else◌, Bytes,
  codes, ◌==◌, drop, cut, split, atoi, trim_space, has_prefix, bytes_ltb,
}
use asscor.Semver.Defs.{SemVer, parts_of}
use asscor.Semver.Compare.{sub_int, minus_one, is_negative, is_positive}
use asscor.Semver.Constraint.{Constraint, unbounded, cut_text}

infixl 5 ◌>>=◌
abbrev pub ◌>>=◌ {ℓ κ} : {A : Type ℓ} {B : Type κ} → Option A → (A → Option B) → Option B
none >>= f = none
some a >>= f = f a

-- `ParseSemVer`, its errors as one; what stands behind a third point is not looked at.
parse_numbers : List Bytes → Bytes → Option SemVer
parse_numbers [] pre = none
parse_numbers (a ∷ []) pre = do
  major ← atoi a
  some (record { major = major; minor = 0; patch = 0; pre = pre })
parse_numbers (a ∷ b ∷ []) pre = do
  major ← atoi a
  minor ← atoi b
  some (record { major = major; minor = minor; patch = 0; pre = pre })
parse_numbers (a ∷ b ∷ c ∷ more) pre = do
  major ← atoi a
  minor ← atoi b
  patch ← atoi c
  some (record { major = major; minor = minor; patch = patch; pre = pre })

unfoldable pub parse_sem_ver : Bytes → Option SemVer
unfolding parse_numbers
parse_sem_ver v = let p = parts_of v (cut b'-' v) in parse_numbers (split b'.' p.0) p.1

-- `Compare` behind the three numbers.
compare_texts_of : Bytes → Bytes → ℕ
compare_texts_of [] [] = 0
compare_texts_of [] (d ∷ t) = 1
compare_texts_of (c ∷ s) [] = minus_one
compare_texts_of (c ∷ s) (d ∷ t) =
    if bytes_ltb (c ∷ s) (d ∷ t) then minus_one else if bytes_ltb (d ∷ t) (c ∷ s) then 1 else 0

-- `SemVer.Compare`.
unfoldable pub compare_sem_ver : SemVer → SemVer → ℕ
unfolding compare_texts_of
compare_sem_ver s o =
    if not (s.major == o.major)
    then sub_int s.major o.major
    else if not (s.minor == o.minor)
    then sub_int s.minor o.minor
    else if not (s.patch == o.patch)
    then sub_int s.patch o.patch
    else compare_texts_of s.pre o.pre

abbrev min_holds : Constraint → SemVer → Bool
min_holds c v =
    let n = compare_sem_ver v c.min in
    if c.has_min
    then (if c.min_open then not (n == 0 || is_negative n) else not (is_negative n))
    else true

abbrev max_holds : Constraint → SemVer → Bool
max_holds c v =
    let n = compare_sem_ver v c.max in
    if c.has_max
    then (if c.max_open then not (n == 0 || is_positive n) else not (is_positive n))
    else true

-- `VersionConstraint.SatisfiedBy`. The fields of a `VersionConstraint` are those of a `Constraint`.
unfoldable pub constraint_holds : Constraint → SemVer → Bool
constraint_holds c v = min_holds c v && max_holds c v

abbrev from_version : Bool → SemVer → Constraint
from_version is_open v = record unbounded { min = v; min_open = is_open; has_min = true }

abbrev up_to_version : Bool → SemVer → Constraint
up_to_version is_open v = record unbounded { max = v; max_open = is_open; has_max = true }

abbrev between : SemVer → SemVer → Constraint
between a b = record unbounded { min = a; max = b; has_min = true; has_max = true }

range_of : Bytes → Option (Bytes × Bytes) → Option Constraint
unfolding parse_sem_ver
range_of s none = parse_sem_ver s >>= (λ v. some (between v v))
range_of s (some (a, b)) = do
  lo ← parse_sem_ver (trim_space a)
  hi ← parse_sem_ver (trim_space b)
  some (between lo hi)

constraint_of : Bytes → Option Constraint
unfolding parse_sem_ver range_of
constraint_of s =
    if has_prefix (codes ">=") s
    then parse_sem_ver (trim_space (drop 2 s)) >>= (λ v. some (from_version false v))
    else if has_prefix (codes ">") s
    then parse_sem_ver (trim_space (drop 1 s)) >>= (λ v. some (from_version true v))
    else if has_prefix (codes "<=") s
    then parse_sem_ver (trim_space (drop 2 s)) >>= (λ v. some (up_to_version false v))
    else if has_prefix (codes "<") s
    then parse_sem_ver (trim_space (drop 1 s)) >>= (λ v. some (up_to_version true v))
    else range_of s (cut_text (codes " - ") s)

-- `ParseVersionConstraint`.
unfoldable pub parse_version_constraint : Bytes → Option Constraint
unfolding constraint_of
parse_version_constraint s = constraint_of (trim_space s)

pub record DependencySpec : Type 0 where
  pub extension_id : Bytes
  pub constraint : Constraint

pub record SourceSpec : Type 0 where
  pub url : Bytes
  pub source_type : Bytes
  pub checksum : Bytes
  pub commit : Bytes

pub data ExtensionState : Type 0 where
  installed enabled disabled error_state : ExtensionState

pub record ExtensionSpec : Type 0 where
  pub id : Bytes
  pub name : Bytes
  pub version : Bytes
  pub ext_type : Bytes
  pub dependencies : List DependencySpec
  pub source : SourceSpec
  pub custom_config : List (Bytes × Bytes)
  pub install_path : Bytes
  pub install_time : ℕ
  pub state : ExtensionState
  pub error : Bytes
