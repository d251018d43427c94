-- ===== src/Semver/Defs.antt =====
-- The versions of internal/semver/semver.go, read and printed. An `int` is its pattern of 64 bits.
use mathlib.Core.WellFounded.{Acc, WellFounded}
use mathlib.Core.Logic.{dite}
use native.Mathlib.Decide.{dec_lt}
use asscor.Prelude.{
  ℕ, zero, suc, ◌+◌, ◌/◌, ◌%◌, ◌-◌, ◌^◌, ◌<◌, List, [], ◌∷◌, ◌++◌, Option, none, some, arith, ltb,
  if◌then◌else◌, length, Bytes, cut, split, atoi,
}

pub record SemVer : Type 0 where
  pub major : ℕ
  pub minor : ℕ
  pub patch : ℕ
  pub pre : Bytes

pub data ParseError : Type 0 where
  invalid_major invalid_minor invalid_patch too_many_segments empty_constraint : ParseError

pub data Result {ℓ} (A : Type ℓ) : Type ℓ where
  ok : A → Result A
  err : ParseError → Result A

infixl 5 ◌>>=◌
abbrev pub ◌>>=◌ {ℓ κ} : {A : Type ℓ} {B : Type κ} → Result A → (A → Result B) → Result B
ok a >>= f = f a
err e >>= f = err e

abbrev pub or_fail : Option ℕ → ParseError → Result ℕ
or_fail none e = err e
or_fail (some n) e = ok n

-- The part of a version before the first dash, and `Pre`.
abbrev pub parts_of : Bytes → Option (Bytes × Bytes) → Bytes × Bytes
parts_of v none = (v, [])
parts_of v (some (rest, pre)) = (rest, pre)

-- `Parse` from `parts` on. The parts beyond the third are counted after the three are read.
unfoldable pub parse_parts : List Bytes → Bytes → Result SemVer
parse_parts [] pre = err invalid_major
parse_parts (a ∷ []) pre = do
  major ← or_fail (atoi a) invalid_major
  ok (record { major = major; minor = 0; patch = 0; pre = pre })
parse_parts (a ∷ b ∷ []) pre = do
  major ← or_fail (atoi a) invalid_major
  minor ← or_fail (atoi b) invalid_minor
  ok (record { major = major; minor = minor; patch = 0; pre = pre })
parse_parts (a ∷ b ∷ c ∷ more) pre = do
  major ← or_fail (atoi a) invalid_major
  minor ← or_fail (atoi b) invalid_minor
  patch ← or_fail (atoi c) invalid_patch
  let v : SemVer = record { major = major; minor = minor; patch = patch; pre = pre }
  if ltb 0 (length more) then err too_many_segments else ok v

-- `Parse`.
unfoldable pub parse : Bytes → Result SemVer
parse v = let (rest, pre) = parts_of v (cut b'-' v) in parse_parts (split b'.' rest) pre

acc_below : (k n : ℕ) → n < k → Acc ◌<◌ n
acc_below zero n h = absurd (omega arith)
acc_below (suc k) n h = Acc.intro n λ m lt. acc_below k m (omega arith)

unfoldable pub lt_wf : WellFounded ◌<◌
unfolding acc_below
lt_wf = record { apply = λ n. acc_below (suc n) n (omega arith) }

pub tenth_lt : (n : ℕ) → 9 < n → n / 10 < n
tenth_lt n h = omega arith

-- The decimal digits of a number before a text.
unfoldable pub emit : (n : ℕ) → Acc ◌<◌ n → Bytes → Bytes
emit n (Acc.intro _ smaller) out =
    dite (dec_lt 9 n) (λ h. emit (n / 10) (smaller (n / 10) (tenth_lt n h)) ((b'0' + n % 10) ∷ out))
      (λ _. (b'0' + n) ∷ out)

-- `%d` of a number that is not negative.
unfoldable pub decimal : ℕ → Bytes
unfolding emit lt_wf dec_lt
decimal n = emit n (lt_wf.apply n) []

-- `%d`.
unfoldable pub format_int : ℕ → Bytes
unfolding decimal
format_int n = if ltb n (2 ^ 63) then decimal n else b'-' ∷ decimal (2 ^ 64 - n)

-- `String`.
unfoldable pub to_string : SemVer → Bytes
unfolding format_int
to_string v =
    let core = format_int v.major ++ (b'.' ∷ (format_int v.minor ++ (b'.' ∷ format_int v.patch))) in
    if ltb 0 (length v.pre) then core ++ (b'-' ∷ v.pre) else core
