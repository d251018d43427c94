-- ===== src/Prelude/Text.antt =====
-- What the program uses of the packages `strings` and `strconv`, over lists of bytes: the byte
-- values of ASCII texts. An `int` is its pattern of 64 bits.
use Prim.Native.Nat.{ℕ, ◌+◌, ◌-◌, ◌*◌, ◌%◌, ◌^◌}
use Prim.Native.Char.{code}
use Prim.Native.String.{String}
use mathlib.Core.Path.{◌≡◌, refl}
use mathlib.Core.Logic.{◌≢◌, inl, inr}
use mathlib.Core.Bool.{Bool, true, false, ◌&&◌, ◌||◌}
use mathlib.Core.List.{List, [], ◌∷◌, ◌++◌, reverse}
use mathlib.Core.Option.{Option, none, some}
use native.Mathlib.Omega.{arith}
use asscor.Prelude.Tests.{ltb, leb, ◌==◌, if◌then◌else◌, Bool-cases}
use asscor.Prelude.Lists.{All}

abbrev pub Bytes : Type 0
Bytes = List ℕ

abbrev pub codes : String → Bytes
codes String.[] = []
codes (String.◌∷◌ c s) = code c ∷ codes s

-- `strings.HasPrefix`, the prefix first.
abbrev pub has_prefix : Bytes → Bytes → Bool
has_prefix [] s = true
has_prefix (p ∷ ps) [] = false
has_prefix (p ∷ ps) (c ∷ s) = p == c && has_prefix ps s

abbrev pub push_left : ℕ → Option (Bytes × Bytes) → Option (Bytes × Bytes)
push_left c none = none
push_left c (some (a, b)) = some (c ∷ a, b)

-- A text cut at the first place of a byte, which `strings.Index` or `strings.IndexByte` finds.
unfoldable pub cut : ℕ → Bytes → Option (Bytes × Bytes)
cut d [] = none
cut d (c ∷ s) = let rest = cut d s in if c == d then some ([], s) else push_left c rest

abbrev pub Lacks : ℕ → Bytes → Type 0
Lacks d = All (λ c. c ≢ d)

pub cut-append : (d : ℕ) (a b : Bytes) → Lacks d a → cut d (a ++ d ∷ b) ≡ some (a, b)
unfolding cut
cut-append d [] b h = ground arith
cut-append d (c ∷ a) b h = ground (arith, cut-append d a b h.1, h.0)

pub cut-Lacks : (d : ℕ) (s : Bytes) → Lacks d s → cut d s ≡ none
unfolding cut
cut-Lacks d [] h = refl
cut-Lacks d (c ∷ s) h = ground (arith, cut-Lacks d s h.1, h.0)

abbrev pub LeftLacks : ℕ → Option (Bytes × Bytes) → Type 0
LeftLacks d none = Unit {0}
LeftLacks d (some (a, b)) = Lacks d a

push_left-LeftLacks :
    (d c : ℕ) (o : Option (Bytes × Bytes)) → c ≢ d → LeftLacks d o → LeftLacks d (push_left c o)
push_left-LeftLacks d c none h l = tt
push_left-LeftLacks d c (some (a, b)) h l = (h, l)

-- The part before the cut lacks the byte.
pub cut-LeftLacks : (d : ℕ) (s : Bytes) → LeftLacks d (cut d s)
unfolding cut
cut-LeftLacks d [] = tt
cut-LeftLacks d (c ∷ s) = elim (Bool-cases (c == d)) [
  | inl e ↦ rw e tt
  | inr e ↦ rw e (push_left-LeftLacks d c (cut d s) (ground arith) (cut-LeftLacks d s))
]

-- Where there is no cut the text lacks the byte.
pub cut-none : (d : ℕ) (s : Bytes) → cut d s ≡ none → Lacks d s
unfolding cut
cut-none d [] h = tt
cut-none d (c ∷ s) h = ground (arith, cut-none d s)

abbrev pub push_head : ℕ → List Bytes → List Bytes
push_head c [] = (c ∷ []) ∷ []
push_head c (x ∷ xs) = (c ∷ x) ∷ xs

-- `strings.Split` at a byte: at least one part.
unfoldable pub split : ℕ → Bytes → List Bytes
split d [] = [] ∷ []
split d (c ∷ s) = let rest = split d s in if c == d then [] ∷ rest else push_head c rest

-- `strings.TrimSpace`.
abbrev pub is_space : ℕ → Bool
is_space c = c == 32 || leb 9 c && leb c 13

unfoldable pub trim_left : Bytes → Bytes
trim_left [] = []
trim_left (c ∷ s) = let rest = trim_left s in if is_space c then rest else c ∷ s

unfoldable pub trim_space : Bytes → Bytes
unfolding trim_left
trim_space s = reverse (trim_left (reverse (trim_left s)))

abbrev pub max_int : ℕ
max_int = 2 ^ 63 - 1

abbrev pub is_digit : ℕ → Bool
is_digit c = leb b'0' c && leb c b'9'

-- The value of a text of decimal digits, after those that were read.
unfoldable pub digits_value : Bytes → ℕ → Option ℕ
digits_value [] n = some n
digits_value (c ∷ s) n =
    let rest = digits_value s (n * 10 + (c - b'0')) in if is_digit c then rest else none

abbrev pub some_digits : Bytes → Option ℕ
some_digits [] = none
some_digits (c ∷ s) = digits_value (c ∷ s) 0

abbrev pub in_range : Option ℕ → Option ℕ
in_range none = none
in_range (some n) = if leb n max_int then some n else none

abbrev pub negated : Option ℕ → Option ℕ
negated none = none
negated (some n) = if leb n (2 ^ 63) then some ((2 ^ 64 - n) % 2 ^ 64) else none

-- `strconv.Atoi`, its errors as one.
unfoldable pub atoi : Bytes → Option ℕ
unfolding digits_value
atoi [] = none
atoi (c ∷ s) =
    if c == b'-'
    then negated (some_digits s)
    else if c == b'+'
    then in_range (some_digits s)
    else in_range (some_digits (c ∷ s))

-- `<` on texts.
unfoldable pub bytes_ltb : Bytes → Bytes → Bool
bytes_ltb s [] = false
bytes_ltb [] (d ∷ t) = true
bytes_ltb (c ∷ s) (d ∷ t) = ltb c d || (c == d && bytes_ltb s t)
