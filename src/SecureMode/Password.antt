-- ===== src/SecureMode/Password.antt =====
-- The rule for new passwords of internal/securemode/password.go: a password is the list of its
-- characters, each with the size of its encoding and its class by the package `unicode`.
use asscor.Prelude.{
  ◌∙◌, ℕ, ◌+◌, ◌≤◌, ◌≡◌, refl, ◌↔◌, Bool, true, false, ◌||◌, List, [], ◌∷◌, arith, ltb,
  if◌then◌else◌,
}

-- The branch of the `switch` that a character takes.
pub data Class : Type 0 where
  lower upper digit symbol : Class

pub record Rune : Type 0 where
  pub size : ℕ
  pub class : Class

abbrev pub is_class : Class → Class → Bool
is_class lower lower = true
is_class upper upper = true
is_class digit digit = true
is_class symbol symbol = true
is_class _ _ = false

abbrev pub byte_length : List Rune → ℕ
byte_length [] = 0
byte_length (r ∷ rs) = r.size + byte_length rs

-- The four flags of the loop.
pub record Seen : Type 0 where
  pub has_lower : Bool
  pub has_upper : Bool
  pub has_digit : Bool
  pub has_symbol : Bool

abbrev pub none_seen : Seen
none_seen = record { has_lower = false; has_upper = false; has_digit = false; has_symbol = false }

abbrev pub note : Class → Seen → Seen
note lower s = record s { has_lower = true }
note upper s = record s { has_upper = true }
note digit s = record s { has_digit = true }
note symbol s = record s { has_symbol = true }

-- The loop over the characters.
unfoldable pub scan : List Rune → Seen → Seen
scan [] s = s
scan (r ∷ rs) s = scan rs (note r.class s)

abbrev pub as_number : Bool → ℕ
as_number true = 1
as_number false = 0

abbrev pub classes : Seen → ℕ
classes s =
    as_number s.has_lower + as_number s.has_upper + as_number s.has_digit + as_number s.has_symbol

pub data Verdict : Type 0 where
  accepted too_short too_weak : Verdict

-- `ValidatePasswordStrength`.
unfoldable pub validate : List Rune → Verdict
validate password =
    if ltb (byte_length password) 12
    then too_short
    else if ltb (classes (scan password none_seen)) 3
    then too_weak
    else accepted

abbrev pub occurs : Class → List Rune → Bool
occurs c [] = false
occurs c (r ∷ rs) = is_class c r.class || occurs c rs

abbrev or_seen : List Rune → Seen → Seen
or_seen rs s = record {
  has_lower = s.has_lower || occurs lower rs;
  has_upper = s.has_upper || occurs upper rs;
  has_digit = s.has_digit || occurs digit rs;
  has_symbol = s.has_symbol || occurs symbol rs;
}

or-false : (b : Bool) → (b || false) ≡ b
or-false true = refl
or-false false = refl

or-true : (b : Bool) → (b || true) ≡ true
or-true true = refl
or-true false = refl

abbrev or_class : Class → List Rune → Seen → Seen
or_class c rs s = record {
  has_lower = s.has_lower || (is_class lower c || occurs lower rs);
  has_upper = s.has_upper || (is_class upper c || occurs upper rs);
  has_digit = s.has_digit || (is_class digit c || occurs digit rs);
  has_symbol = s.has_symbol || (is_class symbol c || occurs symbol rs);
}

or_note : (c : Class) (rs : List Rune) (s : Seen) → or_seen rs (note c s) ≡ or_class c rs s
or_note lower rs s = rw (or-true s.has_lower)
or_note upper rs s = rw (or-true s.has_upper)
or_note digit rs s = rw (or-true s.has_digit)
or_note symbol rs s = rw (or-true s.has_symbol)

scan-or_seen : (rs : List Rune) (s : Seen) → scan rs s ≡ or_seen rs s
unfolding scan
scan-or_seen [] s =
    rw (or-false s.has_lower, or-false s.has_upper, or-false s.has_digit, or-false s.has_symbol)
scan-or_seen (r ∷ rs) s = scan-or_seen rs (note r.class s) ∙ or_note r.class rs s

-- How many of the four classes occur in a password.
abbrev pub kinds : List Rune → ℕ
kinds p =
    as_number (occurs lower p)
    + as_number (occurs upper p)
    + as_number (occurs digit p)
    + as_number (occurs symbol p)

-- A password is accepted exactly if it has at least 12 bytes and characters of at least three of
-- the four classes lower case, upper case, digit and other.
pub validate_accepts :
    (p : List Rune) → (validate p ≡ accepted) ↔ ((12 ≤ byte_length p) × (3 ≤ kinds p))
unfolding validate
validate_accepts p = ground (arith, scan-or_seen p none_seen)
