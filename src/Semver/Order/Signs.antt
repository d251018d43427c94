-- ===== src/Semver/Order/Signs.antt =====
-- Comparisons with three results, and the ways to build one from others.
use Prim.Native.Nat.{compare, Ordering}
use asscor.Prelude.{ℕ, ◌≡◌, refl, List, [], ◌∷◌, arith}

pub data Sign : Type 0 where
  below equal_to above : Sign

abbrev pub flip : Sign → Sign
flip below = above
flip equal_to = equal_to
flip above = below

-- The first comparison that tells two things apart decides.
abbrev pub next : Sign → Sign → Sign
next equal_to s = s
next below s = below
next above s = above

-- The laws of a total order up to `equal_to`.
pub record IsComparison {ℓ} {A : Type ℓ} (c : A → A → Sign) : Type ℓ where
  pub flips : (a b : A) → c b a ≡ flip (c a b)
  pub chain : (a b d : A) → c a b ≡ below → c b d ≡ below → c a d ≡ below
  pub congruent : (a b d : A) → c a b ≡ equal_to → c a d ≡ c b d

abbrev pub nat_sign : ℕ → ℕ → Sign
nat_sign a b = elim (compare a b) [
  | Ordering.lt ↦ below
  | Ordering.eq ↦ equal_to
  | Ordering.gt ↦ above
]

nat_sign-flips : (a b : ℕ) → nat_sign b a ≡ flip (nat_sign a b)
nat_sign-flips a b = ground arith

nat_sign-chain : (a b d : ℕ) → nat_sign a b ≡ below → nat_sign b d ≡ below → nat_sign a d ≡ below
nat_sign-chain a b d h k = ground arith

nat_sign-congruent : (a b d : ℕ) → nat_sign a b ≡ equal_to → nat_sign a d ≡ nat_sign b d
nat_sign-congruent a b d h = ground arith

pub nat_sign-IsComparison : IsComparison nat_sign
nat_sign-IsComparison = record {
  flips = nat_sign-flips;
  chain = nat_sign-chain;
  congruent = nat_sign-congruent;
}

-- A comparison of parts.
module _ {ℓ κ} {A : Type ℓ} {B : Type κ} (f : A → B) (c : B → B → Sign) (v : IsComparison c) where
  pub on-IsComparison : IsComparison (λ (a b : A). c (f a) (f b))
  on-IsComparison = record {
    flips = λ a b. v.flips (f a) (f b);
    chain = λ a b d. v.chain (f a) (f b) (f d);
    congruent = λ a b d. v.congruent (f a) (f b) (f d);
  }

-- One comparison, and then another.
module _ {ℓ} {A : Type ℓ} (c e : A → A → Sign) (v : IsComparison c) (w : IsComparison e) where
  abbrev both : A → A → Sign
  both a b = next (c a b) (e a b)

  both-flips : (a b : A) → both b a ≡ flip (both a b)
  both-flips a b = ground (arith, v.flips a b, w.flips a b)

  both-chain : (a b d : A) → both a b ≡ below → both b d ≡ below → both a d ≡ below
  both-chain a b d h k = ground (
    arith,
    v.chain a b d,
    w.chain a b d,
    v.congruent a b d,
    v.congruent b d a,
    v.flips a b,
    v.flips a d,
    v.flips b d,
  )

  both-congruent : (a b d : A) → both a b ≡ equal_to → both a d ≡ both b d
  both-congruent a b d h = ground (arith, v.congruent a b d, w.congruent a b d)

  pub both-IsComparison : IsComparison (λ (a b : A). next (c a b) (e a b))
  both-IsComparison = record { flips = both-flips; chain = both-chain; congruent = both-congruent }

-- Lists, field by field; a list that goes on is above.
abbrev pub list_sign {ℓ} : {A : Type ℓ} → (A → A → Sign) → List A → List A → Sign
list_sign c [] [] = equal_to
list_sign c [] (b ∷ bs) = below
list_sign c (a ∷ as') [] = above
list_sign c (a ∷ as') (b ∷ bs) = next (c a b) (list_sign c as' bs)

module _ {ℓ} {A : Type ℓ} (c : A → A → Sign) (v : IsComparison c) where
  list_sign-flips : (s t : List A) → list_sign c t s ≡ flip (list_sign c s t)
  list_sign-flips [] [] = refl
  list_sign-flips [] (b ∷ t) = refl
  list_sign-flips (a ∷ s) [] = refl
  list_sign-flips (a ∷ s) (b ∷ t) = ground (arith, v.flips a b, list_sign-flips s t)

  list_sign-congruent :
      (s t u : List A) → list_sign c s t ≡ equal_to → list_sign c s u ≡ list_sign c t u
  list_sign-congruent [] [] u h = refl
  list_sign-congruent [] (b ∷ t) u h = cc
  list_sign-congruent (a ∷ s) [] u h = cc
  list_sign-congruent (a ∷ s) (b ∷ t) [] h = refl
  list_sign-congruent (a ∷ s) (b ∷ t) (d ∷ u) h =
      ground (arith, v.congruent a b d, list_sign-congruent s t u)

  list_sign-chain :
      (s t u : List A) → list_sign c s t ≡ below → list_sign c t u ≡ below → list_sign c s u ≡ below
  list_sign-chain [] [] u h k = cc
  list_sign-chain [] (b ∷ t) [] h k = cc
  list_sign-chain [] (b ∷ t) (d ∷ u) h k = refl
  list_sign-chain (a ∷ s) [] u h k = cc
  list_sign-chain (a ∷ s) (b ∷ t) [] h k = cc
  list_sign-chain (a ∷ s) (b ∷ t) (d ∷ u) h k = ground (
    arith,
    v.chain a b d,
    v.congruent a b d,
    v.congruent b d a,
    v.flips a b,
    v.flips a d,
    v.flips b d,
    list_sign-chain s t u,
  )

  pub list_sign-IsComparison : IsComparison (list_sign c)
  list_sign-IsComparison = record {
    flips = list_sign-flips;
    chain = list_sign-chain;
    congruent = list_sign-congruent;
  }
