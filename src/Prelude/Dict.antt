-- ===== src/Prelude/Dict.antt =====
-- A Go map as an association list. The order of the entries stands for the unspecified order in
-- which a `range` visits them. The keys are texts, as `String` or as lists of bytes.
use Prim.Native.Nat.{ℕ}
use Prim.Native.String.{String}
use mathlib.Core.Path.{◌≡◌, refl, sym, ◌∙◌, subst}
use mathlib.Core.Logic.{◌≢◌, ◌↔◌, inl, inr}
use mathlib.Core.Bool.{Bool, true, false, ◌&&◌}
use mathlib.Core.List.{List, [], ◌∷◌}
use mathlib.Core.Option.{Option, none, some, some-injective}
use native.Mathlib.Omega.{arith}
use text.Mathlib.Text.{◌==◌ as str_eq}
use text.Mathlib.TextEquality.{eq_iff}
use asscor.Prelude.Tests.{if◌then◌else◌, ◌==◌, Bool-cases}

pub record Eq {ℓ} (A : Type ℓ) : Type ℓ where
  pub beq : A → A → Bool
  pub beq_iff : (a b : A) → (beq a b ≡ true) ↔ (a ≡ b)

instance abbrev pub string_eq : Eq String
string_eq = record { beq = str_eq; beq_iff = eq_iff }

abbrev pub bytes_beq : List ℕ → List ℕ → Bool
bytes_beq [] [] = true
bytes_beq [] (b ∷ t) = false
bytes_beq (a ∷ s) [] = false
bytes_beq (a ∷ s) (b ∷ t) = (a == b) && bytes_beq s t

bytes_beq→eq : (s t : List ℕ) → bytes_beq s t ≡ true → s ≡ t
bytes_beq→eq [] [] h = refl
bytes_beq→eq [] (b ∷ t) h = cc
bytes_beq→eq (a ∷ s) [] h = cc
bytes_beq→eq (a ∷ s) (b ∷ t) h = ground (arith, bytes_beq→eq s t)

bytes_beq_refl : (s : List ℕ) → bytes_beq s s ≡ true
bytes_beq_refl [] = refl
bytes_beq_refl (a ∷ s) = ground (arith, bytes_beq_refl s)

pub bytes_beq_iff : (s t : List ℕ) → (bytes_beq s t ≡ true) ↔ (s ≡ t)
bytes_beq_iff s t = (bytes_beq→eq s t, λ e. rw e (bytes_beq_refl t))

instance abbrev pub bytes_eq : Eq (List ℕ)
bytes_eq = record { beq = bytes_beq; beq_iff = bytes_beq_iff }

true_ne : true ≡ false → ⊥
true_ne h = cc

module _ {ℓ} {K : Type ℓ} ⦃e : Eq K⦄ where
  abbrev pub same : K → K → Bool
  same = e.beq

  pub same_iff : (a b : K) → (same a b ≡ true) ↔ (a ≡ b)
  same_iff = e.beq_iff

  pub same_refl : (a : K) → same a a ≡ true
  same_refl a = (e.beq_iff a a).1 refl

  pub same-ne : (a b : K) → a ≢ b → same a b ≡ false
  same-ne a b h = ground (arith, e.beq_iff a b, h)

module _ {ℓ κ} {K : Type ℓ} ⦃e : Eq K⦄ {V : Type κ} where
  unfoldable pub lookup : K → List (K × V) → Option V
  lookup k [] = none
  lookup k ((j, v) ∷ m) = let rest = lookup k m in if e.beq j k then some v else rest

  unfoldable pub insert : K → V → List (K × V) → List (K × V)
  insert k v [] = (k, v) ∷ []
  insert k v ((j, w) ∷ m) =
      let rest = insert k v m in if e.beq j k then (k, v) ∷ m else (j, w) ∷ rest

  -- `delete(m, k)`.
  unfoldable pub remove : K → List (K × V) → List (K × V)
  remove k [] = []
  remove k ((j, w) ∷ m) = let rest = remove k m in if e.beq j k then rest else (j, w) ∷ rest

  pub lookup-insert :
      (k j : K) (v : V) (m : List (K × V))
      → lookup j (insert k v m) ≡ (if e.beq k j then some v else lookup j m)
  unfolding lookup insert
  lookup-insert k j v [] = refl
  lookup-insert k j v ((i, w) ∷ m) =
      ground (arith, e.beq_iff k j, e.beq_iff i k, e.beq_iff i j, lookup-insert k j v m)

  pub lookup-insert_self : (k : K) (v : V) (m : List (K × V)) → lookup k (insert k v m) ≡ some v
  lookup-insert_self k v m = simp (lookup-insert, same_refl)

  pub lookup-insert_ne :
      (k j : K) (v : V) (m : List (K × V)) → k ≢ j → lookup j (insert k v m) ≡ lookup j m
  lookup-insert_ne k j v m h = lookup-insert k j v m ∙ rw (same-ne k j h)

  pub lookup-remove :
      (k j : K) (m : List (K × V))
      → lookup j (remove k m) ≡ (if e.beq k j then none else lookup j m)
  unfolding lookup remove
  lookup-remove k j [] = ground arith
  lookup-remove k j ((i, w) ∷ m) =
      ground (arith, e.beq_iff k j, e.beq_iff i k, e.beq_iff i j, lookup-remove k j m)

  -- A predicate on the values of a map.
  abbrev pub AllValues {μ} : (V → Type μ) → List (K × V) → Type μ
  AllValues P [] = Unit
  AllValues P ((j, v) ∷ m) = P v × AllValues P m

  pub lookup-AllValues {μ} :
      (P : V → Type μ) (k : K) (v : V) (m : List (K × V))
      → AllValues P m
      → lookup k m ≡ some v
      → P v
  unfolding lookup
  lookup-AllValues P k v [] h l = cc
  lookup-AllValues P k v ((j, w) ∷ m) h l = elim (Bool-cases (e.beq j k)) [
    | inl q ↦ subst P (some-injective w v (rw q at l)) h.0
    | inr q ↦ lookup-AllValues P k v m h.1 (rw q at l)
  ]

  pub insert-AllValues {μ} :
      (P : V → Type μ) (k : K) (v : V) (m : List (K × V))
      → AllValues P m
      → P v
      → AllValues P (insert k v m)
  unfolding insert
  insert-AllValues P k v [] h p = (p, tt)
  insert-AllValues P k v ((j, w) ∷ m) h p = elim (Bool-cases (e.beq j k)) [
    | inl q ↦ rw q (p, h.1)
    | inr q ↦ rw q (h.0, insert-AllValues P k v m h.1 p)
  ]

  -- No key stands twice, which a Go map gives for nothing.
  abbrev pub IsDistinct : List (K × V) → Type κ
  IsDistinct [] = Unit
  IsDistinct ((j, v) ∷ m) = (lookup j m ≡ none) × IsDistinct m

  pub insert-IsDistinct :
      (k : K) (v : V) (m : List (K × V)) → IsDistinct m → IsDistinct (insert k v m)
  unfolding insert lookup
  insert-IsDistinct k v [] h = (refl, tt)
  insert-IsDistinct k v ((j, w) ∷ m) h = elim (Bool-cases (e.beq j k)) [
    | inl q ↦ rw q (subst (λ i. lookup i m ≡ none) ((e.beq_iff j k).0 q) h.0, h.1)
    | inr q ↦ rw q (
      lookup-insert k j v m
          ∙ rw (same-ne k j (λ p. true_ne (sym ((e.beq_iff j k).1 (sym p)) ∙ q))) h.0,
      insert-IsDistinct k v m h.1,
    )
  ]
