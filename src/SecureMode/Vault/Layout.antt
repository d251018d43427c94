-- ===== src/SecureMode/Vault/Layout.antt =====
-- Protected files written and read back, of internal/securemode/vault.go.
use asscor.Prelude.{
  ℕ, ◌<◌, ◌≡◌, ◌≢◌, refl, ap, ◌∙◌, true, false, [], ◌∷◌, ◌++◌, Option, none, some, arith, ◌==◌,
  Bytes, length, has_prefix, push_left, Lacks, Bool-cases, inl, inr,
}
use mathlib.Core.List.{append_assoc}
use asscor.SecureMode.Crypt.{Result, ok}
use asscor.SecureMode.Vault.{
  find, blank, split_after, split_at, split_bootstrap, encrypt_content, reassemble, payload_after,
  payload_at, decrypt_content,
}

-- Behind a line break a header without line breaks is not looked for.
has_prefix_stable :
    (h x y z : Bytes) → Lacks 10 h → has_prefix h (x ++ 10 ∷ y) ≡ has_prefix h (x ++ 10 ∷ z)
has_prefix_stable [] x y z l = refl
has_prefix_stable (c ∷ h) [] y z l = ground (arith, l.0)
has_prefix_stable (c ∷ h) (d ∷ x) y z l = ground (arith, has_prefix_stable h x y z l.1)

find-here : (h s : Bytes) → has_prefix h s ≡ true → find h s ≡ some ([], s)
unfolding find
find-here h [] e = rw e refl
find-here h (c ∷ s) e = rw e refl

push_left-first : (c : ℕ) (o : Option (Bytes × Bytes)) (t : Bytes) → push_left c o ≢ some ([], t)
push_left-first c none t e = cc
push_left-first c (some (a, b)) t e = cc

push_left-later :
    (c d : ℕ) (o : Option (Bytes × Bytes)) (pre t : Bytes)
    → push_left c o ≡ some (d ∷ pre, t)
    → o ≡ some (pre, t)
push_left-later c d none pre t e = cc
push_left-later c d (some (a, b)) pre t e = cc

find-first : (h s t : Bytes) → find h s ≡ some ([], t) → has_prefix h s ≡ true
unfolding find
find-first h [] t e = ground arith
find-first h (c ∷ s) t e = elim (Bool-cases (has_prefix h (c ∷ s))) [
  | inl y ↦ y
  | inr n ↦ absurd (push_left-first c (find h s) t (ground (arith, n, e)))
]

find-later :
    (h s pre t : Bytes) (c d : ℕ)
    → find h (c ∷ s) ≡ some (d ∷ pre, t)
    → (has_prefix h (c ∷ s) ≡ false) × (find h s ≡ some (pre, t))
unfolding find
find-later h s pre t c d e = elim (Bool-cases (has_prefix h (c ∷ s))) [
  | inl y ↦ ground (arith, y, e)
  | inr n ↦ (n, push_left-later c d (find h s) pre t (ground (arith, n, e)))
]

find-step :
    (h s pre t : Bytes) (c : ℕ)
    → has_prefix h (c ∷ s) ≡ false
    → find h s ≡ some (pre, t)
    → find h (c ∷ s) ≡ some (c ∷ pre, t)
unfolding find
find-step h s pre t c n e = rw (n, e) refl

find_stable :
    (h pre b y z : Bytes)
    → Lacks 10 h
    → find h (pre ++ (b ++ 10 ∷ y)) ≡ some (pre, b ++ 10 ∷ y)
    → find h (pre ++ (b ++ 10 ∷ z)) ≡ some (pre, b ++ 10 ∷ z)
find_stable h [] b y z l e =
    find-here h (b ++ 10 ∷ z)
      (has_prefix_stable h b z y l ∙ find-first h (b ++ 10 ∷ y) (b ++ 10 ∷ y) e)
find_stable h (c ∷ pre) b y z l e =
    let parts = find-later h (pre ++ (b ++ 10 ∷ y)) pre (b ++ 10 ∷ y) c c e in
    let same = has_prefix_stable h (c ∷ (pre ++ b)) z y l in
    find-step h (pre ++ (b ++ 10 ∷ z)) pre (b ++ 10 ∷ z) c
      (ground (arith, same, parts.0, append_assoc pre b (10 ∷ y), append_assoc pre b (10 ∷ z)))
      (find_stable h pre b y z l parts.1)

-- A blank line that is found first is found first whatever follows it.
blank_stable :
    (b t z : Bytes)
    → find blank (b ++ (blank ++ t)) ≡ some (b, blank ++ t)
    → find blank (b ++ (blank ++ z)) ≡ some (b, blank ++ z)
blank_stable [] t z e = find-here blank (blank ++ z) refl
blank_stable (c ∷ []) t z e =
    let parts = find-later blank (blank ++ t) [] (blank ++ t) c c e in
    find-step blank (blank ++ z) [] (blank ++ z) c (ground (arith, parts.0))
      (blank_stable [] t z parts.1)
blank_stable (c ∷ d ∷ b) t z e =
    let parts = find-later blank (d ∷ (b ++ (blank ++ t))) (d ∷ b) (blank ++ t) c c e in
    find-step blank (d ∷ (b ++ (blank ++ z))) (d ∷ b) (blank ++ z) c (ground (arith, parts.0))
      (blank_stable (d ∷ b) t z parts.1)

-- The header is in the bootstrap section, so that is not empty.
reassemble_lem :
    (header pre b rest : Bytes)
    → 0 < length header
    → Lacks 10 header
    → find header (pre ++ (b ++ (blank ++ rest))) ≡ some (pre, b ++ (blank ++ rest))
    → reassemble (pre ++ b) rest ≡ pre ++ (b ++ (blank ++ rest))
reassemble_lem [] pre b rest h l e = absurd (omega arith)
reassemble_lem (c ∷ header) [] [] rest h l e =
    let first = find-first (c ∷ header) (blank ++ rest) (blank ++ rest) e in
    ground (arith, l.0, first)
reassemble_lem (c ∷ header) [] (d ∷ b) rest h l e = refl
reassemble_lem (c ∷ header) (d ∷ pre) b rest h l e = append_assoc (d ∷ pre) b (blank ++ rest)

module _ (encrypt decrypt : Bytes → Result Bytes) (header pre b rest sealed : Bytes) where
  -- `EncryptContent` of a file in which a header without line breaks occurs, and a blank line behind
  -- it, leaves what stands before the first such blank line as it is and encrypts what stands behind
  -- it; and `decryptPayload` gives the whole file back, if decryption undoes encryption on the rest:
  -- whatever the encrypted bytes are, no header or blank line in them is mistaken for the first.
  pub vault_round_trip :
      0 < length header
      → Lacks 10 header
      → find header (pre ++ (b ++ (blank ++ rest))) ≡ some (pre, b ++ (blank ++ rest))
      → find blank (b ++ (blank ++ rest)) ≡ some (b, blank ++ rest)
      → encrypt rest ≡ ok sealed
      → decrypt sealed ≡ ok rest
      → let content = pre ++ (b ++ (blank ++ rest)) in
        let payload = (pre ++ b) ++ (blank ++ sealed) in
        (encrypt_content encrypt header content ≡ ok payload)
        × (decrypt_content decrypt header payload ≡ ok content)
  unfolding encrypt_content decrypt_content split_bootstrap split_at split_after payload_at
      payload_after
  vault_round_trip h l e f g d =
      let found = find_stable header pre b (10 ∷ rest) (10 ∷ sealed) l e in
      let split = blank_stable b rest sealed f in
      let nonempty : (length header == 0) ≡ false = ground (arith, h) in
      (
        rw (nonempty, e, f, g) refl,
        rw (nonempty, append_assoc pre b (blank ++ sealed), found, split, d)
            (ap ok (reassemble_lem header pre b rest h l e)),
      )
