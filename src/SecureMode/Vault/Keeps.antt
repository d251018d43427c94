-- ===== src/SecureMode/Vault/Keeps.antt =====
-- No conversion of a protected file loses its content, of internal/securemode/vault.go.
use asscor.Prelude.{
  ℕ, ◌+◌, ◌≡◌, ◌≢◌, refl, sym, ◌∙◌, ap, subst, ◌⊎◌, inl, inr, ◌∷◌, ◌++◌, none, arith, Bytes,
  bytes_beq, bytes_beq_iff, codes, length, length-append, drop, drop-append_left, lookup, insert,
  remove, lookup-insert_ne, lookup-remove, same-ne, same_refl, bytes_eq, Bool-cases,
}
use mathlib.Core.Option.{some-injective}
use mathlib.Core.Logic.{⊎_elim}
use asscor.SecureMode.Crypt.{Result, ok, err, Primitives, Random}
use asscor.SecureMode.Disk.{Files, tmp_of}
use asscor.SecureMode.Disk.Rules.{
  IsSized, Ensures, bind-Ensures, of_result-Ensures, pure-Ensures, fail-Ensures,
}
use asscor.SecureMode.Disk.Calls.{Held, Ignores, draw-Ensures}
use asscor.SecureMode.Vault.Files.{
  Vault, enc_path, payload_with, make_payload, open_payload, check_same,
}

append_ne : (s t : Bytes) (n : ℕ) → length t ≡ 1 + n → s ≢ s ++ t
append_ne s t n h e = omega (arith, ap length e, length-append s t)

pub enc_ne : (v : Vault) → v.config_path ≢ enc_path v
enc_ne v = append_ne v.config_path (codes ".enc") 3 refl

pub tmp_ne : (p : Bytes) → tmp_of p ≢ p
tmp_ne p e = append_ne p (codes ".tmp") 3 refl (sym e)

pub tmp_enc_ne : (v : Vault) → tmp_of (enc_path v) ≢ v.config_path
tmp_enc_ne v e = omega (
  arith,
  ap length e,
  length-append (enc_path v) (codes ".tmp"),
  length-append v.config_path (codes ".enc"),
)

abbrev second : Bytes → ℕ
second (a ∷ b ∷ s) = b
second _ = 0

pub tmp_config_ne : (v : Vault) → tmp_of v.config_path ≢ enc_path v
tmp_config_ne v e =
    let s = v.config_path in
    omega (
      arith,
      ap second (
          sym (drop-append_left s (codes ".tmp"))
          ∙ (ap (λ r. drop (length s) r) e ∙ drop-append_left s (codes ".enc"))),
    )

pub Held-insert : (p q b d : Bytes) (fs : Files) → q ≢ p → Held p b fs → Held p b (insert q d fs)
Held-insert p q b d fs n h = lookup-insert_ne q p d fs n ∙ h

pub Held-remove : (p q b : Bytes) (fs : Files) → q ≢ p → Held p b fs → Held p b (remove q fs)
Held-remove p q b fs n h = lookup-remove q p fs ∙ rw (same-ne q p n) h

pub remove-gone : (p : Bytes) (fs : Files) → lookup p (remove p fs) ≡ none
remove-gone p fs = lookup-remove p p fs ∙ rw (same_refl p) refl

content_of : Bytes → Result Bytes → Bytes
content_of d (ok b) = b
content_of d (err e) = d

pub ok_injective : (a b : Bytes) → ok a ≡ ok b → a ≡ b
unfolding content_of
ok_injective a b e = ap (content_of a) e

pub Held-Ignores : (p q b : Bytes) → q ≢ p → Ignores q (Held p b)
Held-Ignores p q b n = (λ fs d h. Held-insert p q b d fs n h, λ fs h. Held-remove p q b fs n h)

module _ (q : Bytes) (P Q : Files → Type 0) where
  pub both-Ignores : Ignores q P → Ignores q Q → Ignores q (λ fs. P fs × Q fs)
  both-Ignores k l = (λ fs b h. (k.0 fs b h.0, l.0 fs b h.1), λ fs h. (k.1 fs h.0, l.1 fs h.1))

  pub either-Ignores : Ignores q P → Ignores q Q → Ignores q (λ fs. P fs ⊎ Q fs)
  either-Ignores k l = (
    λ fs b. ⊎_elim (λ h. inl (k.0 fs b h)) (λ h. inr (l.0 fs b h)),
    λ fs. ⊎_elim (λ h. inl (k.1 fs h)) (λ h. inr (l.1 fs h)),
  )

module _ (c : Primitives) (v : Vault) where
  -- The encrypted file is there and opens to a content under a password.
  abbrev pub Stored : Bytes → Bytes → Files → Type 0
  Stored password content fs =
      (payload : Bytes) × Held (enc_path v) payload fs
      × (open_payload c v password payload ≡ ok content)

  abbrev pub Plain : Bytes → Files → Type 0
  Plain content fs = Held v.config_path content fs

  -- The content is in the plain file, or in the encrypted one under the password.
  abbrev pub Kept : Bytes → Bytes → Files → Type 0
  Kept password content fs = Plain content fs ⊎ Stored password content fs

  abbrev pub Gone : Bytes → Files → Type 0
  Gone p fs = lookup p fs ≡ none

  -- What the encrypted file opens to, whichever way it was read.
  pub Stored-opens :
      (password content p b : Bytes) (fs : Files)
      → Stored password content fs
      → Held (enc_path v) p fs
      → open_payload c v password p ≡ ok b
      → b ≡ content
  Stored-opens password content p b fs (q, held, opens) held' o = ok_injective b content (
      sym o
      ∙ subst (λ x. open_payload c v password x ≡ ok content)
          (some-injective q p (sym held ∙ held')) opens)

  pub Stored-Ignores :
      (q password content : Bytes) → q ≢ enc_path v → Ignores q (Stored password content)
  Stored-Ignores q password content n = (
    λ fs b (payload, held, opens). (payload, Held-insert (enc_path v) q payload b fs n held, opens),
    λ fs (payload, held, opens). (payload, Held-remove (enc_path v) q payload fs n held, opens),
  )

  pub Kept-Ignores :
      (q password content : Bytes)
      → q ≢ v.config_path
      → q ≢ enc_path v
      → Ignores q (Kept password content)
  Kept-Ignores q password content n m =
      either-Ignores q (Plain content) (Stored password content)
        (Held-Ignores v.config_path q content n) (Stored-Ignores q password content m)

  pub payload-Ensures :
      {I P : Files → Type 0} (password content : Bytes)
      → Ensures I P
          (make_payload c v password content)
          (λ b fs. P fs × (r : Random) × IsSized r × (payload_with c v password content r ≡ ok b))
  unfolding make_payload
  payload-Ensures {P = P} password content =
      bind-Ensures (draw-Ensures {P = P})
        λ r. of_result-Ensures (payload_with c v password content r) λ b fs e h. (h.0, r, h.1, e)

  pub check-Ensures :
      {I P : Files → Type 0} (ver content : Bytes)
      → Ensures I P (check_same ver content) (λ _ fs. P fs × (ver ≡ content))
  check-Ensures ver content = elim (Bool-cases (bytes_beq ver content)) [
    | inl e ↦ rw e (pure-Ensures λ fs i h. (h, (bytes_beq_iff ver content).0 e))
    | inr e ↦ rw e fail-Ensures
  ]
