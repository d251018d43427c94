-- ===== src/SecureMode/Controller/Rotation/Loops.antt =====
-- The loops over the vaults in `SetPassword` and its rollback, of internal/securemode/controller.go.
use asscor.Prelude.{◌≡◌, refl, ap₂, ◌⊎◌, inl, inr, List, [], ◌∷◌, Bytes}
use mathlib.Core.Logic.{⊎_elim}
use mathlib.Core.List.{Memᴰ}
use mathlib.Core.List.Memᴰ
use asscor.SecureMode.Crypt.{ok, Primitives}
use asscor.SecureMode.Disk.{Files, tmp_of}
use asscor.SecureMode.Disk.Rules.{
  Ensures, weaken-Ensures, given-Ensures, post-Ensures, bind-Ensures, of_result-Ensures,
  pure-Ensures,
}
use asscor.SecureMode.Disk.Calls.{Held, Ignores, read-Ensures}
use asscor.SecureMode.Vault.Files.{Vault, enc_path, open_payload, load_ciphertext}
use asscor.SecureMode.Vault.Keeps.{Stored, Stored-opens}
use asscor.SecureMode.Controller.{Setup}
use asscor.SecureMode.Controller.Change.{load_all, reencrypt_all}
use asscor.SecureMode.Controller.Rotation.{Under, AllUnder, Moved, Apart, Seals, reencrypt-Ensures}

pub load-Ensures :
    (c : Primitives) {I P : Files → Type 0} (v : Vault) (pw : Bytes)
    → Ensures I P
        (load_ciphertext c v pw)
        (λ b fs. P fs × (p : Bytes) × Held (enc_path v) p fs × (open_payload c v pw p ≡ ok b))
unfolding load_ciphertext
load-Ensures c {P = P} v pw = bind-Ensures (read-Ensures {P = P} (enc_path v)) λ p.
    of_result-Ensures {P = λ fs. P fs × Held (enc_path v) p fs} (open_payload c v pw p)
      λ b fs o h. (h.0, p, h.1, o)

module _ (u : Setup) (old new : Bytes) (content : Vault → Bytes) where
  abbrev pub paired : List Vault → List (Vault × Bytes)
  paired [] = []
  paired (v ∷ vs) = (v, content v) ∷ paired vs

  abbrev pub Within : List Vault → Type 0
  Within vs = (v : Vault) → Memᴰ v vs → Memᴰ v u.vaults

  abbrev pub Anyone : Vault → Type 0
  Anyone v = Unit

  abbrev pub All_ : Files → Type 0
  All_ = AllUnder u old new content

  -- The first loop reads the contents.
  pub load_all-Ensures :
      (F : Files → Type 0) (vs : List Vault)
      → Within vs
      → ((fs : Files) → F fs → Moved u old new content old Anyone fs)
      → Ensures All_ F (load_all u old vs) (λ ps fs. F fs × (ps ≡ paired vs))
  unfolding load_all
  load_all-Ensures F [] k g = pure-Ensures λ fs i h. (h, refl)
  load_all-Ensures F (v ∷ vs) k g = bind-Ensures (load-Ensures u.crypt {P = F} v old) λ b.
      given-Ensures (b ≡ content v)
        (λ fs (h, p, held, o).
          Stored-opens u.crypt v old (content v) p b fs (g fs h v (k v (Memᴰ.head refl)) tt) held o)
        λ e.
          weaken-Ensures F (λ fs h. h.0)
            (bind-Ensures (load_all-Ensures F vs (λ x m. k x (Memᴰ.tail m)) g)
              λ ps. pure-Ensures λ fs i h. (h.0, ap₂ (λ d qs. (v, d) ∷ qs) e h.1))

  module _ (apart : Apart u old new content) (q : Bytes)
      (inj : (x : Vault) (fs : Files)
        → Stored u.crypt x q (content x) fs
        → Under u old new content x fs)
      (seals : Seals u old new content q) (F : Files → Type 0)
      (ignores : (v : Vault)
        → Memᴰ v u.vaults
        → Ignores (enc_path v) F × Ignores (tmp_of (enc_path v)) F) where
    -- The second loop overwrites every vault.
    pub reencrypt_all-Ensures :
        (D : Vault → Type 0) (vs : List Vault)
        → Within vs
        → Ensures All_
            (λ fs. F fs × Moved u old new content q D fs)
            (reencrypt_all u q (paired vs))
            (λ _ fs. F fs × Moved u old new content q (λ x. D x ⊎ Memᴰ x vs) fs)
    unfolding reencrypt_all
    reencrypt_all-Ensures D [] k =
        pure-Ensures
          λ fs i h. (h.0, λ x m d. h.1 x m (⊎_elim (λ r. r) (λ n. absurd (Memᴰ.not-nil n)) d))
    reencrypt_all-Ensures D (v ∷ vs) k =
        let m = k v (Memᴰ.head refl) in
        bind-Ensures
          (reencrypt-Ensures u old new content apart q inj D F v m seals (ignores v m).0
            (ignores v m).1)
          λ _.
            post-Ensures
              (λ _ fs h. (
                h.0,
                λ x n d. h.1 x n (
                    ⊎_elim (λ r. inl (inl r))
                      (λ t. ⊎_elim (λ e. inl (inr e)) inr (Memᴰ.cases_cons t)) d),
              ))
              (reencrypt_all-Ensures (λ x. D x ⊎ (x ≡ v)) vs (λ x n. k x (Memᴰ.tail n)))
