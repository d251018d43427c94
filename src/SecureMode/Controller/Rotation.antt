-- ===== src/SecureMode/Controller/Rotation.antt =====
-- One step of a change of the password loses no vault, of internal/securemode/controller.go.
pub mod Loops
pub mod Others
pub mod Rollback
pub mod Whole
use asscor.Prelude.{
  ◌≡◌, ◌≢◌, refl, sym, ◌∙◌, subst, Bool, true, false, ◌⊎◌, inl, inr, List, [], ◌∷◌, ◌++◌, Option,
  none, some, Bytes, bytes_beq, bytes_beq_iff, All, lookup, insert, remove, lookup-insert_self,
  bytes_eq, Bool-cases,
}
use mathlib.Core.Logic.{⊎_elim}
use mathlib.Core.List.{Memᴰ}
use mathlib.Core.List.Memᴰ
use asscor.SecureMode.Crypt.{ok, Primitives, Random}
use asscor.SecureMode.Disk.{Files, World, Outcome, done, failed, Io, ◌>>=◌, tmp_of, attempt}
use asscor.SecureMode.Disk.Rules.{
  IsSized, Safe, Ensures, Post, weaken-Ensures, given-Ensures, bind-Ensures, of_result-Ensures,
  pure-Ensures, fail-Ensures, get-Ensures, put-Ensures, attempt-Ensures,
}
use asscor.SecureMode.Disk.Calls.{
  Held, Ignores, read-Ensures, replace-Ensures, draw-Ensures, sync_dir-Ensures,
}
use asscor.SecureMode.Vault.Files.{
  Vault, enc_path, payload_with, open_payload, load_ciphertext, reencrypt_overwrite,
}
use asscor.SecureMode.Vault.Keeps.{
  Stored, Stored-opens, Stored-Ignores, Held-insert, Held-remove, tmp_ne, payload-Ensures,
  both-Ignores,
}
use asscor.SecureMode.Controller.{Setup}

module _ (u : Setup) (old new : Bytes) (content : Vault → Bytes) where
  abbrev c : Primitives
  c = u.crypt

  -- The vault's file opens to its content, under the old password or under the new one.
  abbrev pub Under : Vault → Files → Type 0
  Under v fs = Stored c v old (content v) fs ⊎ Stored c v new (content v) fs

  abbrev pub AllUnder : Files → Type 0
  AllUnder fs = (v : Vault) → Memᴰ v u.vaults → Under v fs

  -- The vaults of which `D` holds are under a password.
  abbrev pub Moved : Bytes → (Vault → Type 0) → Files → Type 0
  Moved pw D fs = (v : Vault) → Memᴰ v u.vaults → D v → Stored c v pw (content v) fs

  -- The files of the vaults are distinct from each other's temporary files.
  pub record Apart : Type 0 where
    pub tmp_apart :
        (v x : Vault) → Memᴰ v u.vaults → Memᴰ x u.vaults → tmp_of (enc_path v) ≢ enc_path x
    pub same_vault :
        (v x : Vault) → Memᴰ v u.vaults → Memᴰ x u.vaults → enc_path v ≡ enc_path x → v ≡ x

  -- What `Encrypt` under a password made of a vault's content opens to it again.
  abbrev pub Seals : Bytes → Type 0
  Seals pw =
      (v : Vault) (r : Random) (p : Bytes)
      → Memᴰ v u.vaults
      → IsSized r
      → payload_with c v pw (content v) r ≡ ok p
      → open_payload c v pw p ≡ ok (content v)

  module _ (apart : Apart) where
    Stored-insert :
        (pw q : Bytes) (v x : Vault) (b : Bytes) (fs : Files)
        → Memᴰ v u.vaults
        → Memᴰ x u.vaults
        → open_payload c v q b ≡ ok (content v)
        → Stored c x pw (content x) fs
        → Stored c x pw (content x) (insert (enc_path v) b fs)
          ⊎ Stored c x q (content x) (insert (enc_path v) b fs)
    Stored-insert pw q v x b fs m n opens s =
        elim (Bool-cases (bytes_beq (enc_path v) (enc_path x))) [
          | inl e ↦
              let same = apart.same_vault v x m n ((bytes_beq_iff (enc_path v) (enc_path x)).0 e) in
              inr (
                subst (λ y. Stored c y q (content y) (insert (enc_path v) b fs)) same
                  (b, lookup-insert_self (enc_path v) b fs, opens))
          | inr e ↦
              let d : enc_path v ≢ enc_path x =
                λ q. cc ((bytes_beq_iff (enc_path v) (enc_path x)).1 q, e) in
              inl ((Stored-Ignores c x (enc_path v) pw (content x) d).0 fs b s)
        ]

    AllUnder-Ignores : (v : Vault) → Memᴰ v u.vaults → Ignores (tmp_of (enc_path v)) AllUnder
    AllUnder-Ignores v m =
        let t = tmp_of (enc_path v) in
        let k = λ (x : Vault) (n : Memᴰ x u.vaults) (pw : Bytes).
          Stored-Ignores c x t pw (content x) (apart.tmp_apart v x m n) in
        (
          λ fs b h x n.
              ⊎_elim (λ s. inl ((k x n old).0 fs b s)) (λ s. inr ((k x n new).0 fs b s)) (h x n),
          λ fs h x n.
              ⊎_elim (λ s. inl ((k x n old).1 fs s)) (λ s. inr ((k x n new).1 fs s)) (h x n),
        )

    Moved-Ignores :
        (pw : Bytes) (D : Vault → Type 0) (v : Vault)
        → Memᴰ v u.vaults
        → Ignores (tmp_of (enc_path v)) (Moved pw D)
    Moved-Ignores pw D v m =
        let t = tmp_of (enc_path v) in
        let k = λ (x : Vault) (n : Memᴰ x u.vaults).
          Stored-Ignores c x t pw (content x) (apart.tmp_apart v x m n) in
        (λ fs b h x n d. (k x n).0 fs b (h x n d), λ fs h x n d. (k x n).1 fs (h x n d))

    module _ (q : Bytes)
        (inj : (x : Vault) (fs : Files) → Stored c x q (content x) fs → Under x fs) where
      commit-AllUnder :
          (v : Vault) (b : Bytes) (fs : Files)
          → Memᴰ v u.vaults
          → open_payload c v q b ≡ ok (content v)
          → AllUnder fs
          → AllUnder (insert (enc_path v) b fs)
      commit-AllUnder v b fs m o h x n =
          let gs = insert (enc_path v) b fs in
          ⊎_elim (λ s. ⊎_elim inl (inj x gs) (Stored-insert old q v x b fs m n o s))
            (λ s. ⊎_elim inr (inj x gs) (Stored-insert new q v x b fs m n o s)) (h x n)

      commit-Moved :
          (D : Vault → Type 0) (v : Vault) (b : Bytes) (fs : Files)
          → Memᴰ v u.vaults
          → open_payload c v q b ≡ ok (content v)
          → Moved q D fs
          → Moved q (λ x. D x ⊎ (x ≡ v)) (insert (enc_path v) b fs)
      commit-Moved D v b fs m o h x n d =
          let gs = insert (enc_path v) b fs in
          ⊎_elim (λ r. ⊎_elim (λ s. s) (λ s. s) (Stored-insert q q v x b fs m n o (h x n r)))
            (λ e.
              subst (λ y. Stored c y q (content y) gs) (sym e)
                (b, lookup-insert_self (enc_path v) b fs, o))
            d

      -- One vault overwritten under a password, where `F` looks at no file of it.
      pub reencrypt-Ensures :
          (D : Vault → Type 0) (F : Files → Type 0) (v : Vault)
          → Memᴰ v u.vaults
          → Seals q
          → Ignores (enc_path v) F
          → Ignores (tmp_of (enc_path v)) F
          → Ensures AllUnder
              (λ fs. F fs × Moved q D fs)
              (reencrypt_overwrite c v q (content v))
              (λ _ fs. F fs × Moved q (λ x. D x ⊎ (x ≡ v)) fs)
      unfolding reencrypt_overwrite
      reencrypt-Ensures D F v m seals f g =
          let t = tmp_of (enc_path v) in
          let P = λ (fs : Files). F fs × Moved q D fs in
          bind-Ensures (payload-Ensures c v {P = P} q (content v)) λ p.
            given-Ensures (open_payload c v q p ≡ ok (content v)) (λ fs h. seals v h.1 p m h.2 h.3)
              λ o.
                weaken-Ensures P (λ fs h. h.0)
                  (replace-Ensures (enc_path v) p (AllUnder-Ignores v m)
                    (both-Ignores t F (Moved q D) g (Moved-Ignores q D v m))
                    λ fs i h.
                      let gs = remove t fs in
                      (
                        commit-AllUnder v p gs m o ((AllUnder-Ignores v m).1 fs i),
                        (
                          f.0 gs p (g.1 fs h.0),
                          commit-Moved D v p gs m o ((Moved-Ignores q D v m).1 fs h.1),
                        ),
                      ))
