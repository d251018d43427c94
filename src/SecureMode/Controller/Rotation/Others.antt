-- ===== src/SecureMode/Controller/Rotation/Others.antt =====
-- The verifier and the persisted registry, written beside the vaults, of internal/securemode/persist.go
-- and internal/securemode/password.go.
use asscor.Prelude.{remove, ◌≡◌, ◌≢◌, refl, inl, inr, Bytes, lookup-insert_self, bytes_eq}
use mathlib.Core.Logic.{⊎_elim}
use mathlib.Core.List.{Memᴰ}
use asscor.SecureMode.Crypt.{ok, Random, encrypt}
use asscor.SecureMode.Registry.{marshal}
use asscor.SecureMode.Verifier.{Written, random_failed, file, set_password}
use asscor.SecureMode.Verifier
use asscor.SecureMode.Disk.{Files, tmp_of}
use asscor.SecureMode.Disk.Rules.{
  IsSized, Ensures, weaken-Ensures, bind-Ensures, of_result-Ensures, fail-Ensures, get-Ensures,
}
use asscor.SecureMode.Disk.Calls.{Held, Ignores, draw-Ensures, sync_dir-Ensures, replace-Ensures}
use asscor.SecureMode.Vault.Files.{Vault, enc_path, open_payload}
use asscor.SecureMode.Vault.Keeps.{Stored-Ignores}
use asscor.SecureMode.Controller.{
  Setup, verifier_path, secrets_path, write_verifier, set_verifier, persist_secrets,
}
use asscor.SecureMode.Controller.Rotation.{Apart}
use asscor.SecureMode.Controller.Rotation.Loops.{All_}

module _ (u : Setup) (old new : Bytes) (content : Vault → Bytes) where
  -- The verifier's file and the registry's file lie apart from those of the vaults.
  pub record Elsewhere : Type 0 where
    pub verifier_apart :
        (v : Vault)
        → Memᴰ v u.vaults
        → (verifier_path u ≢ enc_path v) × (tmp_of (verifier_path u) ≢ enc_path v)
    pub vault_apart :
        (v : Vault)
        → Memᴰ v u.vaults
        → (enc_path v ≢ verifier_path u) × (tmp_of (enc_path v) ≢ verifier_path u)
    pub secrets_apart :
        (v : Vault)
        → Memᴰ v u.vaults
        → (secrets_path u ≢ enc_path v) × (tmp_of (secrets_path u) ≢ enc_path v)
    pub both_apart :
        (secrets_path u ≢ verifier_path u) × (tmp_of (secrets_path u) ≢ verifier_path u)

  -- A vault's file that opens under both passwords opens to one content.
  abbrev pub Agrees : Type 0
  Agrees =
      (v : Vault) (p b : Bytes)
      → Memᴰ v u.vaults
      → open_payload u.crypt v old p ≡ ok (content v)
      → open_payload u.crypt v new p ≡ ok b
      → b ≡ content v

  -- The verifier's file is one that `Set` writes for a password.
  abbrev pub VerifierOf : Bytes → Files → Type 0
  VerifierOf pw fs =
      (r : Random) × (b : Bytes) × (set_password u.crypt r.fresh_salt pw ≡ file b)
      × Held (verifier_path u) b fs

  -- A path that is no vault's file.
  path-Ignores :
      (q : Bytes)
      → ((v : Vault) → Memᴰ v u.vaults → q ≢ enc_path v)
      → Ignores q (All_ u old new content)
  path-Ignores q k =
      let s = λ (x : Vault) (n : Memᴰ x u.vaults) (pw : Bytes).
        Stored-Ignores u.crypt x q pw (content x) (k x n) in
      (
        λ fs b h x n.
            ⊎_elim (λ s'. inl ((s x n old).0 fs b s')) (λ s'. inr ((s x n new).0 fs b s')) (h x n),
        λ fs h x n.
            ⊎_elim (λ s'. inl ((s x n old).1 fs s')) (λ s'. inr ((s x n new).1 fs s')) (h x n),
      )

  module _ (apart : Apart u old new content) (elsewhere : Elsewhere) where
    abbrev pub Vaults : Files → Type 0
    Vaults = All_ u old new content

    put_verifier-Ensures :
        (r : Random) (pw : Bytes) (o : Written)
        → set_password u.crypt r.fresh_salt pw ≡ o
        → Ensures Vaults (λ _. Unit) (write_verifier u o) (λ _. VerifierOf pw)
    unfolding write_verifier
    put_verifier-Ensures r pw Verifier.empty_password e = fail-Ensures
    put_verifier-Ensures r pw random_failed e = fail-Ensures
    put_verifier-Ensures r pw (file b) e =
        let k = path-Ignores (tmp_of (verifier_path u)) (λ v m. (elsewhere.verifier_apart v m).1) in
        let l = path-Ignores (verifier_path u) (λ v m. (elsewhere.verifier_apart v m).0) in
        bind-Ensures (sync_dir-Ensures {P = λ _. Unit}) λ _.
          replace-Ensures {P = λ _. Unit} (verifier_path u) b k ((λ fs d h. tt), λ fs h. tt)
            λ fs i h.
              let gs = remove (tmp_of (verifier_path u)) fs in
              (l.0 gs b (k.1 fs i), (r, b, e, lookup-insert_self (verifier_path u) b gs))

    pub set_verifier-Ensures :
        (pw : Bytes) → Ensures Vaults (λ _. Unit) (set_verifier u pw) (λ _. VerifierOf pw)
    unfolding set_verifier
    set_verifier-Ensures pw = bind-Ensures (draw-Ensures {P = λ _. Unit}) λ r.
        weaken-Ensures (λ _. Unit) (λ fs h. tt)
          (put_verifier-Ensures r pw (set_password u.crypt r.fresh_salt pw) refl)

    -- The registry's file is no vault's.
    pub persist-Ensures :
        (F : Files → Type 0)
        → Ignores (secrets_path u) F
        → Ignores (tmp_of (secrets_path u)) F
        → Ensures Vaults F (persist_secrets u) (λ _. F)
    unfolding persist_secrets
    persist-Ensures F f g =
        let k = path-Ignores (tmp_of (secrets_path u)) (λ v m. (elsewhere.secrets_apart v m).1) in
        let l = path-Ignores (secrets_path u) (λ v m. (elsewhere.secrets_apart v m).0) in
        bind-Ensures (get-Ensures {P = F}) λ m. bind-Ensures (draw-Ensures {P = F}) λ r.
          bind-Ensures
            (of_result-Ensures {P = λ fs. F fs × IsSized r} {Q = λ _ fs. F fs}
              (encrypt u.crypt r (marshal u.json m.secrets) m.run_password) (λ p fs o h. h.0))
            λ p. replace-Ensures (secrets_path u) p k g λ fs i h.
              let gs = remove (tmp_of (secrets_path u)) fs in
              (l.0 gs p (k.1 fs i), f.0 gs p (g.1 fs h))
