-- ===== src/SecureMode/Controller/Rotation/Whole.antt =====
-- The whole of `SetPassword`, of internal/securemode/controller.go, its rollback included.
use asscor.Prelude.{
  if◌then◌else◌, subst, ◌≡◌, ◌≢◌, sym, Bool, true, false, not, inl, inr, some, Bytes, bytes_beq,
  bytes_eq,
}
use mathlib.Core.List.{Memᴰ}
use asscor.SecureMode.Marker.{mode_run}
use asscor.SecureMode.Verifier.{verify}
use asscor.SecureMode.Disk.{Files, World, Outcome, done, failed, pure, tmp_of, fail, wrong_password}
use asscor.SecureMode.Disk.Rules.{
  History, Safe, Ensures, Post, weaken-Ensures, given-Ensures, post-Ensures, if-Ensures,
  bind-Ensures, pure-Ensures, fail-Ensures, get-Ensures, put-Ensures, attempt-Ensures,
}
use asscor.SecureMode.Disk.Calls.{Held, Ignores, read-Ensures}
use asscor.SecureMode.Vault.Files.{Vault, enc_path}
use asscor.SecureMode.Vault.Keeps.{Stored-Ignores, both-Ignores, Held-Ignores}
use asscor.SecureMode.Controller.{
  Setup, verifier_path, secrets_path, verify_password, persist_secrets, file_of,
}
use asscor.SecureMode.Controller.Change.{
  reencrypt_all, or_rollback, or_retain, retain, change_password, controller_set_password,
}
use asscor.SecureMode.Controller.Rotation.{Moved, Apart, Seals}
use asscor.SecureMode.Controller.Rotation.Loops.{
  load_all-Ensures, reencrypt_all-Ensures, paired, Anyone, All_,
}
use asscor.SecureMode.Controller.Rotation.Others.{
  Elsewhere, Agrees, VerifierOf, set_verifier-Ensures, persist-Ensures,
}
use asscor.SecureMode.Controller.Rotation.Rollback.{rollback-Ensures}

module _ (u : Setup) (old new : Bytes) (content : Vault → Bytes) (apart : Apart u old new content)
    (elsewhere : Elsewhere u old new content) (seals_old : Seals u old new content old)
    (seals_new : Seals u old new content new) (agrees : Agrees u old new content) where
  abbrev Inv : Files → Type 0
  Inv = All_ u old new content

  abbrev Nothing : Files → Type 0
  Nothing fs = Unit

  abbrev Verified : Files → Type 0
  Verified = VerifierOf u old new content new

  or_rollback-Ensures :
      (F : Files → Type 0) (o : Outcome (Unit {0}))
      → Ensures Inv (Post (λ _. F) o) (or_rollback u old new o) (λ _. F)
  unfolding or_rollback
  or_rollback-Ensures F (done t) = pure-Ensures λ fs i h. h
  or_rollback-Ensures F (failed e) =
      bind-Ensures (rollback-Ensures u old new content apart elsewhere seals_old seals_new agrees)
        λ r. fail-Ensures

  retain-Ensures : (F : Files → Type 0) (pw : Bytes) → Ensures Inv F (retain u pw) (λ _. F)
  retain-Ensures F pw =
      bind-Ensures (get-Ensures {P = F}) λ m. put-Ensures (record m { run_password = pw })

  or_retain-Ensures :
      (F : Files → Type 0) (o : Outcome (Unit {0}))
      → Ensures Inv (Post (λ _. F) o) (or_retain u old new o) (λ _. F)
  unfolding or_retain
  or_retain-Ensures F (done t) = pure-Ensures λ fs i h. h
  or_retain-Ensures F (failed e) =
      bind-Ensures (retain-Ensures Nothing old) λ _. or_rollback-Ensures F (failed e)

  Verified-Ignores : (q : Bytes) → q ≢ verifier_path u → Ignores q Verified
  Verified-Ignores q n =
      let k = λ (b : Bytes). Held-Ignores (verifier_path u) q b n in
      (λ fs d (r, b, e, h). (r, b, e, (k b).0 fs d h), λ fs (r, b, e, h). (r, b, e, (k b).1 fs h))

  -- Every vault is under the new password, and so is the verifier.
  abbrev pub Switched : Files → Type 0
  Switched fs = Verified fs × Moved u old new content new (Anyone u old new content) fs

  Switched-Ignores :
      (q : Bytes)
      → q ≢ verifier_path u
      → ((v : Vault) → Memᴰ v u.vaults → q ≢ enc_path v)
      → Ignores q Switched
  Switched-Ignores q n k =
      let s =
        λ (v : Vault) (m : Memᴰ v u.vaults). Stored-Ignores u.crypt v q new (content v) (k v m) in
      both-Ignores q Verified (Moved u old new content new (Anyone u old new content))
        (Verified-Ignores q n)
        (λ fs b h v m t. (s v m).0 fs b (h v m t), λ fs h v m t. (s v m).1 fs (h v m t))

  switch-Ensures :
      Ensures Inv Verified (reencrypt_all u new (paired u old new content u.vaults)) (λ _. Switched)
  switch-Ensures =
      weaken-Ensures (λ fs. Verified fs × Moved u old new content new (λ v. ⊥) fs)
        (λ fs h. (h, λ v m n. absurd n))
        (post-Ensures (λ _ fs h. (h.0, λ v m t. h.1 v m (inr m)))
          (reencrypt_all-Ensures u old new content apart new (λ x fs. inr) seals_new Verified
            (λ v m. (
              Verified-Ignores (enc_path v) (elsewhere.vault_apart v m).0,
              Verified-Ignores (tmp_of (enc_path v)) (elsewhere.vault_apart v m).1,
            ))
            (λ v. ⊥) u.vaults (λ v m. m)))

  persisted-Ensures : Ensures Inv Switched (persist_secrets u) (λ _. Switched)
  persisted-Ensures =
      persist-Ensures u old new content apart elsewhere Switched
        (Switched-Ignores (secrets_path u) elsewhere.both_apart.0
          (λ v m. (elsewhere.secrets_apart v m).0))
        (Switched-Ignores (tmp_of (secrets_path u)) elsewhere.both_apart.1
          (λ v m. (elsewhere.secrets_apart v m).1))

  abbrev pub AllOld : Files → Type 0
  AllOld = Moved u old new content old (Anyone u old new content)

  change-Ensures : Ensures Inv AllOld (change_password u old new) (λ _. Switched)
  unfolding change_password
  change-Ensures =
      bind-Ensures (load_all-Ensures u old new content AllOld u.vaults (λ v m. m) (λ fs h. h)) λ ps.
        given-Ensures (ps ≡ paired u old new content u.vaults) (λ fs h. h.1)
          λ e.
            weaken-Ensures Nothing (λ fs h. tt)
              (bind-Ensures (set_verifier-Ensures u old new content apart elsewhere new) λ _.
                bind-Ensures
                  (attempt-Ensures (
                    subst (λ qs. Ensures Inv Verified (reencrypt_all u new qs) (λ _. Switched))
                      (sym e) switch-Ensures))
                  λ o. bind-Ensures (or_rollback-Ensures Switched o) λ _.
                    bind-Ensures (retain-Ensures Switched new) λ _.
                      bind-Ensures (attempt-Ensures persisted-Ensures)
                        λ o'. or_retain-Ensures Switched o')

  -- What is known behind the verification of the old password.
  abbrev KnownIf : Bool → Files → Type 0
  KnownIf true fs = AllOld fs
  KnownIf false fs = Unit

  right-Ensures :
      (o : Outcome Bytes)
      → Ensures Inv
          (Post (λ b fs. AllOld fs × Held (verifier_path u) b fs) o)
          (pure (verify u.crypt (file_of u o) old))
          KnownIf
  unfolding verify
  right-Ensures (failed e) = pure-Ensures λ fs i h. tt
  right-Ensures (done b) = pure-Ensures λ fs i h. right_of (verify u.crypt (some b) old) fs h.0
    where
      right_of : (b : Bool) (fs : Files) → AllOld fs → KnownIf b fs
      right_of true fs h = h
      right_of false fs h = tt

  guarded-Ensures :
      (right : Bool)
      → Ensures Inv
          (KnownIf right)
          (if right then change_password u old new else fail wrong_password)
          (λ _. Switched)
  guarded-Ensures true = change-Ensures
  guarded-Ensures false = fail-Ensures

  checked-Ensures :
      (traced : Bool)
      → Ensures Inv AllOld (controller_set_password u traced old new) (λ _. Switched)
  unfolding controller_set_password verify_password
  checked-Ensures traced = bind-Ensures (get-Ensures {P = AllOld}) λ m.
      if-Ensures traced fail-Ensures (
        if-Ensures (not (bytes_beq m.mode mode_run)) fail-Ensures (
          bind-Ensures
            (bind-Ensures (attempt-Ensures (read-Ensures {P = AllOld} (verifier_path u)))
              λ o. right-Ensures o)
            λ right. guarded-Ensures right))

  -- Whatever the system answers to the calls of `SetPassword` and of its rollback, and wherever it is
  -- killed between two of them: where every vault's file opened under the old password before, every
  -- state of the files on the way and at the end has, for every vault, a file that opens to the
  -- vault's content under the old password or under the new one. If it returns without an error, all
  -- open under the new one, and the verifier is one that `Set` wrote for the new password. The vaults'
  -- files, the verifier and the registry lie apart; what `Encrypt` makes of the contents opens again;
  -- and a file that opens under both passwords opens to one content.
  pub set_password_keeps :
      (traced : Bool) (w : World)
      → History Inv w
      → AllOld w.files
      → Safe Inv (λ _. Switched) (controller_set_password u traced old new w)
  set_password_keeps traced w e h = (checked-Ensures traced).run w e (λ v m. inl (h v m tt)) h
