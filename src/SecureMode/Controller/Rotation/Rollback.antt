-- ===== src/SecureMode/Controller/Rotation/Rollback.antt =====
-- The rollback of `SetPassword`, of internal/securemode/controller.go.
use asscor.Prelude.{subst, ◌∙◌, ◌≡◌, refl, sym, ◌⊎◌, inl, inr, List, [], ◌∷◌, Bytes, bytes_eq}
use mathlib.Core.Option.{some-injective}
use mathlib.Core.List.{Memᴰ}
use asscor.SecureMode.Crypt.{ok}
use asscor.SecureMode.Disk.{Files, Outcome, done, failed, tmp_of}
use asscor.SecureMode.Disk.Rules.{
  Ensures, Post, weaken-Ensures, given-Ensures, known-Ensures, post-Ensures, bind-Ensures,
  pure-Ensures, attempt-Ensures,
}
use asscor.SecureMode.Disk.Calls.{Held, Ignores}
use asscor.SecureMode.Vault.Files.{
  Vault, enc_path, open_payload, load_ciphertext, reencrypt_overwrite,
}
use asscor.SecureMode.Vault.Keeps.{Stored, Stored-opens}
use asscor.SecureMode.Controller.{Setup}
use asscor.SecureMode.Controller.Change.{
  reencrypt_loaded, rollback_opened, rollback_vault, rollback_all, rollback_set_password, error_of,
  first_of,
}
use asscor.SecureMode.Controller.Rotation.{Under, Moved, Apart, Seals, reencrypt-Ensures}
use asscor.SecureMode.Controller.Rotation.Loops.{load-Ensures, Within, All_}
use asscor.SecureMode.Controller.Rotation.Others.{Elsewhere, Agrees, set_verifier-Ensures}

module _ (u : Setup) (old new : Bytes) (content : Vault → Bytes) (apart : Apart u old new content)
    (elsewhere : Elsewhere u old new content) (seals_old : Seals u old new content old)
    (seals_new : Seals u old new content new) (agrees : Agrees u old new content) where
  abbrev pub I : Files → Type 0
  I = All_ u old new content

  abbrev pub None : Files → Type 0
  None fs = Unit

  from_old :
      (x : Vault) (fs : Files) → Stored u.crypt x old (content x) fs → Under u old new content x fs
  from_old x fs = inl

  pub from_new :
      (x : Vault) (fs : Files) → Stored u.crypt x new (content x) fs → Under u old new content x fs
  from_new x fs = inr

  pub None-Ignores : (q : Bytes) → Ignores q None
  None-Ignores q = (λ fs b h. tt, λ fs h. tt)

  abbrev pub Nobody : Vault → Type 0
  Nobody v = ⊥

  -- What a vault's file opens to with the new password, whichever it is under.
  opened_new :
      (v : Vault) (p b : Bytes) (fs : Files)
      → Memᴰ v u.vaults
      → Under u old new content v fs
      → Held (enc_path v) p fs
      → open_payload u.crypt v new p ≡ ok b
      → b ≡ content v
  opened_new v p b fs m (inl (q, held, o)) held' o' =
      agrees v p b m
        (subst (λ x. open_payload u.crypt v old x ≡ ok (content v))
          (some-injective q p (sym held ∙ held')) o)
        o'
  opened_new v p b fs m (inr s) held' o' = Stored-opens u.crypt v new (content v) p b fs s held' o'

  reencrypt_loaded-Ensures :
      (v : Vault) (o : Outcome Bytes)
      → Memᴰ v u.vaults
      → Ensures I (Post (λ b fs. b ≡ content v) o) (reencrypt_loaded u v old o) (λ _. None)
  unfolding reencrypt_loaded
  reencrypt_loaded-Ensures v (failed e) m = pure-Ensures λ fs i h. tt
  reencrypt_loaded-Ensures v (done b) m =
      given-Ensures (b ≡ content v) (λ fs h. h)
        λ e.
          bind-Ensures
            (attempt-Ensures (
              weaken-Ensures (λ fs. None fs × Moved u old new content old Nobody fs)
                (λ fs h. (tt, λ x n d. absurd d))
                (subst
                  (λ d.
                    Ensures I (λ fs. None fs × Moved u old new content old Nobody fs)
                      (reencrypt_overwrite u.crypt v old d)
                      (λ _ fs. None fs × Moved u old new content old (λ x. Nobody x ⊎ (x ≡ v)) fs))
                  (sym e)
                  (reencrypt-Ensures u old new content apart old from_old Nobody None v m seals_old
                    (None-Ignores (enc_path v)) (None-Ignores (tmp_of (enc_path v)))))))
            λ o. pure-Ensures {a = error_of o} λ fs i h. tt

  load_new-Ensures :
      (v : Vault)
      → Memᴰ v u.vaults
      → Ensures I None (load_ciphertext u.crypt v new) (λ b fs. b ≡ content v)
  load_new-Ensures v m = known-Ensures (
      post-Ensures (λ b fs (h, p, held, o). opened_new v p b fs m (h.1 v m) held o)
        (load-Ensures u.crypt {P = λ fs. None fs × I fs} v new))

  rollback_opened-Ensures :
      (v : Vault) (o : Outcome Bytes)
      → Memᴰ v u.vaults
      → Ensures I None (rollback_opened u v old new o) (λ _. None)
  unfolding rollback_opened
  rollback_opened-Ensures v (done p) m = pure-Ensures λ fs i h. tt
  rollback_opened-Ensures v (failed e) m =
      bind-Ensures (attempt-Ensures (load_new-Ensures v m)) λ o. reencrypt_loaded-Ensures v o m

  rollback_vault-Ensures :
      (v : Vault) → Memᴰ v u.vaults → Ensures I None (rollback_vault u v old new) (λ _. None)
  unfolding rollback_vault
  rollback_vault-Ensures v m =
      bind-Ensures (attempt-Ensures (load-Ensures u.crypt {P = None} v old))
        λ o. weaken-Ensures None (λ fs h. tt) (rollback_opened-Ensures v o m)

  rollback_all-Ensures :
      (vs : List Vault)
      → Within u old new content vs
      → Ensures I None (rollback_all u old new vs) (λ _. None)
  unfolding rollback_all
  rollback_all-Ensures [] k = pure-Ensures λ fs i h. tt
  rollback_all-Ensures (v ∷ vs) k =
      bind-Ensures (rollback_vault-Ensures v (k v (Memᴰ.head refl))) λ e.
        bind-Ensures (rollback_all-Ensures vs (λ x n. k x (Memᴰ.tail n)))
          λ f. pure-Ensures λ fs i h. tt

  pub rollback-Ensures : Ensures I None (rollback_set_password u old new) (λ _. None)
  unfolding rollback_set_password
  rollback-Ensures = bind-Ensures (rollback_all-Ensures u.vaults (λ x n. n)) λ e.
      bind-Ensures (attempt-Ensures (set_verifier-Ensures u old new content apart elsewhere old))
        λ o. pure-Ensures {a = first_of e (error_of o)} λ fs i h. tt
