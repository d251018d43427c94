-- ===== src/SecureMode/Controller/Change.antt =====
-- `SetPassword` with its rollback, and `Unlock`, of internal/securemode/controller.go.
use asscor.Prelude.{
  Bool, true, not, List, [], ◌∷◌, Option, none, some, if◌then◌else◌, Bytes, bytes_beq,
}
use asscor.SecureMode.Marker.{mode_run}
use asscor.SecureMode.Memory.{new_memory_guard}
use asscor.SecureMode.Vault.Files.{Vault, load_ciphertext, reencrypt_overwrite}
use asscor.SecureMode.Disk.{
  Failure, debugged, wrong_password, not_run_mode, restored, not_restored, Outcome, done, failed,
  Io, ◌>>=◌, ◌>>◌, pure, fail, get_memory, put_memory, attempt,
}
use asscor.SecureMode.Controller.{
  Setup, set_verifier, verify_password, persist_secrets, load_secrets, first_plain, set_guard,
}

-- The first of two errors, as `firstErr` collects them.
abbrev pub first_of : Option Failure → Option Failure → Option Failure
first_of none e = e
first_of (some e) f = some e

abbrev pub error_of {ℓ} : {A : Type ℓ} → Outcome A → Option Failure
error_of (done a) = none
error_of (failed e) = some e

module _ (u : Setup) where
  -- The first loop of `SetPassword`: every vault, decrypted in memory.
  unfoldable pub load_all : Bytes → List Vault → Io (List (Vault × Bytes))
  load_all password [] = pure []
  load_all password (v ∷ vs) = do
    p ← load_ciphertext u.crypt v password
    ps ← load_all password vs
    pure ((v, p) ∷ ps)

  -- The second loop, of `reencryptVault`.
  unfoldable pub reencrypt_all : Bytes → List (Vault × Bytes) → Io (Unit {0})
  reencrypt_all password [] = pure tt
  reencrypt_all password ((v, p) ∷ ps) =
      reencrypt_overwrite u.crypt v password p >> reencrypt_all password ps

  unfoldable pub reencrypt_loaded : Vault → Bytes → Outcome Bytes → Io (Option Failure)
  reencrypt_loaded v old_password (failed e) = pure (some e)
  reencrypt_loaded v old_password (done plain) =
      attempt (reencrypt_overwrite u.crypt v old_password plain) >>= (λ o. pure (error_of o))

  unfoldable pub rollback_opened : Vault → Bytes → Bytes → Outcome Bytes → Io (Option Failure)
  unfolding reencrypt_loaded
  rollback_opened v old_password new_password (done p) = pure none
  rollback_opened v old_password new_password (failed e) =
      attempt (load_ciphertext u.crypt v new_password) >>= reencrypt_loaded v old_password

  -- One round of the loop of `rollbackSetPassword`.
  unfoldable pub rollback_vault : Vault → Bytes → Bytes → Io (Option Failure)
  unfolding rollback_opened
  rollback_vault v old_password new_password =
      attempt (load_ciphertext u.crypt v old_password)
      >>= rollback_opened v old_password new_password

  unfoldable pub rollback_all : Bytes → Bytes → List Vault → Io (Option Failure)
  unfolding rollback_vault
  rollback_all old_password new_password [] = pure none
  rollback_all old_password new_password (v ∷ vs) = do
    e ← rollback_vault v old_password new_password
    f ← rollback_all old_password new_password vs
    pure (first_of e f)

  -- `rollbackSetPassword`: the error that it returns, if any.
  unfoldable pub rollback_set_password : Bytes → Bytes → Io (Option Failure)
  unfolding rollback_all
  rollback_set_password old_password new_password = do
    e ← rollback_all old_password new_password u.vaults
    o ← attempt (set_verifier u old_password)
    pure (first_of e (error_of o))

  abbrev pub blame : Failure → Option Failure → Failure
  blame e none = restored e
  blame e (some r) = not_restored e r

  -- The failure of a step behind the commit, and the rollback.
  unfoldable pub or_rollback : Bytes → Bytes → Outcome (Unit {0}) → Io (Unit {0})
  unfolding rollback_set_password
  or_rollback old_password new_password (done t) = pure tt
  or_rollback old_password new_password (failed e) =
      rollback_set_password old_password new_password >>= (λ r. fail (blame e r))

  abbrev pub retain : Bytes → Io (Unit {0})
  retain password = do m ← get_memory; put_memory (record m { run_password = password })

  unfoldable pub or_retain : Bytes → Bytes → Outcome (Unit {0}) → Io (Unit {0})
  unfolding or_rollback
  or_retain old_password new_password (done t) = pure tt
  or_retain old_password new_password (failed e) =
      retain old_password >> or_rollback old_password new_password (failed e)

  -- `SetPassword` behind its checks.
  unfoldable pub change_password : Bytes → Bytes → Io (Unit {0})
  unfolding load_all reencrypt_all or_rollback or_retain
  change_password old_password new_password = do
    plains ← load_all old_password u.vaults
    set_verifier u new_password
    o ← attempt (reencrypt_all new_password plains)
    or_rollback old_password new_password o
    retain new_password
    o ← attempt (persist_secrets u)
    or_retain old_password new_password o

  -- `SetPassword`.
  unfoldable pub controller_set_password : Bool → Bytes → Bytes → Io (Unit {0})
  unfolding change_password
  controller_set_password traced old_password new_password = do
    m ← get_memory
    if traced
        then fail debugged
        else if not (bytes_beq m.mode mode_run)
        then fail not_run_mode
        else (verify_password u old_password >>= (λ right.
            if right then change_password old_password new_password else fail wrong_password))

  -- `Unlock`.
  unfoldable pub unlock : Bool → Bytes → Io (Unit {0})
  unlock traced password = do
    m ← get_memory
    if traced
        then fail debugged
        else if not (bytes_beq m.mode mode_run)
        then fail not_run_mode
        else (verify_password u password >>= (λ right. if not right then fail wrong_password else do
          plain ← first_plain u password u.vaults
          load_secrets u password
          set_guard u (some (new_memory_guard u.sha plain))
          m ← get_memory
          put_memory (record m { run_password = password; armed = true })))
