-- ===== src/SecureMode/Controller.antt =====
-- internal/securemode/controller.go and internal/securemode/persist.go: the transitions between the
-- two modes, the change of the password, the unlocking and the persisted registry, with the writing
-- of password.go and state.go. Each call of the system may fail. `traced` is what `debuggerDetected`
-- finds. The controller's lock is held throughout, so that no two operations mix.
pub mod Examples
pub mod Change
pub mod Rotation
use asscor.Prelude.{
  ℕ, Bool, true, false, not, ◌&&◌, List, [], ◌∷◌, ◌++◌, Option, none, some, if◌then◌else◌, Bytes,
  codes, bytes_beq, length, ◌==◌,
}
use asscor.SecureMode.Crypt.{Primitives, Random, CryptError, encrypt, decrypt}
use asscor.SecureMode.Registry.{Registry, Json, marshal, unmarshal, RegistryError}
use asscor.SecureMode.Registry
use asscor.SecureMode.Marker.{mode_default, mode_run, is_mode, marker_payload}
use asscor.SecureMode.Verifier.{Written, random_failed, file, set_password, verify}
use asscor.SecureMode.Verifier
use asscor.SecureMode.Memory.{MemoryGuard, Memory, new_memory_guard, integrity_ok}
use asscor.SecureMode.Vault.Files.{
  Vault, encrypt_file, decrypt_file, load_ciphertext, reencrypt_overwrite,
}
use asscor.SecureMode.Disk.{
  Failure, missing, io_failed, no_verifier_salt, empty_password, debugged, wrong_password, tampered,
  not_run_mode, no_vault, registry_invalid, bad_mode, no_password, restored, not_restored, Outcome,
  done, failed, World, Io, ◌>>=◌, ◌>>◌, pure, fail, of_result, read_file, remove_file, sync_dir,
  replace_file, draw, get_memory, put_memory, attempt,
}

-- What a `Controller` is built from, and the packages it calls.
pub record Setup : Type 0 where
  pub crypt : Primitives
  pub sha : Bytes → Bytes
  pub json : Json
  pub data_dir : Bytes
  pub vaults : List Vault

abbrev joined : Bytes → Bytes → Bytes
joined dir name = dir ++ (codes "/" ++ name)

module _ (u : Setup) where
  -- `PasswordVerifierPath`, `MarkerPath` and `SecretsFilePath`.
  abbrev pub verifier_path : Bytes
  verifier_path = joined u.data_dir (codes ".asscor-pw")

  abbrev pub marker_path : Bytes
  marker_path = joined u.data_dir (codes ".asscor-mode")

  abbrev pub secrets_path : Bytes
  secrets_path = joined u.data_dir (codes ".asscor-secrets.enc")

  -- A file replaced behind `os.MkdirAll`, a call that may fail as `syncDir` may.
  abbrev pub put_file : Bytes → Bytes → Io (Unit {0})
  put_file p b = sync_dir >> replace_file p b

  unfoldable pub write_verifier : Written → Io (Unit {0})
  write_verifier Verifier.empty_password = fail empty_password
  write_verifier random_failed = fail no_verifier_salt
  write_verifier (file b) = put_file verifier_path b

  -- `PasswordVerifier.Set`.
  unfoldable pub set_verifier : Bytes → Io (Unit {0})
  unfolding write_verifier
  set_verifier password =
      draw >>= (λ r. write_verifier (set_password u.crypt r.fresh_salt password))

  abbrev pub file_of : Outcome Bytes → Option Bytes
  file_of (done b) = some b
  file_of (failed e) = none

  -- `PasswordVerifier.Verify`: a file that cannot be read refuses every password.
  unfoldable pub verify_password : Bytes → Io Bool
  verify_password password =
      attempt (read_file verifier_path) >>= (λ o. pure (verify u.crypt (file_of o) password))

  abbrev if_missing : Outcome (Unit {0}) → Io (Unit {0})
  if_missing (done t) = pure tt
  if_missing (failed missing) = pure tt
  if_missing (failed e) = fail e

  -- `os.Remove`, where a missing file is no error: `PasswordVerifier.Clear`, and in `ExitRun`.
  unfoldable pub remove_if_there : Bytes → Io (Unit {0})
  remove_if_there p = attempt (remove_file p) >>= if_missing

  -- `WriteMarker`.
  unfoldable pub write_marker : Bytes → Io (Unit {0})
  write_marker mode =
      if is_mode mode then put_file marker_path (marker_payload u.sha mode) else fail bad_mode

  -- `persistSecretsLocked`.
  unfoldable pub persist_secrets : Io (Unit {0})
  persist_secrets = do
    m ← get_memory
    r ← draw
    payload ← of_result (encrypt u.crypt r (marshal u.json m.secrets) m.run_password)
    replace_file secrets_path payload

  -- `PersistSecrets`.
  unfoldable pub persist_in_run : Io (Unit {0})
  unfolding persist_secrets
  persist_in_run = do
    m ← get_memory
    if bytes_beq m.mode mode_run
        then (if length m.run_password == 0 then fail no_password else persist_secrets)
        else pure tt

  abbrev keep_registry : Registry.Result Registry → Io (Unit {0})
  keep_registry (Registry.ok r) = do m ← get_memory; put_memory (record m { secrets = r })
  keep_registry (Registry.err e) = fail registry_invalid

  load_found : Bytes → Outcome Bytes → Io (Unit {0})
  load_found password (failed missing) = pure tt
  load_found password (failed e) = fail e
  load_found password (done b) = do
    plain ← of_result (decrypt u.crypt b password)
    keep_registry (unmarshal u.json plain)

  -- `loadSecretsLocked`.
  unfoldable pub load_secrets : Bytes → Io (Unit {0})
  unfolding load_found
  load_secrets password = attempt (read_file secrets_path) >>= load_found password

  -- `releaseGuard`, with the guard that takes the place.
  abbrev pub set_guard : Option MemoryGuard → Io (Unit {0})
  set_guard g = do m ← get_memory; put_memory (record m { guard = g })

  abbrev pub first_plain : Bytes → List Vault → Io Bytes
  first_plain password [] = fail no_vault
  first_plain password (v ∷ vs) = load_ciphertext u.crypt v password

  encrypt_all : Bytes → List Vault → Io (Unit {0})
  encrypt_all password [] = pure tt
  encrypt_all password (v ∷ vs) = encrypt_file u.crypt v password >> encrypt_all password vs

  decrypt_all : Bytes → List Vault → Io (Unit {0})
  decrypt_all password [] = pure tt
  decrypt_all password (v ∷ vs) = decrypt_file u.crypt v password >> decrypt_all password vs

  -- `EnterRun` behind its two checks.
  unfoldable pub enter : Bytes → Io (Unit {0})
  unfolding encrypt_all set_verifier write_marker persist_secrets
  enter password = do
    encrypt_all password u.vaults
    set_verifier password
    plain ← first_plain password u.vaults
    set_guard (some (new_memory_guard u.sha plain))
    write_marker mode_run
    m ← get_memory
    put_memory (record m { mode = mode_run; run_password = password; armed = true })
    persist_secrets

  -- `EnterRun`.
  unfoldable pub enter_run : Bool → Bytes → Io (Unit {0})
  unfolding enter
  enter_run traced password = do
    m ← get_memory
    if traced then fail debugged else if bytes_beq m.mode mode_run then pure tt else enter password

  abbrev guard_intact : Option MemoryGuard → Bool
  guard_intact none = true
  guard_intact (some g) = integrity_ok u.sha g

  -- `ExitRun` behind its checks.
  unfoldable pub leave : Bytes → Io (Unit {0})
  unfolding remove_if_there decrypt_all write_marker
  leave password = do
    m ← get_memory
    put_memory (record m { run_password = [] })
    remove_if_there secrets_path
    decrypt_all password u.vaults
    remove_if_there verifier_path
    write_marker mode_default
    m ← get_memory
    put_memory (record m { mode = mode_default; guard = none; armed = false })

  -- `ExitRun`.
  unfoldable pub exit_run : Bool → Bytes → Io (Unit {0})
  unfolding leave verify_password
  exit_run traced password = do
    m ← get_memory
    if traced
        then fail debugged
        else if bytes_beq m.mode mode_default
        then pure tt
        else (verify_password password >>= (λ right.
            if not right
            then fail wrong_password
            else if not (guard_intact m.guard)
            then fail tampered
            else leave password))
