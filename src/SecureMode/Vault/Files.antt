-- ===== src/SecureMode/Vault/Files.antt =====
-- The conversions of a protected file in internal/securemode/vault.go, call by call. The result of
-- `filepath.Dir` only names the directory that `syncDir` opens.
use asscor.Prelude.{
  [], ◌++◌, Option, none, some, if◌then◌else◌, Bytes, codes, bytes_beq, length, ◌==◌,
}
use asscor.SecureMode.Crypt.{Result, Primitives, Random, encrypt, decrypt}
use asscor.SecureMode.Vault.{find, blank, encrypt_content, decrypt_content}
use asscor.SecureMode.Disk.{
  mismatch, Io, ◌>>=◌, ◌>>◌, pure, fail, or_undo, of_result, read_file, write_file, rename_file,
  remove_file, sync_file, sync_dir, write_private, tmp_of, replace_file, draw,
}

pub record Vault : Type 0 where
  pub config_path : Bytes
  pub bootstrap_header : Bytes

-- `encPath`.
abbrev pub enc_path : Vault → Bytes
enc_path v = v.config_path ++ codes ".enc"

-- `ReadBootstrap` behind the reading.
bootstrap_after : Bytes → Option (Bytes × Bytes) → Bytes
bootstrap_after after none = after
bootstrap_after after (some (b, tail)) = b

bootstrap_at : Option (Bytes × Bytes) → Bytes
unfolding bootstrap_after
bootstrap_at none = []
bootstrap_at (some (pre, after)) = bootstrap_after after (find blank after)

-- `bytes.Equal` with the full text.
abbrev pub check_same : Bytes → Bytes → Io (Unit {0})
check_same ver content = if bytes_beq ver content then pure tt else fail mismatch

-- `ReadBootstrap`.
unfoldable pub read_bootstrap : Vault → Io Bytes
unfolding bootstrap_at find
read_bootstrap v =
    if length v.bootstrap_header == 0
    then pure []
    else read_file (enc_path v) >>= (λ enc. pure (bootstrap_at (find v.bootstrap_header enc)))

module _ (c : Primitives) where
  -- `EncryptContent` under one draw of randomness.
  abbrev pub payload_with : Vault → Bytes → Bytes → Random → Result Bytes
  payload_with v password content r =
      encrypt_content (λ t. encrypt c r t password) v.bootstrap_header content

  unfoldable pub make_payload : Vault → Bytes → Bytes → Io Bytes
  make_payload v password content = draw >>= (λ r. of_result (payload_with v password content r))

  -- `decryptPayload`.
  abbrev pub open_payload : Vault → Bytes → Bytes → Result Bytes
  open_payload v password payload =
      decrypt_content (λ t. decrypt c t password) v.bootstrap_header payload

  -- `EncryptFile`.
  unfoldable pub encrypt_file : Vault → Bytes → Io (Unit {0})
  unfolding make_payload
  encrypt_file v password = do
    sync_file v.config_path
    content ← read_file v.config_path
    payload ← make_payload v password content
    let tmp = tmp_of (enc_path v)
    write_private tmp payload
    or_undo (sync_file tmp) (remove_file tmp)
    ver ← or_undo (of_result (open_payload v password payload)) (remove_file tmp)
    or_undo (check_same ver content) (remove_file tmp)
    or_undo (rename_file tmp (enc_path v)) (remove_file tmp)
    sync_dir
    remove_file v.config_path
    sync_dir

  -- `DecryptFile`.
  unfoldable pub decrypt_file : Vault → Bytes → Io (Unit {0})
  decrypt_file v password = do
    enc ← read_file (enc_path v)
    content ← of_result (open_payload v password enc)
    let tmp = tmp_of v.config_path
    write_file tmp content
    or_undo (sync_file tmp) (remove_file tmp)
    or_undo (rename_file tmp v.config_path) (remove_file tmp)
    sync_dir
    remove_file (enc_path v)
    sync_dir

  -- `LoadCiphertext`.
  unfoldable pub load_ciphertext : Vault → Bytes → Io Bytes
  load_ciphertext v password =
      read_file (enc_path v) >>= (λ enc. of_result (open_payload v password enc))

  -- `RotatePassword`.
  unfoldable pub rotate_password : Vault → Bytes → Bytes → Io (Unit {0})
  unfolding make_payload
  rotate_password v old_password new_password = do
    enc ← read_file (enc_path v)
    plain ← of_result (open_payload v old_password enc)
    payload ← make_payload v new_password plain
    replace_file (enc_path v) payload

  -- `ReencryptOverwrite`.
  unfoldable pub reencrypt_overwrite : Vault → Bytes → Bytes → Io (Unit {0})
  unfolding make_payload
  reencrypt_overwrite v password content =
      make_payload v password content >>= (λ payload. replace_file (enc_path v) payload)
