-- ===== src/SecureMode/Crypt.antt =====
-- internal/securemode/crypt.go: the encrypted file. Argon2id and AES-GCM are parameters; a reading
-- position in the source is here the list of the bytes from there on.
pub mod Examples
pub mod HeaderTrip
pub mod FileTrip
pub mod Toy
use asscor.Prelude.{
  ℕ, ◌+◌, ◌*◌, ◌/◌, ◌%◌, Bool, true, false, ◌&&◌, ◌||◌, List, [], ◌∷◌, ◌++◌, Option, none, some,
  ltb, ◌==◌, if◌then◌else◌, Bytes, codes, bytes_beq, length, take, drop,
}

pub data CryptError : Type 0 where
  too_large data_too_short bad_magic bad_version truncated_salt truncated_header : CryptError
  truncated_envelope truncated_nonce unsupported_params bad_nonce_length : CryptError
  wrong_or_corrupted ciphertext_too_short bad_key_size no_randomness field_too_large : CryptError

pub data Result {ℓ} (A : Type ℓ) : Type ℓ where
  ok : A → Result A
  err : CryptError → Result A

infixl 5 ◌>>=◌
abbrev pub ◌>>=◌ {ℓ κ} : {A : Type ℓ} {B : Type κ} → Result A → (A → Result B) → Result B
ok a >>= f = f a
err e >>= f = err e

pub record Header : Type 0 where
  pub salt : Bytes
  pub argon_n : ℕ
  pub argon_r : ℕ
  pub argon_p : ℕ
  pub key_len : ℕ
  pub envelope : Bytes
  pub nonce : Bytes

abbrev pub magic : Bytes
magic = codes "ASCM"

abbrev pub version : ℕ
version = 1

abbrev pub max_config_size : ℕ
max_config_size = 10 * 1048576

-- `binary.BigEndian`.
unfoldable pub put_u16 : ℕ → Bytes
put_u16 n = (n / 256 % 256) ∷ (n % 256) ∷ []

unfoldable pub put_u32 : ℕ → Bytes
put_u32 n = (n / 16777216 % 256) ∷ (n / 65536 % 256) ∷ (n / 256 % 256) ∷ (n % 256) ∷ []

unfoldable pub read_u16 : Bytes → Result (ℕ × Bytes)
read_u16 (a ∷ b ∷ s) = ok (a * 256 + b, s)
read_u16 _ = err truncated_header

unfoldable pub read_u32 : Bytes → Result (ℕ × Bytes)
read_u32 (a ∷ b ∷ c ∷ d ∷ s) = ok (a * 16777216 + b * 65536 + c * 256 + d, s)
read_u32 _ = err truncated_header

-- A field of a length that was read.
unfoldable pub read_field : ℕ → CryptError → Bytes → Result (Bytes × Bytes)
read_field n e s = if ltb (length s) n then err e else ok (take n s, drop n s)

-- `marshalHeader`, of a header with the magic and the version that `Encrypt` sets.
unfoldable pub header_bytes : Header → Bytes
unfolding put_u16 put_u32
header_bytes h =
    magic
    ++ (version
        ∷ (put_u16 (length h.salt)
            ++ (h.salt
                ++ (put_u32 h.argon_n
                    ++ (put_u32 h.argon_r
                        ++ (put_u32 h.argon_p
                            ++ (put_u32 h.key_len
                                ++ (put_u32 (length h.envelope)
                                    ++ (h.envelope ++ (put_u16 (length h.nonce) ++ h.nonce))))))))))

unfoldable pub marshal_header : Header → Result Bytes
unfolding header_bytes
marshal_header h =
    if ltb 65535 (length h.salt)
      || (ltb 4294967295 (length h.envelope) || ltb 65535 (length h.nonce))
    then err field_too_large
    else ok (header_bytes h)

-- `parseHeader` behind the version: the four checks of the parameters' 16 bytes are one check in the
-- source, with the same error.
unfoldable pub read_fields : Bytes → Result (Header × Bytes)
read_fields s = do
  (salt_len, s) ← read_u16 s
  (salt, s) ← read_field salt_len truncated_salt s
  (n, s) ← read_u32 s
  (r, s) ← read_u32 s
  (p, s) ← read_u32 s
  (key_len, s) ← read_u32 s
  (env_len, s) ← read_u32 s
  (envelope, s) ← read_field env_len truncated_envelope s
  (nonce_len, s) ← read_u16 s
  (nonce, s) ← read_field nonce_len truncated_nonce s
  let h : Header = record {
    salt = salt;
    argon_n = n;
    argon_r = r;
    argon_p = p;
    key_len = key_len;
    envelope = envelope;
    nonce = nonce;
  }
  ok (h, s)

read_version : Bytes → Result (Header × Bytes)
unfolding read_fields
read_version [] = err data_too_short
read_version (v ∷ s) = if v == version then read_fields s else err bad_version

-- `parseHeader`.
unfoldable pub parse_header : Bytes → Result (Header × Bytes)
unfolding read_version
parse_header data' =
    if ltb (length data') 7
    then err data_too_short
    else if bytes_beq (take 4 data') magic
    then read_version (drop 4 data')
    else err bad_magic

-- `isSupportedKDFParams`, of the time, the memory, the threads and the length of the key.
unfoldable pub is_supported : ℕ → ℕ → ℕ → ℕ → Bool
is_supported n r p key_len =
    (n == 1 && (r == 64 * 1024 && (p == 4 && key_len == 32)))
    || (n == 2 && (r == 64 * 1024 && (p == 4 && key_len == 32)))

-- What `aes.NewCipher` accepts.
abbrev pub is_key : Bytes → Bool
is_key k = length k == 16 || (length k == 24 || length k == 32)

abbrev pub nonce_size : ℕ
nonce_size = 12

-- Argon2id, of a password, a salt and the four parameters; and AES-GCM, of a key, a nonce and a
-- text.
pub record Primitives : Type 0 where
  pub derive : Bytes → Bytes → ℕ → ℕ → ℕ → ℕ → Bytes
  pub seal : Bytes → Bytes → Bytes → Bytes
  pub open_sealed : Bytes → Bytes → Bytes → Option Bytes

-- What `Encrypt` reads from the system's randomness, which may fail.
pub record Random : Type 0 where
  pub fresh_salt : Option Bytes
  pub fresh_key : Option Bytes
  pub fresh_env_nonce : Option Bytes
  pub fresh_pay_nonce : Option Bytes

abbrev pub or_fail {ℓ} : {A : Type ℓ} → Option A → CryptError → Result A
or_fail none e = err e
or_fail (some a) e = ok a

abbrev pub check_key : Bytes → Result Bytes
check_key k = if is_key k then ok k else err bad_key_size

module _ (c : Primitives) where
  -- `deriveKey`: the threads are narrowed to 8 bits.
  unfoldable pub derive_key : Bytes → Bytes → ℕ → ℕ → ℕ → ℕ → Bytes
  derive_key password salt n r p key_len = c.derive password salt n r (p % 256) key_len

  -- `Encrypt`, with `DefaultKDFParams`.
  unfoldable pub encrypt : Random → Bytes → Bytes → Result Bytes
  unfolding derive_key marshal_header
  encrypt rnd plaintext password = do
    salt ← or_fail rnd.fresh_salt no_randomness
    dek ← or_fail rnd.fresh_key no_randomness
    kek ← check_key (derive_key password salt 2 (64 * 1024) 4 32)
    env_nonce ← or_fail rnd.fresh_env_nonce no_randomness
    dek ← check_key dek
    pay_nonce ← or_fail rnd.fresh_pay_nonce no_randomness
    let h : Header = record {
      salt = salt;
      argon_n = 2;
      argon_r = 64 * 1024;
      argon_p = 4;
      key_len = 32;
      envelope = c.seal kek env_nonce dek;
      nonce = env_nonce;
    }
    head ← marshal_header h
    ok (head ++ (pay_nonce ++ c.seal dek pay_nonce plaintext))

  -- `Decrypt` of the payload, with the key that was in the envelope.
  decrypt_payload : Bytes → Bytes → Result Bytes
  decrypt_payload dek payload = do
    dek ← check_key dek
    let opened = c.open_sealed dek (take nonce_size payload) (drop nonce_size payload)
    let short = ltb (length payload) nonce_size
    if short then err ciphertext_too_short else or_fail opened wrong_or_corrupted

  -- `Decrypt` behind the check of the parameters.
  unfoldable pub decrypt_envelope : Header → Bytes → Bytes → Result Bytes
  unfolding derive_key decrypt_payload
  decrypt_envelope h payload password = do
    kek ← check_key (derive_key password h.salt h.argon_n h.argon_r h.argon_p h.key_len)
    dek ←
        (if length h.nonce == nonce_size
          then or_fail (c.open_sealed kek h.nonce h.envelope) wrong_or_corrupted
          else err bad_nonce_length)
    decrypt_payload dek payload

  -- `Decrypt`.
  unfoldable pub decrypt : Bytes → Bytes → Result Bytes
  unfolding decrypt_envelope parse_header is_supported
  decrypt data' password = if ltb max_config_size (length data') then err too_large else do
    (h, payload) ← parse_header data'
    let supported = is_supported h.argon_n h.argon_r h.argon_p h.key_len
    if supported then decrypt_envelope h payload password else err unsupported_params
