-- ===== src/SecureMode/Crypt/FileTrip.antt =====
-- Files encrypted and decrypted, of internal/securemode/crypt.go.
use asscor.Prelude.{
  ◌+◌, ◌*◌, ◌≤◌, ◌≡◌, sym, ap, ◌∙◌, false, ◌++◌, none, some, arith, ltb, Bytes, length, take, drop,
  length-append, take-append_left, drop-append_left,
}
use asscor.SecureMode.Crypt.{
  ok, err, Header, put_u16, put_u32, header_bytes, marshal_header, is_supported, Primitives, Random,
  derive_key, encrypt, decrypt_payload, decrypt_envelope, decrypt, max_config_size,
  wrong_or_corrupted,
}
use asscor.SecureMode.Crypt.HeaderTrip.{Fits, parse_header-header_bytes}

length-header_bytes :
    (h : Header)
    → length (header_bytes h) ≡ 29 + (length h.salt + (length h.envelope + length h.nonce))
unfolding header_bytes put_u16 put_u32
length-header_bytes h =
    let tail = put_u16 (length h.nonce) ++ h.nonce in
    omega (arith, length-append h.envelope tail, length-append h.salt _)

module _ (c : Primitives) where
  -- What Argon2id and AES-GCM promise: keys of 32 bytes where those are asked for, 16 bytes more
  -- for a sealed text, and a sealed text that opens under its key and nonce.
  pub record Promises : Type 0 where
    pub key_size : (password salt : Bytes) → length (c.derive password salt 2 (64 * 1024) 4 32) ≡ 32
    pub seal_size : (k n t : Bytes) → length (c.seal k n t) ≡ length t + 16
    pub opens : (k n t : Bytes) → c.open_sealed k n (c.seal k n t) ≡ some t

  abbrev pub kek_of : Bytes → Bytes → Bytes
  kek_of password salt = c.derive password salt 2 (64 * 1024) 4 32

  -- The sizes in which the randomness is read.
  pub record Sized (salt dek env_nonce pay_nonce : Bytes) : Type 0 where
    pub salt_size : length salt ≡ 16
    pub dek_size : length dek ≡ 32
    pub env_nonce_size : length env_nonce ≡ 12
    pub pay_nonce_size : length pay_nonce ≡ 12

  abbrev pub random_of : Bytes → Bytes → Bytes → Bytes → Random
  random_of salt dek env_nonce pay_nonce = record {
    fresh_salt = some salt;
    fresh_key = some dek;
    fresh_env_nonce = some env_nonce;
    fresh_pay_nonce = some pay_nonce;
  }

  abbrev header_of : Bytes → Bytes → Bytes → Bytes → Header
  header_of password salt dek env_nonce = record {
    salt = salt;
    argon_n = 2;
    argon_r = 64 * 1024;
    argon_p = 4;
    key_len = 32;
    envelope = c.seal (kek_of password salt) env_nonce dek;
    nonce = env_nonce;
  }

  abbrev payload_of : Bytes → Bytes → Bytes → Bytes
  payload_of dek pay_nonce plaintext = pay_nonce ++ c.seal dek pay_nonce plaintext

  abbrev file_of : Bytes → Bytes → Bytes → Bytes → Bytes → Bytes → Bytes
  file_of password salt dek env_nonce pay_nonce plaintext =
      header_bytes (header_of password salt dek env_nonce) ++ payload_of dek pay_nonce plaintext

  module _ (laws : Promises) (password salt dek env_nonce pay_nonce plaintext : Bytes)
      (sizes : Sized salt dek env_nonce pay_nonce) where
    header-Fits : Fits (header_of password salt dek env_nonce)
    header-Fits = record {
      salt_fits = omega (arith, sizes.salt_size);
      n_fits = omega arith;
      r_fits = omega arith;
      p_fits = omega arith;
      key_fits = omega arith;
      envelope_fits =
          omega (arith, sizes.dek_size, laws.seal_size (kek_of password salt) env_nonce dek);
      nonce_fits = omega (arith, sizes.env_nonce_size);
    }

    encrypts :
        encrypt c (random_of salt dek env_nonce pay_nonce) plaintext password
        ≡ ok (file_of password salt dek env_nonce pay_nonce plaintext)
    unfolding encrypt derive_key marshal_header
    encrypts =
        let f = header-Fits in
        ground (
          arith,
          laws.key_size password salt,
          sizes.dek_size,
          f.salt_fits,
          f.envelope_fits,
          f.nonce_fits,
        )

    opens_payload : decrypt_payload c dek (payload_of dek pay_nonce plaintext) ≡ ok plaintext
    unfolding decrypt_payload
    opens_payload =
        let ct = c.seal dek pay_nonce plaintext in
        ground (
          arith,
          sizes.dek_size,
          length-append pay_nonce ct,
          sizes.pay_nonce_size,
          ap (λ n. take n (pay_nonce ++ ct)) (sym sizes.pay_nonce_size)
              ∙ take-append_left pay_nonce ct,
          ap (λ n. drop n (pay_nonce ++ ct)) (sym sizes.pay_nonce_size)
              ∙ drop-append_left pay_nonce ct,
          laws.opens dek pay_nonce plaintext,
        )

    opens_envelope :
        decrypt_envelope c
          (header_of password salt dek env_nonce)
          (payload_of dek pay_nonce plaintext)
          password
        ≡ ok plaintext
    unfolding decrypt_envelope derive_key
    opens_envelope = ground (
      arith,
      laws.key_size password salt,
      sizes.env_nonce_size,
      laws.opens (kek_of password salt) env_nonce dek,
      opens_payload,
    )

    file_size :
        length plaintext + 133 ≤ max_config_size
        → ltb max_config_size (length (file_of password salt dek env_nonce pay_nonce plaintext))
          ≡ false
    file_size small =
        let h = header_of password salt dek env_nonce in
        let p = payload_of dek pay_nonce plaintext in
        ground (
          arith,
          length-append (header_bytes h) p,
          length-header_bytes h,
          length-append pay_nonce (c.seal dek pay_nonce plaintext),
          laws.seal_size dek pay_nonce plaintext,
          laws.seal_size (kek_of password salt) env_nonce dek,
          sizes.salt_size,
          sizes.dek_size,
          sizes.env_nonce_size,
          sizes.pay_nonce_size,
        )

    -- Where Argon2id and AES-GCM keep their promises, `Encrypt` succeeds with randomness of the sizes
    -- that it reads, and `Decrypt` with the same password gives the plaintext back, if this is at
    -- least 133 bytes below the limit of 10 MiB.
    pub decrypt-encrypt :
        length plaintext + 133 ≤ max_config_size
        → (file : Bytes) × (encrypt c (random_of salt dek env_nonce pay_nonce) plaintext password
            ≡ ok file)
          × (decrypt c file password ≡ ok plaintext)
    unfolding decrypt is_supported
    decrypt-encrypt small =
        let h = header_of password salt dek env_nonce in
        let p = payload_of dek pay_nonce plaintext in
        (
          file_of password salt dek env_nonce pay_nonce plaintext,
          encrypts,
          rw (file_size small, parse_header-header_bytes h p header-Fits) opens_envelope,
        )

    -- Where Argon2id and AES-GCM keep their promises, `Decrypt` of what `Encrypt` made of a plaintext
    -- at least 133 bytes below the limit, with another password whose key does not open the
    -- envelope, gives the error that a corrupted file gives, and no plaintext.
    pub decrypt_refuses :
        (other : Bytes)
        → length plaintext + 133 ≤ max_config_size
        → c.open_sealed (kek_of other salt) env_nonce (c.seal (kek_of password salt) env_nonce dek)
          ≡ none
        → (file : Bytes) × (encrypt c (random_of salt dek env_nonce pay_nonce) plaintext password
            ≡ ok file)
          × (decrypt c file other ≡ err wrong_or_corrupted)
    unfolding decrypt is_supported decrypt_envelope derive_key
    decrypt_refuses other small e =
        let h = header_of password salt dek env_nonce in
        let p = payload_of dek pay_nonce plaintext in
        (
          file_of password salt dek env_nonce pay_nonce plaintext,
          encrypts,
          rw (file_size small, parse_header-header_bytes h p header-Fits)
              (ground (arith, laws.key_size other salt, sizes.env_nonce_size, e)),
        )
