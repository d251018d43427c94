-- ===== src/SecureMode/Verifier.antt =====
-- The password verifier of internal/securemode/password.go: the bytes that `Set` writes, and
-- `Verify`. The file is its content, if it is there.
use asscor.Prelude.{
  ◌+◌, ◌*◌, ◌%◌, ◌<◌, ◌≡◌, refl, sym, ap, ◌∙◌, Bool, false, ◌&&◌, not, [], ◌∷◌, ◌++◌, Option, none,
  some, arith, ltb, ◌==◌, if◌then◌else◌, Bytes, bytes_beq, length, take, drop, length-append,
  take-append_left, drop-append_left,
}
use asscor.SecureMode.Crypt.{
  Result, ok, err, ◌>>=◌, put_u32, read_u32, is_supported, Primitives, derive_key,
}
use asscor.SecureMode.Crypt.HeaderTrip.{read_u32-put_u32}
use asscor.SecureMode.Crypt.FileTrip.{Promises, kek_of}

pub data Written : Type 0 where
  empty_password random_failed : Written
  file : Bytes → Written

abbrev pub is_true : Result Bool → Bool
is_true (ok b) = b
is_true (err e) = false

take_all : (s : Bytes) → take (length s) s ≡ s
take_all [] = refl
take_all (c ∷ s) = ap (λ (r : Bytes). c ∷ r) (take_all s)

module _ (c : Primitives) where
  verifier_bytes : Bytes → Bytes → Bytes
  verifier_bytes salt hash =
      1
      ∷ (length salt % 256)
      ∷ (salt ++ (put_u32 2 ++ (put_u32 (64 * 1024) ++ (put_u32 4 ++ (put_u32 32 ++ hash)))))

  set_with : Option Bytes → Bytes → Written
  unfolding verifier_bytes derive_key
  set_with none password = random_failed
  set_with (some salt) password =
      file (verifier_bytes salt (derive_key c password salt 2 (64 * 1024) 4 32))

  -- `Set` up to the writing, with the salt that `randomBytes` gives, if it does.
  unfoldable pub set_password : Option Bytes → Bytes → Written
  unfolding set_with
  set_password salt password =
      if length password == 0 then empty_password else set_with salt password

  -- `Verify` behind the salt; behind the check of the length the four numbers can be read.
  check_hash : Bytes → Bytes → Bytes → Result Bool
  unfolding derive_key is_supported
  check_hash password salt s = do
    (n, s) ← read_u32 s
    (r, s) ← read_u32 s
    (p, s) ← read_u32 s
    (key_len, s) ← read_u32 s
    let expected = take key_len s
    let got = derive_key c password salt n r p key_len
    let equal = length got == length expected && bytes_beq got expected
    ok (is_supported n r p key_len && equal)

  verify_content : Bytes → Bytes → Bool
  unfolding check_hash
  verify_content password [] = false
  verify_content password (v ∷ []) = false
  verify_content password (v ∷ salt_len ∷ s) =
      let too_short = ltb (2 + length s) 66 in
      let salt_missing = ltb (2 + length s) (1 + 1 + salt_len + 16 + 32) in
      not too_short
      && (v == 1
          && (not salt_missing
              && is_true (check_hash password (take salt_len s) (drop salt_len s))))

  -- `Verify`.
  unfoldable pub verify : Option Bytes → Bytes → Bool
  unfolding verify_content
  verify none password = false
  verify (some data') password = verify_content password data'

  check_hash-verifier :
      (laws : Promises c) (password other salt : Bytes)
      → check_hash other salt (
          put_u32 2
          ++ (put_u32 (64 * 1024) ++ (put_u32 4 ++ (put_u32 32 ++ kek_of c password salt))))
        ≡ ok (bytes_beq (kek_of c other salt) (kek_of c password salt))
  unfolding check_hash derive_key is_supported
  check_hash-verifier laws password other salt =
      rw
        (
          read_u32-put_u32 2 _ (omega arith),
          read_u32-put_u32 (64 * 1024) _ (omega arith),
          read_u32-put_u32 4 _ (omega arith),
          read_u32-put_u32 32 _ (omega arith),
        )
        (ground (
          arith,
          laws.key_size other salt,
          laws.key_size password salt,
          ap (λ n. take n (kek_of c password salt)) (sym (laws.key_size password salt))
              ∙ take_all (kek_of c password salt),
        ))

  abbrev hash_part : Bytes → Bytes → Bytes
  hash_part password salt =
      put_u32 2 ++ (put_u32 (64 * 1024) ++ (put_u32 4 ++ (put_u32 32 ++ kek_of c password salt)))

  length-hash_part :
      (laws : Promises c) (password salt : Bytes) → length (hash_part password salt) ≡ 48
  unfolding put_u32
  length-hash_part laws password salt = omega (arith, laws.key_size password salt)

  verify_content-verifier :
      (laws : Promises c) (password other salt : Bytes)
      → length salt ≡ 16
      → verify_content other (verifier_bytes salt (kek_of c password salt))
        ≡ bytes_beq (kek_of c other salt) (kek_of c password salt)
  unfolding verify_content verifier_bytes
  verify_content-verifier laws password other salt k =
      let tail = hash_part password salt in
      let len : length salt % 256 ≡ length salt = omega (arith, k) in
      rw (len, take-append_left salt tail, drop-append_left salt tail)
        (ground (
          arith,
          k,
          length-append salt tail,
          length-hash_part laws password salt,
          check_hash-verifier laws password other salt,
        ))

  -- Where Argon2id keeps its promise, what `Set` writes for a password that is not empty `Verify`
  -- accepts for exactly the passwords that derive the same key with the same salt, so for
  -- that password too.
  pub verify-set_password :
      (laws : Promises c) (password other salt : Bytes)
      → 0 < length password
      → length salt ≡ 16
      → (data' : Bytes) × (set_password (some salt) password ≡ file data')
        × (verify (some data') other ≡ bytes_beq (kek_of c other salt) (kek_of c password salt))
  unfolding set_password verify derive_key
  verify-set_password laws password other salt h k = (
    verifier_bytes salt (kek_of c password salt),
    ground arith,
    verify_content-verifier laws password other salt k,
  )
