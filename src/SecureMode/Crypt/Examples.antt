-- ===== src/SecureMode/Crypt/Examples.antt =====
-- The theorems on encrypted files and the verifier at a concrete input. The key and the seal here
-- are no cryptography, but keep the promises that the theorems ask for.
use asscor.Prelude.{◌≡◌, refl, some, arith, Bytes, codes, bytes_beq}
use asscor.SecureMode.Crypt.{Header, ok, encrypt, decrypt}
use asscor.SecureMode.Crypt.HeaderTrip.{Fits}
use asscor.SecureMode.Crypt.FileTrip.{kek_of, random_of, decrypt-encrypt}
use asscor.SecureMode.Crypt.Toy.{sixteen, toy, toy-Promises, key, nonce, toy-Sized}
use asscor.SecureMode.Verifier.{file, set_password, verify, verify-set_password}

abbrev header : Header
header = record {
  salt = sixteen;
  argon_n = 2;
  argon_r = 65536;
  argon_p = 4;
  key_len = 32;
  envelope = key;
  nonce = nonce;
}

header-Fits : Fits header
header-Fits = record {
  salt_fits = omega arith;
  n_fits = omega arith;
  r_fits = omega arith;
  p_fits = omega arith;
  key_fits = omega arith;
  envelope_fits = omega arith;
  nonce_fits = omega arith;
}

decrypt-encrypt_example :
    (f : Bytes) × (encrypt toy (random_of toy sixteen key nonce nonce) (codes "[db]") (codes "pw")
      ≡ ok f)
    × (decrypt toy f (codes "pw") ≡ ok (codes "[db]"))
decrypt-encrypt_example =
    decrypt-encrypt toy toy-Promises (codes "pw") sixteen key nonce nonce (codes "[db]") toy-Sized
      (omega arith)

verify-set_password_example :
    (f : Bytes) × (set_password toy (some sixteen) (codes "pw") ≡ file f)
    × (verify toy (some f) (codes "pv")
        ≡ bytes_beq (kek_of toy (codes "pv") sixteen) (kek_of toy (codes "pw") sixteen))
verify-set_password_example =
    verify-set_password toy toy-Promises (codes "pw") (codes "pv") sixteen (omega arith) refl
