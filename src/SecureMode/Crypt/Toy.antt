-- ===== src/SecureMode/Crypt/Toy.antt =====
-- Primitives for the tests: no cryptography, but they keep what is asked of the real ones.
use asscor.Prelude.{
  ℕ, ◌+◌, refl, [], ◌∷◌, ◌++◌, Option, none, some, arith, ◌==◌, if◌then◌else◌, Bytes, drop,
}
use asscor.SecureMode.Crypt.{Primitives}
use asscor.SecureMode.Crypt.FileTrip.{Promises, Sized}

abbrev pub total : Bytes → ℕ
total [] = 0
total (c ∷ s) = c + total s

abbrev pub fifteen : Bytes
fifteen = 0 ∷ 0 ∷ 0 ∷ 0 ∷ 0 ∷ 0 ∷ 0 ∷ 0 ∷ 0 ∷ 0 ∷ 0 ∷ 0 ∷ 0 ∷ 0 ∷ 0 ∷ []

abbrev pub sixteen : Bytes
sixteen = 9 ∷ fifteen

abbrev pub opened : ℕ → Bytes → Option Bytes
opened tag [] = none
opened tag (c ∷ s) = if c == tag then some (drop 15 s) else none

abbrev pub toy : Primitives
toy = record {
  derive = λ password salt n r p key_len. total password ∷ (fifteen ++ sixteen);
  seal = λ k n t. total k ∷ (fifteen ++ t);
  open_sealed = λ k n t. opened (total k) t;
}

pub toy-Promises : Promises toy
toy-Promises = record {
  key_size = λ password salt. refl;
  seal_size = λ k n t. omega arith;
  opens = λ k n t. ground arith;
}

abbrev pub key : Bytes
key = 1 ∷ (fifteen ++ sixteen)

abbrev pub nonce : Bytes
nonce = 7 ∷ 7 ∷ 7 ∷ 7 ∷ 7 ∷ 7 ∷ 7 ∷ 7 ∷ 7 ∷ 7 ∷ 7 ∷ 7 ∷ []

pub toy-Sized : Sized toy sixteen key nonce nonce
toy-Sized = record {
  salt_size = refl;
  dek_size = refl;
  env_nonce_size = refl;
  pay_nonce_size = refl;
}
