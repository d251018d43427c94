-- ===== src/SecureMode/Vault/Opens.antt =====
-- What `Encrypt` of internal/securemode/crypt.go makes opens again, whatever the randomness was.
use asscor.Prelude.{
  ◌+◌, ◌≤◌, ◌≡◌, refl, sym, ◌∙◌, subst, Option, none, some, arith, Bytes, length, [],
}
use asscor.SecureMode.Crypt.{ok, Primitives, Random, encrypt, decrypt, derive_key, max_config_size}
use asscor.SecureMode.Crypt.FileTrip.{Promises, Sized, decrypt-encrypt}
use asscor.SecureMode.Disk.Rules.{SizedBy, IsSized}
use asscor.SecureMode.Vault.Keeps.{ok_injective}
use asscor.SecureMode.Vault.{encrypt_content, decrypt_content, split_bootstrap}
use asscor.SecureMode.Vault.Files.{Vault, payload_with, open_payload}

module _ (c : Primitives) (laws : Promises c) (password content : Bytes) where
  opens_drawn :
      (salt key env_nonce pay_nonce : Option Bytes) (p : Bytes)
      → length content + 133 ≤ max_config_size
      → SizedBy 16 salt
      → SizedBy 32 key
      → SizedBy 12 env_nonce
      → SizedBy 12 pay_nonce
      → encrypt c
          (record {
            fresh_salt = salt;
            fresh_key = key;
            fresh_env_nonce = env_nonce;
            fresh_pay_nonce = pay_nonce;
          })
          content
          password
        ≡ ok p
      → decrypt c p password ≡ ok content
  unfolding encrypt derive_key
  opens_drawn none key en pn p small a b d e h = cc
  opens_drawn (some salt) none en pn p small a b d e h = cc
  opens_drawn (some salt) (some key) none pn p small a b d e h =
      absurd (ground (arith, laws.key_size password salt))
  opens_drawn (some salt) (some key) (some en) none p small a b d e h =
      absurd (ground (arith, laws.key_size password salt))
  opens_drawn (some salt) (some key) (some en) (some pn) p small a b d e h =
      let sized : Sized c salt key en pn = record {
        salt_size = a;
        dek_size = b;
        env_nonce_size = d;
        pay_nonce_size = e;
      } in
      let (f, made, opens) = decrypt-encrypt c laws password salt key en pn content sized small in
      subst (λ q. decrypt c q password ≡ ok content) (ok_injective f p (sym made ∙ h)) opens

  pub decrypt-drawn :
      (r : Random) (p : Bytes)
      → length content + 133 ≤ max_config_size
      → IsSized r
      → encrypt c r content password ≡ ok p
      → decrypt c p password ≡ ok content
  decrypt-drawn r p small s h =
      opens_drawn r.fresh_salt r.fresh_key r.fresh_env_nonce r.fresh_pay_nonce p small s.0 s.1 s.2
        s.3 h

  -- A vault without a bootstrap section is encrypted whole.
  pub payload_opens :
      (v : Vault) (r : Random) (p : Bytes)
      → v.bootstrap_header ≡ []
      → length content + 133 ≤ max_config_size
      → IsSized r
      → payload_with c v password content r ≡ ok p
      → open_payload c v password p ≡ ok content
  unfolding encrypt_content decrypt_content split_bootstrap
  payload_opens v r p e small s h = rw e (rw (decrypt-drawn r p small s (rw e at h)) refl)

  pub open_payload_whole :
      (v : Vault) (p : Bytes)
      → v.bootstrap_header ≡ []
      → decrypt c p password ≡ ok content
      → open_payload c v password p ≡ ok content
  unfolding decrypt_content
  open_payload_whole v p e h = rw e (rw h refl)
