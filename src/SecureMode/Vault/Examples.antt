-- ===== src/SecureMode/Vault/Examples.antt =====
-- The theorems on the conversions of a protected file at a concrete disk, where some calls fail.
use asscor.Prelude.{◌⊎◌, ◌≡◌, refl, List, [], ◌∷◌, arith, Bytes, codes, lookup, bytes_eq}
use asscor.SecureMode.Crypt.{ok, Random}
use asscor.SecureMode.Crypt.FileTrip.{random_of, decrypt-encrypt}
use asscor.SecureMode.Crypt.Toy.{sixteen, toy, toy-Promises, key, nonce, toy-Sized}
use asscor.SecureMode.Memory.{new_controller}
use asscor.Prelude.{false}
use asscor.SecureMode.Disk.{Files, Fault, works, refused, torn, World, done}
use asscor.SecureMode.Disk.Rules.{Safe}
use asscor.SecureMode.Disk.Calls.{Held}
use asscor.Prelude.{none}
use asscor.SecureMode.Disk.{tmp_of}
use asscor.SecureMode.Vault.Files.{enc_path}
use asscor.SecureMode.Vault.Files.{
  Vault, enc_path, open_payload, rotate_password, encrypt_file, decrypt_file,
}
use asscor.SecureMode.Vault.Keeps.{Stored, Plain, Kept, Gone}
use asscor.SecureMode.Vault.Opens.{open_payload_whole, payload_opens}
use asscor.SecureMode.Vault.{encrypt_content, split_bootstrap}
use asscor.SecureMode.Vault.Rotate.{rotate_password_keeps}
use asscor.SecureMode.Vault.Success.{fair, encrypt_file_succeeds}
use asscor.SecureMode.Vault.Conversions.{encrypt_file_keeps, decrypt_file_keeps}

abbrev pub vault : Vault
vault = record { config_path = codes "k.ini"; bootstrap_header = [] }

abbrev pub text : Bytes
text = codes "[db]"

abbrev pub drawn_random : Random
drawn_random = random_of toy sixteen key nonce nonce

abbrev pub world : Files → List Fault → World
world fs faults = record {
  files = fs;
  faults = faults;
  random = drawn_random ∷ drawn_random ∷ drawn_random ∷ [];
  seen = [];
  memory = new_controller false;
}

abbrev plain_files : Files
plain_files = (codes "k.ini", text) ∷ []

-- The payload is written in part, and then the disk refuses.
encrypt_file_keeps_example :
    Safe
      (Kept toy vault (codes "pw") text)
      (λ _ fs. Stored toy vault (codes "pw") text fs × Gone toy vault (codes "k.ini") fs)
      (encrypt_file toy vault
        (codes "pw")
        (world plain_files (works ∷ works ∷ works ∷ torn 3 ∷ refused ∷ [])))
unfolding lookup
encrypt_file_keeps_example =
    encrypt_file_keeps toy vault (codes "pw") text
      (world plain_files (works ∷ works ∷ works ∷ torn 3 ∷ refused ∷ []))
      (tt, ((refl, refl, refl, refl), ((refl, refl, refl, refl), ((refl, refl, refl, refl), tt))))
      refl

abbrev pub sealed_text : Bytes → Bytes
sealed_text password =
    (decrypt-encrypt toy toy-Promises password sixteen key nonce nonce text toy-Sized
      (omega arith)).0

abbrev pub sealed_files : Bytes → Files
sealed_files password = (codes "k.ini.enc", sealed_text password) ∷ []

pub sealed_text-opens :
    (password : Bytes) → open_payload toy vault password (sealed_text password) ≡ ok text
sealed_text-opens password =
    open_payload_whole toy toy-Promises password text vault (sealed_text password) refl
      (decrypt-encrypt toy toy-Promises password sixteen key nonce nonce text toy-Sized
        (omega arith)).2

pub sealed_files-Stored :
    (password : Bytes) → Stored toy vault password text (sealed_files password)
unfolding lookup
sealed_files-Stored password = (sealed_text password, refl, sealed_text-opens password)

decrypt_file_keeps_example :
    Safe
      (Kept toy vault (codes "pw") text)
      (λ _ fs. Plain toy vault text fs × Gone toy vault (enc_path vault) fs)
      (decrypt_file toy vault (codes "pw") (
        world (sealed_files (codes "pw")) (works ∷ works ∷ works ∷ works ∷ refused ∷ refused ∷ [])))
decrypt_file_keeps_example =
    decrypt_file_keeps toy vault (codes "pw") text
      (world (sealed_files (codes "pw")) (works ∷ works ∷ works ∷ works ∷ refused ∷ refused ∷ []))
      (tt, ((refl, refl, refl, refl), ((refl, refl, refl, refl), ((refl, refl, refl, refl), tt))))
      (sealed_files-Stored (codes "pw"))

encrypt_file_succeeds_example :
    let after =
      encrypt_file toy vault
        (codes "pw")
        (fair plain_files (drawn_random ∷ []) [] (new_controller false)) in
    (after.0 ≡ done tt)
    × (Held (enc_path vault) (sealed_text (codes "pw")) after.1.files
        × ((lookup vault.config_path after.1.files ≡ none)
            × (lookup (tmp_of (enc_path vault)) after.1.files ≡ none)))
unfolding lookup encrypt_content split_bootstrap
encrypt_file_succeeds_example =
    let sealed =
      decrypt-encrypt toy toy-Promises (codes "pw") sixteen key nonce nonce text toy-Sized
        (omega arith) in
    encrypt_file_succeeds toy vault (codes "pw") text drawn_random (sealed_text (codes "pw")) [] []
      (new_controller false) plain_files refl sealed.1
      (open_payload_whole toy toy-Promises (codes "pw") text vault (sealed_text (codes "pw")) refl
        sealed.2)

rotate_password_keeps_example :
    Safe
      (λ fs. Stored toy vault (codes "pw") text fs ⊎ Stored toy vault (codes "new") text fs)
      (λ _. Stored toy vault (codes "new") text)
      (rotate_password toy vault
        (codes "pw")
        (codes "new")
        (world (sealed_files (codes "pw")) (works ∷ works ∷ works ∷ refused ∷ refused ∷ [])))
rotate_password_keeps_example =
    rotate_password_keeps toy vault (codes "pw") (codes "new") text
      (λ r p s h.
        payload_opens toy toy-Promises (codes "new") text vault r p refl (omega arith) s h)
      (world (sealed_files (codes "pw")) (works ∷ works ∷ works ∷ refused ∷ refused ∷ []))
      (tt, ((refl, refl, refl, refl), ((refl, refl, refl, refl), ((refl, refl, refl, refl), tt))))
      (sealed_files-Stored (codes "pw"))
