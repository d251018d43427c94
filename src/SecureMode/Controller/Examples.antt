-- ===== src/SecureMode/Controller/Examples.antt =====
-- The change of the password at a concrete disk, where a vault cannot be replaced and the rollback
-- runs.
use asscor.Prelude.{
  ◌≡◌, ◌≢◌, refl, sym, ◌∙◌, false, [], ◌∷◌, arith, Bytes, codes, lookup, bytes_eq, length, ap,
  subst,
}
use mathlib.Core.List.{Memᴰ}
use mathlib.Core.List.Memᴰ
use asscor.SecureMode.Crypt.{decrypt, decrypt_envelope, derive_key}
use asscor.SecureMode.Crypt.Toy.{toy, toy-Promises, sixteen}
use asscor.SecureMode.Registry.{malformed}
use asscor.SecureMode.Marker.{mode_run}
use asscor.SecureMode.Memory.{Memory, new_controller}
use asscor.SecureMode.Vault.Keeps.{Stored}
use asscor.SecureMode.Verifier.{verify-set_password}
use asscor.SecureMode.Disk.{works, refused, World, Files, tmp_of}
use asscor.SecureMode.Disk.Rules.{Safe}
use asscor.SecureMode.Vault.Files.{Vault, enc_path, open_payload}
use asscor.SecureMode.Vault.Keeps.{ok_injective}
use asscor.SecureMode.Vault.Opens.{payload_opens}
use asscor.SecureMode.Vault.Examples.{
  vault, text, world, sealed_files, sealed_text, sealed_text-opens,
}
use asscor.SecureMode.Controller.{Setup, verifier_path, secrets_path}
use asscor.SecureMode.Controller.Change.{controller_set_password}
use asscor.SecureMode.Controller.Rotation.{Apart, Seals}
use asscor.SecureMode.Controller.Rotation.Loops.{All_}
use asscor.SecureMode.Controller.Rotation.Others.{Elsewhere, Agrees}
use asscor.SecureMode.Controller.Rotation.Whole.{Switched, set_password_keeps}

abbrev setup : Setup
setup = record {
  crypt = toy;
  sha = λ b. b;
  json = record { encode = λ r. []; decode = λ b. malformed };
  data_dir = codes "d";
  vaults = vault ∷ [];
}

abbrev in_run : Memory
in_run = record (new_controller false) { mode = mode_run }

abbrev old_password : Bytes
old_password = codes "ab"

abbrev new_password : Bytes
new_password = codes "ba"

abbrev contents : Vault → Bytes
contents v = text

only : (v : Vault) → Memᴰ v (vault ∷ []) → v ≡ vault
only v m = Memᴰ.eq_of_singleton m

long_ne : (s t : Bytes) → length s ≢ length t → s ≢ t
long_ne s t h e = h (ap (λ (x : Bytes). length x) e)

of_vault : (P : Vault → Type 0) → P vault → (v : Vault) → Memᴰ v (vault ∷ []) → P v
of_vault P h v m = subst P (sym (only v m)) h

setup-Apart : Apart setup old_password new_password contents
setup-Apart = record {
  tmp_apart = λ v x m n.
      of_vault (λ y. tmp_of (enc_path y) ≢ enc_path x)
        (of_vault (λ y. tmp_of (enc_path vault) ≢ enc_path y) (long_ne _ _ (omega arith)) x n) v m;
  same_vault = λ v x m n e. only v m ∙ sym (only x n);
}

setup-Elsewhere : Elsewhere setup old_password new_password contents
setup-Elsewhere = record {
  verifier_apart = λ v m.
      of_vault
        (λ y. (verifier_path setup ≢ enc_path y) × (tmp_of (verifier_path setup) ≢ enc_path y))
        (long_ne _ _ (omega arith), long_ne _ _ (omega arith)) v m;
  vault_apart = λ v m.
      of_vault
        (λ y. (enc_path y ≢ verifier_path setup) × (tmp_of (enc_path y) ≢ verifier_path setup))
        (long_ne _ _ (omega arith), long_ne _ _ (omega arith)) v m;
  secrets_apart = λ v m.
      of_vault (λ y. (secrets_path setup ≢ enc_path y) × (tmp_of (secrets_path setup) ≢ enc_path y))
        (long_ne _ _ (omega arith), long_ne _ _ (omega arith)) v m;
  both_apart = (long_ne _ _ (omega arith), long_ne _ _ (omega arith));
}

setup-Seals : (pw : Bytes) → Seals setup old_password new_password contents pw
setup-Seals pw v r p m s h =
    payload_opens toy toy-Promises pw text v r p (of_vault (λ x. x.bootstrap_header ≡ []) refl v m)
      (omega arith) s h

same_open :
    (v : Vault) (p : Bytes) → open_payload toy v old_password p ≡ open_payload toy v new_password p
unfolding decrypt decrypt_envelope derive_key
same_open v p = refl

setup-Agrees : Agrees setup old_password new_password contents
setup-Agrees v p b m o n = ok_injective b text (sym n ∙ (sym (same_open v p) ∙ o))

-- The verifier of the old password, and the vault under it.
abbrev files_before : Files
files_before =
    (
      verifier_path setup,
      (verify-set_password toy toy-Promises old_password old_password sixteen (omega arith) refl).0,
    )
    ∷ sealed_files old_password

files_before-Stored : Stored toy vault old_password text files_before
unfolding lookup
files_before-Stored = (sealed_text old_password, refl, sealed_text-opens old_password)

-- The old password is right, and the disk refuses the renaming of the new encrypted file.
abbrev world_before : World
world_before =
    record (world files_before (
      works ∷ works ∷ works ∷ works ∷ works ∷ works ∷ works ∷ works ∷ works ∷ works ∷ works ∷ works
      ∷ works ∷ refused ∷ [])) { memory = in_run }

set_password_keeps_example :
    Safe
      (All_ setup old_password new_password contents)
      (λ _.
        Switched setup old_password new_password contents setup-Apart setup-Elsewhere
          (setup-Seals old_password)
          (setup-Seals new_password)
          setup-Agrees)
      (controller_set_password setup false old_password new_password world_before)
set_password_keeps_example =
    set_password_keeps setup old_password new_password contents setup-Apart setup-Elsewhere
      (setup-Seals old_password) (setup-Seals new_password) setup-Agrees false world_before
      (tt, ((refl, refl, refl, refl), ((refl, refl, refl, refl), ((refl, refl, refl, refl), tt))))
      (λ v m t. of_vault (λ y. Stored toy y old_password text files_before) files_before-Stored v m)
