-- ===== src/SecureMode/Startup/Directory.antt =====
-- What the loop of `State` over a directory finds, of internal/securemode/vault.go.
use asscor.Prelude.{
  ◌≡◌, refl, ap, false, ◌||◌, List, [], ◌∷◌, Option, none, some, arith, Bytes, codes, bytes_beq,
  bytes_beq_iff, length, length-append,
}
use asscor.SecureMode.Startup.{
  VaultState, nothing_found, enc_name, see_entry, scan_entries, vault_state, listed, listed?,
}

same_length : (a b : Bytes) → a ≡ b → length a ≡ length b
same_length a b e = ap length e

enc_name_ne : (base : Bytes) → bytes_beq base (enc_name base) ≡ false
enc_name_ne base = ground (
  arith,
  bytes_beq_iff base (enc_name base),
  length-append base (codes ".enc"),
  same_length base (enc_name base),
)

abbrev or_listed : Bytes → List Bytes → VaultState → VaultState
or_listed base names st = record {
  has_plain = st.has_plain || listed base names;
  has_enc = st.has_enc || listed (enc_name base) names;
}

scan-or_listed :
    (base : Bytes) (names : List Bytes) (st : VaultState)
    → scan_entries base names st ≡ or_listed base names st
unfolding scan_entries
scan-or_listed base [] st = ground arith
scan-or_listed base (name ∷ names) st = ground (
  arith,
  scan-or_listed base names (see_entry base name st),
  bytes_beq_iff name base,
  enc_name_ne base,
)

-- The state of a vault says of each of its two files whether the directory lists it: stopping the
-- loop early loses nothing, and a directory that cannot be read has neither.
pub vault_state_exact :
    (base : Bytes) (names : Option (List Bytes))
    → (vault_state base names).has_plain ≡ listed? base names
      × (vault_state base names).has_enc ≡ listed? (enc_name base) names
unfolding vault_state
vault_state_exact base none = (refl, refl)
vault_state_exact base (some names) = rw (scan-or_listed base names nothing_found) (refl, refl)
