-- ===== src/SecureMode/Startup.antt =====
-- The state of a vault in its directory and the decision of `Startup`, of
-- internal/securemode/vault.go and internal/securemode/controller.go.
pub mod Accepts
pub mod Directory
use asscor.Prelude.{
  ℕ, suc, ◌+◌, ◌≡◌, ◌≢◌, refl, sym, ap, ◌∙◌, ◌⊎◌, inl, inr, ◌↔◌, Bool, true, false, ◌||◌, ◌&&◌, not,
  List, [], ◌∷◌, ◌++◌, Option, none, some, arith, if◌then◌else◌, Bool-cases, Bytes, codes,
  bytes_beq, bytes_beq_iff, length, length-append,
}
use asscor.SecureMode.Marker.{
  mode_default, mode_run, is_mode, FileContent, missing, unreadable, content, Corruption, Marked,
  marked, io_error, corrupt, read_marker, read_marker_sound,
}

pub record VaultState : Type 0 where
  pub has_plain : Bool
  pub has_enc : Bool

abbrev pub nothing_found : VaultState
nothing_found = record { has_plain = false; has_enc = false }

abbrev pub enc_name : Bytes → Bytes
enc_name base = base ++ codes ".enc"

-- One directory entry in the loop of `State`.
abbrev pub see_entry : Bytes → Bytes → VaultState → VaultState
see_entry base name st =
    if bytes_beq name base
    then record st { has_plain = true }
    else if bytes_beq name (enc_name base)
    then record st { has_enc = true }
    else st

unfoldable pub scan_entries : Bytes → List Bytes → VaultState → VaultState
scan_entries base [] st = st
scan_entries base (name ∷ names) st =
    let st' = see_entry base name st in
    let rest = scan_entries base names st' in if st'.has_plain && st'.has_enc then st' else rest

-- `Vault.State` on the names that `os.ReadDir` lists, if it lists any.
unfoldable pub vault_state : Bytes → Option (List Bytes) → VaultState
vault_state base none = nothing_found
vault_state base (some names) = scan_entries base names nothing_found

pub data Classified : Type 0 where
  residue default run nothing : Classified

-- `Classify`.
unfoldable pub classify : VaultState → Classified
classify st =
    if st.has_plain && st.has_enc
    then residue
    else if st.has_plain
    then default
    else if st.has_enc
    then run
    else nothing

abbrev pub listed : Bytes → List Bytes → Bool
listed name [] = false
listed name (x ∷ xs) = bytes_beq x name || listed name xs

abbrev pub listed? : Bytes → Option (List Bytes) → Bool
listed? name none = false
listed? name (some xs) = listed name xs

pub data Refusal : Type 0 where
  bad_marker : Corruption → Refusal
  marker_unreadable crash_residue enc_with_verifier enc_without_verifier run_without_verifier :
      Refusal

pub data Outcome : Type 0 where
  started : Bytes → Outcome
  refused : Refusal → Outcome

-- The first loop over the vaults.
abbrev pub any_residue : List VaultState → Bool
any_residue [] = false
any_residue (v ∷ vs) = v.has_plain && v.has_enc || any_residue vs

-- One vault in the second loop.
abbrev pub half_state : Bytes → Bool → VaultState → Option Refusal
half_state mode verifier v =
    if not v.has_plain && v.has_enc
    then (if bytes_beq mode mode_default && verifier
        then some enc_with_verifier
        else if bytes_beq mode mode_default && not verifier
        then some enc_without_verifier
        else if bytes_beq mode mode_run && not verifier
        then some run_without_verifier
        else none)
    else none

abbrev pub or_else : Option Refusal → Option Refusal → Option Refusal
or_else none later = later
or_else (some r) later = some r

abbrev pub any_half_state : Bytes → Bool → List VaultState → Option Refusal
any_half_state mode verifier [] = none
any_half_state mode verifier (v ∷ vs) =
    or_else (half_state mode verifier v) (any_half_state mode verifier vs)

abbrev pub outcome : Bytes → Option Refusal → Outcome
outcome mode none = started mode
outcome mode (some r) = refused r

abbrev pub start_marked : Marked → Bool → List VaultState → Outcome
start_marked (marked mode) verifier vs =
    if any_residue vs then refused crash_residue else outcome mode (any_half_state mode verifier vs)
start_marked io_error verifier vs = refused marker_unreadable
start_marked (corrupt c) verifier vs = refused (bad_marker c)

-- `Startup`, where both loops see each vault in one state, with the mode that it stores as its result.
unfoldable pub startup : (Bytes → Bytes) → FileContent → Bool → List VaultState → Outcome
startup sha file verifier vs = start_marked (read_marker sha file) verifier vs
