-- ===== src/SecureMode/Examples.antt =====
-- Runs of the secure mode's parts, and the theorems at concrete inputs. The hash is a function
-- that is not SHA-256 but has its size.
use asscor.Prelude.{
  ℕ, ◌+◌, ◌≡◌, ◌↔◌, ◌≤◌, refl, true, false, List, [], ◌∷◌, ◌++◌, Option, some, arith, Bytes, codes,
  length, lookup, insert, remove, bytes_eq, take, drop,
}
use asscor.SecureMode.Registry.{
  Registry, Json, Decoded, entries, malformed, null_map, ok, register, marshal, unmarshal,
  entries_valid, forget,
}
use asscor.SecureMode.Registry.Identity.{Registration, register_all, agent_of, identity_kept}
use asscor.SecureMode.Registry.Stored.{
  Change, registers, forgets, reads, changes, change, registry_round_trip,
}
use asscor.SecureMode.Marker.{
  mode_run, is_mode, content, marked, missing, marker_hash, marker_payload, read_marker,
  check_marker, corrupt, hash_mismatch, read_marker_sound,
}
use asscor.SecureMode.Password.{
  Rune, Class, lower, upper, digit, accepted, byte_length, kinds, validate, validate_accepts,
}
use asscor.SecureMode.Vault.{find, blank, encrypt_content, decrypt_content}
use asscor.SecureMode.Vault.Layout.{vault_round_trip}
use asscor.SecureMode.Crypt
use asscor.SecureMode.Startup.{
  VaultState, enc_name, startup, started, refused, enc_without_verifier,
}
use asscor.SecureMode.Startup.Accepts.{all_agree, startup_accepts}

abbrev first_print : Bytes
first_print = codes "ab12"

abbrev other_print : Bytes
other_print = codes "cd34"

abbrev agent_one : Bytes
agent_one = codes "agent-1"

abbrev agent_two : Bytes
agent_two = codes "agent-2"

abbrev held : Registry
held = (first_print, record { agent_id = agent_one; password = codes "s1"; updated_at = 5 }) ∷ []

abbrev takeover : Registration
takeover = record { fingerprint = first_print; agent = agent_two; secret = codes "s2"; time = 9 }

abbrev rotation : Registration
rotation = record { fingerprint = first_print; agent = agent_one; secret = codes "s3"; time = 11 }

takeover_refused :
    register_all held (takeover ∷ rotation ∷ [])
    ≡ (first_print, record { agent_id = agent_one; password = codes "s3"; updated_at = 11 }) ∷ []
unfolding register_all register lookup insert
takeover_refused = refl

identity_kept_example :
    agent_of (lookup first_print (register_all held (takeover ∷ rotation ∷ []))) ≡ some agent_one
identity_kept_example =
    identity_kept first_print agent_one held (takeover ∷ rotation ∷ []) (unfold lookup in refl)

-- An encoding of the registries with at most one entry, whose fields are short texts.
abbrev first_entry : Registry → Bytes
first_entry [] = []
first_entry ((fp, s) ∷ r) =
    length fp ∷ length s.agent_id ∷ s.updated_at ∷ (fp ++ (s.agent_id ++ s.password))

abbrev read_entry : Bytes → Decoded
read_entry (a ∷ b ∷ t ∷ rest) = entries (
    (
      take a rest,
      record { agent_id = take b (drop a rest); password = drop b (drop a rest); updated_at = t },
    )
    ∷ [])
read_entry [] = null_map
read_entry _ = malformed

abbrev one_entry : Json
one_entry = record { encode = first_entry; decode = read_entry }

abbrev history : List Change
history = registers takeover ∷ reads (codes "?") ∷ forgets first_print ∷ registers rotation ∷ []

registry_round_trip_example :
    (entries_valid (changes one_entry [] history) ≡ true)
    × (unmarshal one_entry (marshal one_entry (changes one_entry [] history))
        ≡ ok (changes one_entry [] history))
registry_round_trip_example =
    registry_round_trip one_entry history
      (unfold changes change register insert remove lookup forget unmarshal in refl)

abbrev thirty_one_zeros : Bytes
thirty_one_zeros =
    0 ∷ 0 ∷ 0 ∷ 0 ∷ 0 ∷ 0 ∷ 0 ∷ 0 ∷ 0 ∷ 0 ∷ 0 ∷ 0 ∷ 0 ∷ 0 ∷ 0 ∷ 0 ∷ 0 ∷ 0 ∷ 0 ∷ 0 ∷ 0 ∷ 0 ∷ 0 ∷ 0
    ∷ 0 ∷ 0 ∷ 0 ∷ 0 ∷ 0 ∷ 0 ∷ 0 ∷ []

abbrev sum : Bytes → ℕ
sum [] = 0
sum (c ∷ s) = c + sum s

abbrev sample_hash : Bytes → Bytes
sample_hash s = sum s ∷ thirty_one_zeros

read_marker_sound_example :
    (marker_payload sample_hash mode_run ≡ marker_payload sample_hash mode_run)
    × (is_mode mode_run ≡ true)
read_marker_sound_example =
    read_marker_sound sample_hash (marker_payload sample_hash mode_run) mode_run
      (unfold read_marker marker_payload marker_hash check_marker in refl)

tampered_marker_refused :
    read_marker sample_hash (content (1 ∷ 3 ∷ (codes "rum" ++ marker_hash sample_hash 1 mode_run)))
    ≡ corrupt hash_mismatch
unfolding read_marker marker_hash check_marker
tampered_marker_refused = refl

abbrev rune : Class → Rune
rune c = record { size = 1; class = c }

abbrev twelve_runes : List Rune
twelve_runes =
    rune lower
    ∷ rune upper
    ∷ rune digit
    ∷ rune lower
    ∷ rune lower
    ∷ rune lower
    ∷ rune lower
    ∷ rune lower
    ∷ rune lower
    ∷ rune lower
    ∷ rune lower
    ∷ rune lower
    ∷ []

validate_accepts_example :
    (validate twelve_runes ≡ accepted)
    ↔ ((12 ≤ byte_length twelve_runes) × (3 ≤ kinds twelve_runes))
validate_accepts_example = validate_accepts twelve_runes

abbrev ini : Bytes
ini = codes "asscor.ini"

abbrev listing : Option (List Bytes)
listing = some (codes "checks" ∷ enc_name ini ∷ [])

abbrev locked : List VaultState
locked = record { has_plain = false; has_enc = true } ∷ []

startup_accepts_example :
    (startup sample_hash (content (marker_payload sample_hash mode_run)) true locked
      ≡ started mode_run)
    ↔ ((read_marker sample_hash (content (marker_payload sample_hash mode_run)) ≡ marked mode_run)
        × (all_agree mode_run true locked ≡ true))
startup_accepts_example =
    startup_accepts sample_hash (content (marker_payload sample_hash mode_run)) true locked mode_run

interrupted_entry_refused : startup sample_hash missing false locked ≡ refused enc_without_verifier
unfolding startup read_marker
interrupted_entry_refused = refl

abbrev shifted : Bytes → Crypt.Result Bytes
shifted s = Crypt.ok (1 ∷ s)

abbrev unshifted : Bytes → Crypt.Result Bytes
unshifted [] = Crypt.err Crypt.data_too_short
unshifted (c ∷ s) = Crypt.ok s

abbrev header : Bytes
header = codes "[b]"

abbrev before_header : Bytes
before_header = codes "; agent" ++ 10 ∷ []

abbrev section : Bytes
section = header ++ 10 ∷ codes "url=k"

abbrev secrets : Bytes
secrets = codes "[s]" ++ 10 ∷ 10 ∷ codes "key=1"

vault_round_trip_example :
    let content = before_header ++ (section ++ (blank ++ secrets)) in
    let payload = (before_header ++ section) ++ (blank ++ 1 ∷ secrets) in
    (encrypt_content shifted header content ≡ Crypt.ok payload)
    × (decrypt_content unshifted header payload ≡ Crypt.ok content)
vault_round_trip_example =
    vault_round_trip shifted unshifted header before_header section secrets (1 ∷ secrets)
      (omega arith) ((λ e. ground arith), ((λ e. ground arith), ((λ e. ground arith), tt)))
      (unfold find in refl) (unfold find in refl) refl refl
