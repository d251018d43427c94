-- ===== src/Heartbeat/Restart.antt =====
-- The identity file of internal/heartbeat/heartbeat.go holds what it is read back for.
use asscor.Prelude.{
  ◌≡◌, refl, ◌∙◌, true, false, inl, inr, [], ◌∷◌, Option, none, some, Bytes, bytes_beq, bytes_eq,
  lookup, insert, remove, lookup-insert, lookup-remove, Bool-cases,
}
use asscor.Heartbeat.{Module, Json, save_identity, save_revoked, load_identity_file}
use asscor.Prelude.{◌⊎◌}
use asscor.Heartbeat.{
  Agents, IdentityFile, is_blank, saved_bindings, load_identity, new_agent, agent_or,
}
use asscor.Heartbeat.Bindings.{fp_of, fp_of-insert}

abbrev text_or : Option Bytes → Bytes
text_or none = []
text_or (some t) = t

abbrev file_fp : Bytes → IdentityFile → Bytes
file_fp x file = text_or (lookup x file)

abbrev NoBlank : IdentityFile → Type 0
NoBlank [] = Unit
NoBlank ((host, fp) ∷ ms) = (is_blank fp ≡ false) × NoBlank ms

insert-NoBlank :
    (host fp : Bytes) (file : IdentityFile)
    → is_blank fp ≡ false
    → NoBlank file
    → NoBlank (insert host fp file)
unfolding insert
insert-NoBlank host fp [] h n = (h, tt)
insert-NoBlank host fp ((j, w) ∷ ms) h n = elim (Bool-cases (bytes_beq j host)) [
  | inl q ↦ rw q (h, n.1)
  | inr q ↦ rw q (n.0, insert-NoBlank host fp ms h n.1)
]

remove-NoBlank : (host : Bytes) (file : IdentityFile) → NoBlank file → NoBlank (remove host file)
unfolding remove
remove-NoBlank host [] n = tt
remove-NoBlank host ((j, w) ∷ ms) n = elim (Bool-cases (bytes_beq j host)) [
  | inl q ↦ rw q (remove-NoBlank host ms n.1)
  | inr q ↦ rw q (n.0, remove-NoBlank host ms n.1)
]

saved-NoBlank : (agents : Agents) → NoBlank (saved_bindings agents)
unfolding saved_bindings
saved-NoBlank [] = tt
saved-NoBlank ((id, rec) ∷ ms) = elim (Bool-cases (is_blank rec.cert_fingerprint)) [
  | inl q ↦ rw q (remove-NoBlank id (saved_bindings ms) (saved-NoBlank ms))
  | inr q ↦ rw q (insert-NoBlank id rec.cert_fingerprint (saved_bindings ms) q (saved-NoBlank ms))
]

blank-empty : (s : Bytes) → is_blank s ≡ true → [] ≡ s
blank-empty [] h = refl
blank-empty (c ∷ s) h = cc

saved-fp : (x : Bytes) (agents : Agents) → file_fp x (saved_bindings agents) ≡ fp_of x agents
unfolding saved_bindings lookup
saved-fp x [] = refl
saved-fp x ((id, rec) ∷ ms) = elim (Bool-cases (is_blank rec.cert_fingerprint)) [
  | inl q ↦
      rw (q, lookup-remove id x (saved_bindings ms))
        (elim (Bool-cases (bytes_beq id x)) [
          | inl z ↦ rw z (blank-empty rec.cert_fingerprint q)
          | inr z ↦ rw z (saved-fp x ms)
        ])
  | inr q ↦
      rw (q, lookup-insert id x rec.cert_fingerprint (saved_bindings ms))
        (elim (Bool-cases (bytes_beq id x)) [ inl z ↦ rw z refl | inr z ↦ rw z (saved-fp x ms) ])
]

load-fp :
    (x : Bytes) (file : IdentityFile) → NoBlank file → fp_of x (load_identity file) ≡ file_fp x file
unfolding load_identity lookup
load-fp x [] n = refl
load-fp x ((host, fp) ∷ ms) n =
    rw
      (
        n.0,
        fp_of-insert x host
            (record (agent_or (new_agent host) (lookup host (load_identity ms))) {
              cert_fingerprint = fp;
            })
            (load_identity ms),
      )
      (elim (Bool-cases (bytes_beq host x)) [ inl z ↦ rw z refl | inr z ↦ rw z (load-fp x ms n.1) ])

-- Every host is bound after a restart as it was when the bindings were saved.
pub load-saved :
    (x : Bytes) (agents : Agents) → fp_of x (load_identity (saved_bindings agents)) ≡ fp_of x agents
load-saved x agents = load-fp x (saved_bindings agents) (saved-NoBlank agents) ∙ saved-fp x agents

-- What `encoding/json` promises: a map of texts that it writes it reads back.
abbrev pub Trips : Json → Type 0
Trips j = (ms : IdentityFile) → j.decode_bindings (j.encode_bindings ms) ≡ some ms

-- The bindings that a restart would find in the file.
abbrev pub file_fp_of : Bytes → Module → Bytes
file_fp_of x m = fp_of x (load_identity_file m.json m.identity_file)

-- A save that works puts the bindings into the file, and one that fails leaves the file.
pub save-file :
    (m : Module)
    → Trips m.json
    → ((x : Bytes) → file_fp_of x (save_identity m) ≡ file_fp_of x m)
      ⊎ ((x : Bytes) → file_fp_of x (save_identity m) ≡ fp_of x m.agents)
unfolding save_identity load_identity_file
save-file m trips = elim (Bool-cases m.disk.identity_writable) [
  | inl q ↦ inr (λ x. rw (q, trips (saved_bindings m.agents)) (load-saved x m.agents))
  | inr q ↦ inl (λ x. rw q refl)
]

-- A save changes nothing but a file.
pub record SameMemory (m n : Module) : Type 0 where
  pub same_agents : n.agents ≡ m.agents
  pub same_revocations : n.revoked ≡ m.revoked
  pub same_library : n.json ≡ m.json

pub save_identity-SameMemory : (m : Module) → SameMemory m (save_identity m)
unfolding save_identity
save_identity-SameMemory m = elim (Bool-cases m.disk.identity_writable) [
  | inl q ↦ rw q (record { same_agents = refl; same_revocations = refl; same_library = refl })
  | inr q ↦ rw q (record { same_agents = refl; same_revocations = refl; same_library = refl })
]

pub save_revoked-SameMemory : (m : Module) → SameMemory m (save_revoked m)
unfolding save_revoked
save_revoked-SameMemory m = elim (Bool-cases m.disk.revoked_writable) [
  | inl q ↦ rw q (record { same_agents = refl; same_revocations = refl; same_library = refl })
  | inr q ↦ rw q (record { same_agents = refl; same_revocations = refl; same_library = refl })
]

pub save_revoked-file : (x : Bytes) (m : Module) → file_fp_of x (save_revoked m) ≡ file_fp_of x m
unfolding save_revoked
save_revoked-file x m = elim (Bool-cases m.disk.revoked_writable) [
  | inl q ↦ rw q refl
  | inr q ↦ rw q refl
]
