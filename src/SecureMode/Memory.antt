-- ===== src/SecureMode/Memory.antt =====
-- The guard of the configuration in memory, of internal/securemode/memguard.go, and what a
-- `Controller` keeps in memory. SHA-256 is a parameter; the read-only storage only holds bytes.
use asscor.Prelude.{Bool, [], Option, none, Bytes, bytes_beq}
use asscor.SecureMode.Registry.{Registry, new_registry}
use asscor.SecureMode.Marker.{mode_default}

pub record MemoryGuard : Type 0 where
  pub data' : Bytes
  pub baseline : Bytes

module _ (sha : Bytes → Bytes) where
  -- `NewMemoryGuard`, with `rebaselineLocked`.
  unfoldable pub new_memory_guard : Bytes → MemoryGuard
  new_memory_guard plaintext = record { data' = plaintext; baseline = sha plaintext }

  -- `IntegrityOK`: one length and the bytes.
  unfoldable pub integrity_ok : MemoryGuard → Bool
  integrity_ok g = bytes_beq (sha g.data') g.baseline

  -- `Replace`.
  unfoldable pub replace_guarded : Bytes → MemoryGuard → MemoryGuard
  unfolding new_memory_guard
  replace_guarded plaintext g = new_memory_guard plaintext

-- The fields of a `Controller` that its operations write; `armed` is `armSecretProtection`.
pub record Memory : Type 0 where
  pub mode : Bytes
  pub run_password : Bytes
  pub guard : Option MemoryGuard
  pub secrets : Registry
  pub armed : Bool

-- `NewController`.
abbrev pub new_controller : Bool → Memory
new_controller armed = record {
  mode = mode_default;
  run_password = [];
  guard = none;
  secrets = new_registry;
  armed = armed;
}
