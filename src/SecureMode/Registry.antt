-- ===== src/SecureMode/Registry.antt =====
-- internal/securemode/registry.go: the kernel's record of the agents' unlock secrets, by the
-- fingerprint of the client certificate.
pub mod Identity
pub mod Stored
use asscor.Prelude.{
  ℕ, suc, Bool, true, false, ◌||◌, List, [], ◌∷◌, Option, none, some, if◌then◌else◌, Bytes,
  bytes_beq, bytes_eq, lookup, insert, remove, length,
}

pub record AgentSecret : Type 0 where
  pub agent_id : Bytes
  pub password : Bytes
  pub updated_at : ℕ

-- The map of a `SecretRegistry`.
abbrev pub Registry : Type 0
Registry = List (Bytes × AgentSecret)

pub data RegistryError : Type 0 where
  missing_field : RegistryError
  bound_to : Bytes → RegistryError
  bad_json null_payload invalid_entry no_registry : RegistryError

pub data Result {ℓ} (A : Type ℓ) : Type ℓ where
  ok : A → Result A
  err : RegistryError → Result A

abbrev pub is_empty : Bytes → Bool
is_empty [] = true
is_empty (c ∷ s) = false

-- `NewSecretRegistry`.
abbrev pub new_registry : Registry
new_registry = []

register_found : Option AgentSecret → Bytes → Bytes → Bytes → ℕ → Registry → Result Registry
register_found none fp id pw now r =
    ok (insert fp (record { agent_id = id; password = pw; updated_at = now }) r)
register_found (some existing) fp id pw now r =
    if bytes_beq existing.agent_id id
    then ok (insert fp (record existing { password = pw; updated_at = now }) r)
    else err (bound_to existing.agent_id)

-- `Register`.
unfoldable pub register : Bytes → Bytes → Bytes → ℕ → Registry → Result Registry
unfolding register_found
register fp id pw now r =
    if is_empty fp || (is_empty id || is_empty pw)
    then err missing_field
    else register_found (lookup fp r) fp id pw now r

-- `Lookup` is the map's `lookup`. `LookupByAgent`, in the order of the list:
unfoldable pub lookup_by_agent : Bytes → Registry → Option AgentSecret
lookup_by_agent id [] = none
lookup_by_agent id ((fp, s) ∷ r) =
    let rest = lookup_by_agent id r in if bytes_beq s.agent_id id then some s else rest

-- `Remove`.
unfoldable pub forget : Bytes → Registry → Registry
forget fp r = remove fp r

-- `Size`.
abbrev pub size : Registry → ℕ
size r = length r

-- What `json.Unmarshal` makes of a payload: an error, a nil map, or entries.
pub data Decoded : Type 0 where
  malformed null_map : Decoded
  entries : Registry → Decoded

-- `encoding/json` on the registry.
pub record Json : Type 0 where
  pub encode : Registry → Bytes
  pub decode : Bytes → Decoded

-- `Marshal`.
unfoldable pub marshal : Json → Registry → Bytes
marshal j r = j.encode r

-- The test of `Unmarshal` on each entry.
unfoldable pub entries_valid : Registry → Bool
entries_valid [] = true
entries_valid ((fp, s) ∷ r) =
    let rest = entries_valid r in
    if is_empty fp || (is_empty s.agent_id || is_empty s.password) then false else rest

check_decoded : Decoded → Result Registry
check_decoded malformed = err bad_json
check_decoded null_map = err null_payload
check_decoded (entries r) = if entries_valid r then ok r else err invalid_entry

-- `Unmarshal`: the registry that it puts in the place of the old one, if it does.
unfoldable pub unmarshal : Json → Bytes → Result Registry
unfolding check_decoded
unmarshal j payload = check_decoded (j.decode payload)

-- The registry after a call that may fail: a failure leaves it as it was.
abbrev pub after : Registry → Result Registry → Registry
after r (ok r') = r'
after r (err e) = r

-- `Controller.Register` and `Controller.Lookup`, whose registry may be nil.
unfoldable pub controller_register : Bytes → Bytes → Bytes → ℕ → Option Registry → Result Registry
controller_register fp id pw now none = err no_registry
controller_register fp id pw now (some r) = register fp id pw now r

abbrev password_of : Option AgentSecret → Option Bytes
password_of none = none
password_of (some s) = some s.password

unfoldable pub controller_lookup : Bytes → Option Registry → Option Bytes
controller_lookup fp none = none
controller_lookup fp (some r) = password_of (lookup fp r)
