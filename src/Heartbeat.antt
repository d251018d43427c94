-- ===== src/Heartbeat.antt =====
-- internal/heartbeat/heartbeat.go: the liveness of the agents and the certificates that they are bound
-- to. Times are nanoseconds, 0 the zero `time.Time`; what is published on the bus is left out, but for
-- the agents that a round of the monitor finds timed out. A lock is held throughout each operation, but
-- for `checkTimeouts`, whose three parts are taken as one step here. The times are the ones that the
-- operation reads from the clock. The two files are part of the state, and so is which calls on them
-- work: a data directory is configured, and a file is replaced as a whole. A kernel that is killed
-- between the two writes of `RevokeCert` is one whose second write fails, started again.
pub mod Certs
pub mod Monitor
pub mod Bindings
pub mod Restart
pub mod Identity
pub mod Examples
use asscor.Prelude.{
  ℕ, ◌+◌, ◌*◌, Bool, true, false, not, ◌&&◌, ◌||◌, List, [], ◌∷◌, ◌++◌, Option, none, some,
  if◌then◌else◌, Bytes, ◌==◌, ltb, bytes_beq, bytes_eq, lookup, insert, remove,
}

pub record AgentRecord : Type 0 where
  pub host_id : Bytes
  pub hostname : Bytes
  pub version : Bytes
  pub last_seen : ℕ
  pub registered : ℕ
  pub connections : ℕ
  pub active : Bool
  pub cert_fingerprint : Bytes

pub record RevokedCert : Type 0 where
  pub fingerprint : Bytes
  pub reason : Bytes
  pub revoked_at : ℕ

abbrev pub Agents : Type 0
Agents = List (Bytes × AgentRecord)

abbrev pub Revoked : Type 0
Revoked = List (Bytes × RevokedCert)

-- The map that heartbeat_identity.json holds.
abbrev pub IdentityFile : Type 0
IdentityFile = List (Bytes × Bytes)

-- `encoding/json` on what the two files hold.
pub record Json : Type 0 where
  pub encode_bindings : IdentityFile → Bytes
  pub decode_bindings : Bytes → Option IdentityFile
  pub encode_revoked : List RevokedCert → Bytes
  pub decode_revoked : Bytes → Option (List RevokedCert)

-- Whether a file can be written and put in its place.
pub record Disk : Type 0 where
  pub identity_writable : Bool
  pub revoked_writable : Bool

pub record Module : Type 0 where
  pub agents : Agents
  pub revoked : Revoked
  pub identity_file : Option Bytes
  pub revoked_file : Option Bytes
  pub json : Json
  pub disk : Disk

abbrev pub is_blank : Bytes → Bool
is_blank [] = true
is_blank (c ∷ s) = false

abbrev pub new_agent : Bytes → AgentRecord
new_agent host = record {
  host_id = host;
  hostname = [];
  version = [];
  last_seen = 0;
  registered = 0;
  connections = 0;
  active = false;
  cert_fingerprint = [];
}

abbrev pub agent_or : AgentRecord → Option AgentRecord → AgentRecord
agent_or d none = d
agent_or d (some rec) = rec

-- `RecordHeartbeat`.
unfoldable pub record_heartbeat : Bytes → ℕ → Module → Module
record_heartbeat host now m =
    let rec =
      agent_or (record (new_agent host) { registered = now; active = true })
        (lookup host m.agents) in
    record m {
      agents =
          insert host
            (record rec { last_seen = now; connections = rec.connections + 1; active = true })
            m.agents;
    }

-- `RegisterAgent`.
unfoldable pub register_agent : Bytes → Bytes → Bytes → ℕ → Module → Module
register_agent host hostname version now m =
    let rec = agent_or (new_agent host) (lookup host m.agents) in
    record m {
      agents =
          insert host
            (record rec {
              host_id = host;
              hostname = hostname;
              version = version;
              last_seen = now;
              registered = if rec.registered == 0 then now else rec.registered;
              active = true;
            })
            m.agents;
    }

-- What `saveIdentityLocked` writes: the bindings of the hosts that are bound.
unfoldable pub saved_bindings : Agents → IdentityFile
saved_bindings [] = []
saved_bindings ((id, rec) ∷ ms) =
    let rest = saved_bindings ms in
    if is_blank rec.cert_fingerprint then remove id rest else insert id rec.cert_fingerprint rest

-- What `saveRevokedLocked` writes, in any order.
unfoldable pub saved_revoked : Revoked → List RevokedCert
saved_revoked [] = []
saved_revoked ((fp, rc) ∷ rs) = rc ∷ saved_revoked rs

-- `saveIdentityLocked` and `saveRevokedLocked`: where the temporary file cannot be written or renamed,
-- the old file stays, and the error is only logged.
unfoldable pub save_identity : Module → Module
unfolding saved_bindings
save_identity m =
    if m.disk.identity_writable
    then record m { identity_file = some (m.json.encode_bindings (saved_bindings m.agents)) }
    else m

unfoldable pub save_revoked : Module → Module
unfolding saved_revoked
save_revoked m =
    if m.disk.revoked_writable
    then record m { revoked_file = some (m.json.encode_revoked (saved_revoked m.revoked)) }
    else m

-- The loop of `loadIdentityLocked`.
unfoldable pub load_identity : IdentityFile → Agents
load_identity [] = []
load_identity ((host, fp) ∷ ms) =
    let rest = load_identity ms in
    if is_blank fp
    then rest
    else insert host
        (record (agent_or (new_agent host) (lookup host rest)) { cert_fingerprint = fp }) rest

-- The loop of `loadRevokedLocked`.
unfoldable pub load_revoked : List RevokedCert → Revoked
load_revoked [] = []
load_revoked (rc ∷ rcs) =
    let rest = load_revoked rcs in
    if is_blank rc.fingerprint then rest else insert rc.fingerprint rc rest

-- A file that is missing or that cannot be read.
abbrev pub readable_file {ℓ} : {A : Type ℓ} → Bool → Option A → Option A
readable_file false file = none
readable_file true file = file

abbrev pub identity_or_none : Option IdentityFile → Agents
identity_or_none none = []
identity_or_none (some ms) = load_identity ms

-- `loadIdentityLocked`, on no agents: no bindings where the file cannot be read or parsed.
unfoldable pub load_identity_file : Json → Option Bytes → Agents
unfolding load_identity
load_identity_file j none = []
load_identity_file j (some text) = identity_or_none (j.decode_bindings text)

abbrev pub revoked_or_none : Option (List RevokedCert) → Revoked
revoked_or_none none = []
revoked_or_none (some rcs) = load_revoked rcs

-- `loadRevokedLocked`, on no revocations.
unfoldable pub load_revoked_file : Json → Option Bytes → Revoked
unfolding load_revoked
load_revoked_file j none = []
load_revoked_file j (some text) = revoked_or_none (j.decode_revoked text)

-- The kernel stops and `Init` runs again, by whether each file can be read.
unfoldable pub restart : Bool → Bool → Module → Module
unfolding load_identity_file load_revoked_file
restart identity_readable revoked_readable m = record m {
  agents = load_identity_file m.json (readable_file identity_readable m.identity_file);
  revoked = load_revoked_file m.json (readable_file revoked_readable m.revoked_file);
}

abbrev pub is_there {ℓ} : {A : Type ℓ} → Option A → Bool
is_there none = false
is_there (some a) = true

-- The fingerprint that a host is bound to; empty if it is bound to none.
abbrev pub bound_to : Option AgentRecord → Bytes
bound_to none = []
bound_to (some rec) = rec.cert_fingerprint
