-- ===== src/Heartbeat/Examples.antt =====
-- Witnesses of the theorems on internal/heartbeat/heartbeat.go.
use asscor.Prelude.{◌≡◌, ◌≢◌, refl, false, List, [], ◌∷◌, Bytes, lookup, insert, arith}
use asscor.Heartbeat.Certs.{taken, bind_record, bind_agent_cert, verify_agent_cert}
use asscor.Heartbeat.{Module, register_agent}
use asscor.Heartbeat.{
  IdentityFile, Json, load_identity_file, load_identity, save_identity, saved_bindings,
}
use asscor.Heartbeat.Restart.{Trips, file_fp_of}
use asscor.Heartbeat.Identity.{
  Request, beat, enrol, bind, revoke, unrevoke, reset, tick, stop_and_start, disk_is, perform_all,
  NotRevoked, bound,
}
use asscor.Heartbeat.Identity.Runs.{OneHostEverywhere, perform_all-OneHost, perform_all-NotRevoked}
use asscor.Prelude.{true, ◌==◌, if◌then◌else◌, ◌++◌, Option, none, some, ap, ◌∙◌, remove, bytes_eq}
use mathlib.Core.List.{append-nil, append_assoc}
use asscor.Heartbeat.Identity.Impostor.{impostor_refused}

-- A library for the two files: a byte is written after a 1, and the end of a text is 0, 0. The
-- revocations are not read back.
put : Bytes → Bytes → Bytes
put [] s = 0 ∷ 0 ∷ s
put (c ∷ t) s = 1 ∷ c ∷ put t s

write : IdentityFile → Bytes
unfolding put
write [] = []
write ((host, fp) ∷ ms) = put host (put fp (write ms))

ended : Bytes → IdentityFile → IdentityFile → Option Bytes → IdentityFile
ended acc as_host after none = as_host
ended acc as_host after (some host) = (host, acc) ∷ after

read : Bytes → Bytes → Option Bytes → IdentityFile
unfolding ended
read [] acc h = []
read (m ∷ []) acc h = []
read (m ∷ c ∷ s) acc h =
    let as_host = read s [] (some acc) in
    let after = read s [] none in
    let longer = read s (acc ++ (c ∷ [])) h in if m == 0 then ended acc as_host after h else longer

read-put :
    (t s acc : Bytes) (h : Option Bytes)
    → read (put t s) acc h ≡ ended (acc ++ t) (read s [] (some (acc ++ t))) (read s [] none) h
unfolding read put
read-put [] s acc h = rw (append-nil acc) refl
read-put (c ∷ t) s acc h = read-put t s (acc ++ (c ∷ [])) h ∙ rw (append_assoc acc (c ∷ []) t) refl

abbrev pairs : Json
pairs = record {
  encode_bindings = write;
  decode_bindings = λ text. some (read text [] none);
  encode_revoked = λ rcs. [];
  decode_revoked = λ text. none;
}

read-write : (ms : IdentityFile) → read (write ms) [] none ≡ ms
unfolding read write ended
read-write [] = refl
read-write ((host, fp) ∷ ms) =
    read-put host (put fp (write ms)) [] none
    ∙ (read-put fp (write ms) [] (some host) ∙ ap (λ x. (host, fp) ∷ x) (read-write ms))

pairs-Trips : Trips pairs
pairs-Trips ms = ap some (read-write ms)

abbrev no_agents : Module
no_agents = record {
  agents = [];
  revoked = [];
  identity_file = none;
  revoked_file = none;
  json = pairs;
  disk = record { identity_writable = true; revoked_writable = true };
}

no_agents-OneHost : OneHostEverywhere no_agents
unfolding lookup load_identity_file
no_agents-OneHost = record {
  trips = pairs-Trips;
  in_memory = λ a b e s. absurd (s refl);
  in_file = λ a b e s. absurd (s refl);
}

no_agents-NotRevoked : NotRevoked no_agents
unfolding lookup
no_agents-NotRevoked a s = refl

abbrev host_a : Bytes
host_a = 97 ∷ []

abbrev host_b : Bytes
host_b = 98 ∷ []

abbrev cert_1 : Bytes
cert_1 = 49 ∷ []

abbrev cert_2 : Bytes
cert_2 = 50 ∷ []

-- Host a is bound to one certificate and host b tries it too; then host a's certificate is revoked
-- while the identity file cannot be written.
abbrev some_calls : List Request
some_calls =
    beat host_a 5
    ∷ bind host_a cert_1
    ∷ bind host_b cert_1
    ∷ disk_is (record { identity_writable = false; revoked_writable = true })
    ∷ revoke cert_1 [] 9
    ∷ bind host_b cert_2
    ∷ unrevoke cert_1
    ∷ reset
    ∷ tick 60 900
    ∷ []

perform_all-OneHost_example :
    OneHostEverywhere (perform_all (stop_and_start true false ∷ some_calls) no_agents)
perform_all-OneHost_example =
    perform_all-OneHost (stop_and_start true false ∷ some_calls) no_agents no_agents-OneHost

perform_all-NotRevoked_example : NotRevoked (perform_all some_calls no_agents)
perform_all-NotRevoked_example =
    perform_all-NotRevoked some_calls no_agents
      (tt, (tt, (tt, (tt, (tt, (tt, (tt, (tt, (tt, tt))))))))) no_agents-NotRevoked

abbrev bound_agent : Module
bound_agent = perform_all (enrol host_a host_a [] 5 ∷ bind host_a cert_1 ∷ []) no_agents

-- The agent is silent for two hours; a host with another certificate comes in its name.
abbrev silence : List Request
silence =
    tick 60000000000 7200000000000
    ∷ revoke cert_2 [] 7
    ∷ beat host_b 8
    ∷ unrevoke cert_2
    ∷ stop_and_start true false
    ∷ []

cert_1-some : cert_1 ≢ []
cert_1-some e = cc e

other-cert_1 : cert_2 ≢ cert_1
other-cert_1 e = ground (arith, e)

bound_agent-cert_1 : bound host_a bound_agent ≡ cert_1
unfolding lookup insert register_agent bind_agent_cert bind_record taken
bound_agent-cert_1 = refl

bound_agent-file : file_fp_of host_a bound_agent ≡ cert_1
unfolding lookup insert remove register_agent bind_agent_cert bind_record taken save_identity
    saved_bindings load_identity_file load_identity read write put ended
bound_agent-file = refl

bound_agent-Trips : Trips bound_agent.json
bound_agent-Trips =
    (perform_all-OneHost (enrol host_a host_a [] 5 ∷ bind host_a cert_1 ∷ []) no_agents
      no_agents-OneHost).trips

impostor_refused_example :
    (verify_agent_cert host_a cert_2 (perform_all silence bound_agent) ≡ false)
    × ((bind_agent_cert host_a cert_2 (perform_all silence bound_agent)).0 ≡ false)
impostor_refused_example =
    impostor_refused host_a cert_1 cert_1-some silence bound_agent cert_2
      (tt, (other-cert_1, (tt, (tt, (refl, tt))))) bound_agent-Trips bound_agent-cert_1
      bound_agent-file (λ e. cc e) other-cert_1
