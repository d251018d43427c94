-- ===== src/Heartbeat/Identity.antt =====
-- One certificate, one identity: what holds of the bindings of internal/heartbeat/heartbeat.go through
-- any sequence of its operations.
pub mod Saving
pub mod Runs
pub mod Impostor
use asscor.Prelude.{
  ℕ, ◌≡◌, ◌≢◌, ◌↔◌, refl, sym, ◌∙◌, ap, subst, Bool, true, false, not, ◌&&◌, ◌||◌, inl, inr, ◌⊎◌,
  List, [], ◌∷◌, Option, none, some, arith, if◌then◌else◌, Bytes, bytes_beq, bytes_beq_iff,
  bytes_eq, lookup, insert, remove, lookup-insert, lookup-remove, Bool-cases,
}
use asscor.Heartbeat.Certs.{
  taken, bind_record, bind_agent_cert, verify_agent_cert, unbind, revoke_cert, unrevoke_cert,
  reset_identity_bindings,
}
use asscor.Heartbeat.Monitor.{check_timeouts}
use asscor.Heartbeat.{
  AgentRecord, Agents, Module, is_blank, new_agent, agent_or, bound_to, is_there, record_heartbeat,
  register_agent,
}
use asscor.Heartbeat.{Disk, restart, save_identity}
use asscor.Heartbeat.Restart.{Trips, file_fp_of, save-file, SameMemory, save_identity-SameMemory}
use asscor.Heartbeat.Bindings.{
  fp_of, blank_iff, fp_of-insert, record_heartbeat-fp_of, register_agent-fp_of,
  check_timeouts-fp_of, unbind-fp_of, taken-fp_of,
}

-- A call of an operation.
pub data Request : Type 0 where
  beat : Bytes → ℕ → Request
  enrol : Bytes → Bytes → Bytes → ℕ → Request
  bind : Bytes → Bytes → Request
  revoke : Bytes → Bytes → ℕ → Request
  unrevoke : Bytes → Request
  reset : Request
  tick : ℕ → ℕ → Request
  -- Whether the files can be read then.
  stop_and_start : Bool → Bool → Request
  -- Whether the files can be written from now on.
  disk_is : Disk → Request

abbrev pub perform : Request → Module → Module
perform (beat host now) m = record_heartbeat host now m
perform (enrol host hostname version now) m = register_agent host hostname version now m
perform (bind host fp) m = (bind_agent_cert host fp m).1
perform (revoke fp reason now) m = (revoke_cert fp reason now m).1
perform (unrevoke fp) m = (unrevoke_cert fp m).1
perform reset m = reset_identity_bindings m
perform (tick timeout now) m = (check_timeouts timeout now m).1
perform (stop_and_start identity revoked) m = restart identity revoked m
perform (disk_is d) m = record m { disk = d }

abbrev pub perform_all : List Request → Module → Module
perform_all [] m = m
perform_all (r ∷ rs) m = perform_all rs (perform r m)

abbrev pub bound : Bytes → Module → Bytes
bound x m = fp_of x m.agents

-- No two hosts share a fingerprint, of the bindings that a function gives.
abbrev pub OneHost : (Bytes → Bytes) → Type 0
OneHost fp = (a b : Bytes) → fp a ≡ fp b → fp a ≢ [] → a ≡ b

-- No host is bound to a certificate that is revoked.
abbrev pub NotRevoked : Module → Type 0
NotRevoked m = (a : Bytes) → bound a m ≢ [] → lookup (bound a m) m.revoked ≡ none

-- What the identity file holds after a step: what it held before, or the bindings as they are then.
abbrev pub FileFollows : Module → Module → Type 0
FileFollows m n =
    ((x : Bytes) → file_fp_of x n ≡ file_fp_of x m) ⊎ ((x : Bytes) → file_fp_of x n ≡ bound x n)

pub save-FileFollows :
    (m n : Module)
    → ((x : Bytes) → file_fp_of x n ≡ file_fp_of x m)
    → Trips n.json
    → FileFollows m (save_identity n)
save-FileFollows m n same trips = elim (save-file n trips) [
  | inl k ↦ inl (λ x. k x ∙ same x)
  | inr k ↦ inr (λ x. k x ∙ sym (ap (fp_of x) (save_identity-SameMemory n).same_agents))
]

is_there-none {ℓ} : {A : Type ℓ} (o : Option A) → is_there o ≡ false → o ≡ none
is_there-none none h = refl
is_there-none (some a) h = cc

-- What a call of `BindAgentCert` did if it changed anything: the host is bound, to a fingerprint that
-- is not revoked and no other host's, and it was bound to that or to none.
pub record Bound (host fp : Bytes) (m n : Module) : Type 0 where
  pub now_bound : (x : Bytes) → bound x n ≡ (if bytes_beq host x then fp else bound x m)
  pub same_revoked : n.revoked ≡ m.revoked
  pub same_json : n.json ≡ m.json
  pub follows : Trips m.json → FileFollows m n
  pub some_fp : fp ≢ []
  pub fp_free : lookup fp m.revoked ≡ none
  pub only_host : taken host fp m.agents ≡ false
  pub was_free : (bound host m ≡ []) ⊎ (bound host m ≡ fp)

pub agent_fp :
    (host : Bytes) (o : Option AgentRecord)
    → (agent_or (new_agent host) o).cert_fingerprint ≡ bound_to o
agent_fp host none = refl
agent_fp host (some rec) = refl

pub bind_lem :
    (host fp : Bytes) (m : Module)
    → ((bind_agent_cert host fp m).1 ≡ m) ⊎ Bound host fp m (bind_agent_cert host fp m).1
unfolding bind_agent_cert bind_record
bind_lem host fp m = elim (Bool-cases (is_blank fp)) [
  | inl q ↦ inl (rw q refl)
  | inr q ↦ elim (Bool-cases (is_there (lookup fp m.revoked))) [
    | inl r ↦ inl (rw (q, r) refl)
    | inr r ↦ elim (Bool-cases (taken host fp m.agents)) [
      | inl t ↦ inl (rw (q, r, t) refl)
      | inr t ↦
          let rec = agent_or (new_agent host) (lookup host m.agents) in
          elim (Bool-cases
            (not (is_blank rec.cert_fingerprint) && not (bytes_beq rec.cert_fingerprint fp))) [
              | inl k ↦ inl (rw (q, r, t, k) refl)
              | inr k ↦
                  let bound_now = record m {
                    agents = insert host (record rec { cert_fingerprint = fp }) m.agents;
                  } in
                  let kept = save_identity-SameMemory bound_now in
                  inr (
                    rw (q, r, t, k)
                      (record {
                        now_bound = λ x.
                            ap (fp_of x) kept.same_agents
                            ∙ fp_of-insert x host (record rec { cert_fingerprint = fp }) m.agents;
                        same_revoked = kept.same_revocations;
                        same_json = kept.same_library;
                        follows = save-FileFollows m bound_now (λ x. refl);
                        some_fp = λ e. cc ((blank_iff fp).1 e, q);
                        fp_free = is_there-none (lookup fp m.revoked) r;
                        only_host = t;
                        was_free = ground (
                          arith,
                          k,
                          agent_fp host (lookup host m.agents),
                          blank_iff rec.cert_fingerprint,
                          bytes_beq_iff rec.cert_fingerprint fp,
                        );
                      }))
            ]
    ]
  ]
]
