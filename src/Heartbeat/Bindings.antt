-- ===== src/Heartbeat/Bindings.antt =====
-- What each operation of internal/heartbeat/heartbeat.go does to the fingerprint that a host is bound
-- to.
use asscor.Prelude.{
  ℕ, ◌≡◌, ◌≢◌, ◌↔◌, refl, sym, ◌∙◌, ap, Bool, true, false, inl, inr, [], ◌∷◌, Option, none, some,
  arith, if◌then◌else◌, Bytes, bytes_beq, bytes_beq_iff, bytes_eq, lookup, insert, lookup-insert,
  lookup-remove, Bool-cases,
}
use asscor.Heartbeat.Certs.{taken, unbind}
use asscor.Heartbeat.Monitor.{deactivate, prune_dead_agents, check_timeouts}
use asscor.Heartbeat.{
  AgentRecord, Agents, Module, is_blank, agent_or, bound_to, record_heartbeat, register_agent,
}

abbrev pub fp_of : Bytes → Agents → Bytes
fp_of x agents = bound_to (lookup x agents)

pub blank_iff : (s : Bytes) → (is_blank s ≡ true) ↔ (s ≡ [])
blank_iff [] = (λ _. refl, λ _. refl)
blank_iff (c ∷ s) = (λ h. cc, λ h. cc)

pub fp_of-insert :
    (x host : Bytes) (rec : AgentRecord) (agents : Agents)
    → fp_of x (insert host rec agents)
      ≡ (if bytes_beq host x then rec.cert_fingerprint else fp_of x agents)
fp_of-insert x host rec agents =
    rw lookup-insert
      (elim (Bool-cases (bytes_beq host x)) [ inl q ↦ rw q refl | inr q ↦ rw q refl ])

-- A record that keeps the fingerprint.
pub fp_of-insert_same :
    (x host : Bytes) (rec : AgentRecord) (agents : Agents)
    → rec.cert_fingerprint ≡ fp_of host agents
    → fp_of x (insert host rec agents) ≡ fp_of x agents
fp_of-insert_same x host rec agents h =
    fp_of-insert x host rec agents ∙ elim (Bool-cases (bytes_beq host x)) [
      | inl q ↦ rw q (h ∙ ap (λ y. fp_of y agents) ((bytes_beq_iff host x).0 q))
      | inr q ↦ rw q refl
    ]

agent_or-fp :
    (d : AgentRecord) (o : Option AgentRecord)
    → d.cert_fingerprint ≡ []
    → (agent_or d o).cert_fingerprint ≡ bound_to o
agent_or-fp d none h = h
agent_or-fp d (some rec) h = refl

pub record_heartbeat-fp_of :
    (x host : Bytes) (now : ℕ) (m : Module)
    → fp_of x (record_heartbeat host now m).agents ≡ fp_of x m.agents
unfolding record_heartbeat
record_heartbeat-fp_of x host now m =
    fp_of-insert_same x host _ m.agents (agent_or-fp _ (lookup host m.agents) refl)

pub register_agent-fp_of :
    (x host hostname version : Bytes) (now : ℕ) (m : Module)
    → fp_of x (register_agent host hostname version now m).agents ≡ fp_of x m.agents
unfolding register_agent
register_agent-fp_of x host hostname version now m =
    fp_of-insert_same x host _ m.agents (agent_or-fp _ (lookup host m.agents) refl)

pub deactivate-fp_of :
    (x : Bytes) (timeout now : ℕ) (agents : Agents)
    → fp_of x (deactivate timeout now agents) ≡ fp_of x agents
unfolding deactivate lookup
deactivate-fp_of x timeout now [] = refl
deactivate-fp_of x timeout now ((id, rec) ∷ ms) = ground (arith, deactivate-fp_of x timeout now ms)

-- A record is pruned only if it has no fingerprint.
pub prune-fp_of :
    (x : Bytes) (now : ℕ) (agents : Agents)
    → fp_of x (prune_dead_agents now agents) ≡ fp_of x agents
unfolding prune_dead_agents lookup
prune-fp_of x now [] = refl
prune-fp_of x now ((id, rec) ∷ ms) = ground (
  arith,
  prune-fp_of x now ms,
  lookup-remove id x (prune_dead_agents now ms),
  blank_iff rec.cert_fingerprint,
)

pub check_timeouts-fp_of :
    (x : Bytes) (timeout now : ℕ) (m : Module)
    → fp_of x (check_timeouts timeout now m).1.agents ≡ fp_of x m.agents
unfolding check_timeouts
check_timeouts-fp_of x timeout now m =
    prune-fp_of x now (deactivate timeout now m.agents) ∙ deactivate-fp_of x timeout now m.agents

pub unbind-fp_of :
    (x : Bytes) (p : Bytes → Bool) (agents : Agents)
    → fp_of x (unbind p agents) ≡ (if p (fp_of x agents) then [] else fp_of x agents)
unfolding unbind lookup
unbind-fp_of x p [] = ground arith
unbind-fp_of x p ((id, rec) ∷ ms) = ground (arith, unbind-fp_of x p ms)

-- A fingerprint that is not taken belongs to no other host.
pub taken-fp_of :
    (host fp x : Bytes) (agents : Agents)
    → taken host fp agents ≡ false
    → x ≢ host
    → fp ≢ []
    → fp_of x agents ≢ fp
unfolding taken lookup
taken-fp_of host fp x [] h n b e = b (sym e)
taken-fp_of host fp x ((id, rec) ∷ ms) h n b e = ground (
  arith,
  taken-fp_of host fp x ms,
  bytes_beq_iff id x,
  bytes_beq_iff id host,
  bytes_beq_iff rec.cert_fingerprint fp,
  h,
  e,
  n,
  b,
)
