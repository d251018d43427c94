-- ===== src/Heartbeat/Monitor.antt =====
-- The liveness of the agents of internal/heartbeat/heartbeat.go: `IsAlive`, and the rounds of the monitor.
use asscor.Prelude.{
  ℕ, ◌+◌, ◌*◌, Bool, false, not, ◌&&◌, List, [], ◌∷◌, Option, none, some, if◌then◌else◌, Bytes,
  ◌==◌, ltb, bytes_eq, lookup, remove,
}
use asscor.Heartbeat.{AgentRecord, Agents, Module, is_blank}

-- `IsAlive`.
alive_record : ℕ → ℕ → Option AgentRecord → Bool
alive_record timeout now none = false
alive_record timeout now (some rec) = rec.active && ltb now (rec.last_seen + timeout)

unfoldable pub is_alive : ℕ → Bytes → ℕ → Module → Bool
unfolding alive_record
is_alive timeout host now m = alive_record timeout now (lookup host m.agents)

abbrev pub timed_out : ℕ → ℕ → AgentRecord → Bool
timed_out timeout now rec = not (rec.last_seen == 0) && ltb (rec.last_seen + timeout) now

-- The agents that a round finds timed out.
unfoldable pub timed_out_ids : ℕ → ℕ → Agents → List Bytes
timed_out_ids timeout now [] = []
timed_out_ids timeout now ((id, rec) ∷ ms) =
    let rest = timed_out_ids timeout now ms in if timed_out timeout now rec then id ∷ rest else rest

unfoldable pub deactivate : ℕ → ℕ → Agents → Agents
deactivate timeout now [] = []
deactivate timeout now ((id, rec) ∷ ms) =
    let rest = deactivate timeout now ms in
    if timed_out timeout now rec
    then (id, record rec { active = false }) ∷ rest
    else (id, rec) ∷ rest

abbrev pub hour : ℕ
hour = 3600 * 1000000000

-- `pruneDeadAgents`: a record with a fingerprint stays.
unfoldable pub prune_dead_agents : ℕ → Agents → Agents
prune_dead_agents now [] = []
prune_dead_agents now ((id, rec) ∷ ms) =
    let rest = prune_dead_agents now ms in
    if is_blank rec.cert_fingerprint && (not rec.active && ltb (rec.last_seen + hour) now)
    then remove id rest
    else (id, rec) ∷ rest

-- `checkTimeouts`.
unfoldable pub check_timeouts : ℕ → ℕ → Module → List Bytes × Module
unfolding timed_out_ids deactivate prune_dead_agents
check_timeouts timeout now m = (
  timed_out_ids timeout now m.agents,
  record m { agents = prune_dead_agents now (deactivate timeout now m.agents) },
)
