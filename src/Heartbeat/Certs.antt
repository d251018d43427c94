-- ===== src/Heartbeat/Certs.antt =====
-- Binding, verifying, revoking and resetting certificates, of internal/heartbeat/heartbeat.go.
use asscor.Prelude.{
  ℕ, Bool, true, false, not, ◌&&◌, ◌||◌, [], ◌∷◌, if◌then◌else◌, Bytes, bytes_beq, bytes_eq, lookup,
  insert, remove,
}
use asscor.Heartbeat.{
  AgentRecord, Agents, Module, is_blank, new_agent, agent_or, bound_to, is_there, save_identity,
  save_revoked,
}

-- Whether a fingerprint belongs to another host.
unfoldable pub taken : Bytes → Bytes → Agents → Bool
taken host fp [] = false
taken host fp ((id, rec) ∷ ms) =
    let rest = taken host fp ms in
    not (bytes_beq id host) && bytes_beq rec.cert_fingerprint fp || rest

unfoldable pub bind_record : AgentRecord → Bytes → Bytes → Module → Bool × Module
unfolding save_identity
bind_record rec host fp m =
    if not (is_blank rec.cert_fingerprint) && not (bytes_beq rec.cert_fingerprint fp)
    then (false, m)
    else (
      true,
      save_identity
          (record m { agents = insert host (record rec { cert_fingerprint = fp }) m.agents }),
    )

-- `BindAgentCert`.
unfoldable pub bind_agent_cert : Bytes → Bytes → Module → Bool × Module
unfolding bind_record taken
bind_agent_cert host fp m =
    if is_blank fp
    then (true, m)
    else if is_there (lookup fp m.revoked)
    then (false, m)
    else if taken host fp m.agents
    then (false, m)
    else bind_record (agent_or (new_agent host) (lookup host m.agents)) host fp m

-- `VerifyAgentCert`.
unfoldable pub verify_agent_cert : Bytes → Bytes → Module → Bool
verify_agent_cert host fp m =
    let bound = bound_to (lookup host m.agents) in
    if is_blank fp
    then true
    else if is_there (lookup fp m.revoked)
    then false
    else if is_blank bound
    then true
    else bytes_beq bound fp

-- `IsCertRevoked`.
unfoldable pub is_cert_revoked : Bytes → Module → Bool
is_cert_revoked fp m = if is_blank fp then false else is_there (lookup fp m.revoked)

-- The loops of `RevokeCert` and `ResetIdentityBindings`.
unfoldable pub unbind : (Bytes → Bool) → Agents → Agents
unbind p [] = []
unbind p ((id, rec) ∷ ms) =
    let rest = unbind p ms in
    if p rec.cert_fingerprint
    then (id, record rec { cert_fingerprint = [] }) ∷ rest
    else (id, rec) ∷ rest

-- `RevokeCert`: whether it revoked.
unfoldable pub revoke_cert : Bytes → Bytes → ℕ → Module → Bool × Module
unfolding unbind save_identity save_revoked
revoke_cert fp reason now m =
    if is_blank fp || is_there (lookup fp m.revoked) then (false, m) else (
      true,
      save_identity (
          save_revoked (record m {
            agents = unbind (λ f. bytes_beq f fp) m.agents;
            revoked =
                insert fp (record { fingerprint = fp; reason = reason; revoked_at = now })
                  m.revoked;
          })),
    )

-- `UnrevokeCert`.
unfoldable pub unrevoke_cert : Bytes → Module → Bool × Module
unfolding save_revoked
unrevoke_cert fp m =
    if is_blank fp || not (is_there (lookup fp m.revoked))
    then (false, m)
    else (true, save_revoked (record m { revoked = remove fp m.revoked }))

-- The loop of `ResetIdentityBindings`.
unfoldable pub reset_identity_bindings : Module → Module
unfolding unbind save_identity
reset_identity_bindings m =
    save_identity (record m { agents = unbind (λ f. not (is_blank f)) m.agents })
