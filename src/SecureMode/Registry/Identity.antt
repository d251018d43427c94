-- ===== src/SecureMode/Registry/Identity.antt =====
-- One certificate, one identity, in internal/securemode/registry.go.
use asscor.Prelude.{
  ℕ, ◌≡◌, ◌≢◌, refl, ap, ◌∙◌, ◌⊎◌, inl, inr, false, List, [], ◌∷◌, Option, none, some, arith, Bytes,
  bytes_beq, bytes_beq_iff, bytes_eq, lookup, insert, lookup-insert, lookup-insert_self,
  lookup-insert_ne, Bool-cases, Option-cases,
}
use asscor.SecureMode.Registry.{AgentSecret, Registry, ok, err, bound_to, is_empty, register, after}

abbrev pub IsNonempty : Bytes → Type 0
IsNonempty s = is_empty s ≡ false

-- A registration with all three fields under a fingerprint that no other agent holds is stored with
-- its time, and disturbs no other fingerprint; under one that another agent holds it is refused,
-- naming that agent.
pub register_result :
    (fp id pw other : Bytes) (now : ℕ) (r : Registry)
    → IsNonempty fp
    → IsNonempty id
    → IsNonempty pw
    → fp ≢ other
    → ((r' : Registry) × (register fp id pw now r ≡ ok r')
        × (lookup fp r' ≡ some (record { agent_id = id; password = pw; updated_at = now }))
        × (lookup other r' ≡ lookup other r))
      ⊎ ((s : AgentSecret) × (lookup fp r ≡ some s)
          × (s.agent_id ≢ id)
          × (register fp id pw now r ≡ err (bound_to s.agent_id)))
unfolding register
register_result fp id pw other now r a b c h = elim (Option-cases (lookup fp r)) [
  | inl e ↦
      let s : AgentSecret = record { agent_id = id; password = pw; updated_at = now } in
      inl (
        insert fp s r,
        rw (a, b, c, e) refl,
        lookup-insert_self fp s r,
        lookup-insert_ne fp other s r h,
      )
  | inr (t, e) ↦ elim (Bool-cases (bytes_beq t.agent_id id)) [
    | inl q ↦
        let s : AgentSecret = record t { password = pw; updated_at = now } in
        let same_id = (bytes_beq_iff t.agent_id id).0 q in
        inl (
          insert fp s r,
          rw (a, b, c, e, q) refl,
          lookup-insert_self fp s r
              ∙ ap (λ i. some (record { agent_id = i; password = pw; updated_at = now })) same_id,
          lookup-insert_ne fp other s r h,
        )
    | inr q ↦ inr (t, e, (λ p. cc (q, (bytes_beq_iff t.agent_id id).1 p)), rw (a, b, c, e, q) refl)
  ]
]

-- The registrations of a history, with their times.
pub record Registration : Type 0 where
  pub fingerprint : Bytes
  pub agent : Bytes
  pub secret : Bytes
  pub time : ℕ

unfoldable pub register_all : Registry → List Registration → Registry
register_all r [] = r
register_all r (g ∷ gs) =
    register_all (after r (register g.fingerprint g.agent g.secret g.time r)) gs

abbrev pub agent_of : Option AgentSecret → Option Bytes
agent_of none = none
agent_of (some s) = some s.agent_id

register-agent_of :
    (fp agent : Bytes) (g : Registration) (r : Registry)
    → agent_of (lookup fp r) ≡ some agent
    → agent_of (lookup fp (after r (register g.fingerprint g.agent g.secret g.time r))) ≡ some agent
unfolding register
register-agent_of fp agent g r h = elim (Option-cases (lookup g.fingerprint r)) [
  | inl e ↦ ground (
    arith,
    bytes_beq_iff g.fingerprint fp,
    lookup-insert g.fingerprint fp
        (record { agent_id = g.agent; password = g.secret; updated_at = g.time }) r,
  )
  | inr (t, e) ↦ ground (
    arith,
    bytes_beq_iff g.fingerprint fp,
    lookup-insert g.fingerprint fp (record t { password = g.secret; updated_at = g.time }) r,
  )
]

-- Once a fingerprint is bound to an agent it stays bound to that agent through all registrations,
-- whoever makes them.
pub identity_kept :
    (fp agent : Bytes) (r : Registry) (gs : List Registration)
    → agent_of (lookup fp r) ≡ some agent
    → agent_of (lookup fp (register_all r gs)) ≡ some agent
unfolding register_all
identity_kept fp agent r [] h = h
identity_kept fp agent r (g ∷ gs) h =
    identity_kept fp agent (after r (register g.fingerprint g.agent g.secret g.time r)) gs
      (register-agent_of fp agent g r h)
