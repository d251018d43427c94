-- ===== src/SecureMode/Registry/Stored.antt =====
-- The registry of internal/securemode/registry.go written out and read back.
use asscor.Prelude.{
  ℕ, ◌≡◌, refl, inl, inr, true, false, List, [], ◌∷◌, arith, Bytes, bytes_beq_iff, bytes_eq, lookup,
  insert, remove, Option-cases,
}
use asscor.SecureMode.Registry.{
  AgentSecret, Registry, ok, entries, Json, is_empty, register, forget, after, marshal, unmarshal,
  entries_valid,
}
use asscor.SecureMode.Registry.Identity.{Registration}

insert-entries_valid :
    (fp : Bytes) (s : AgentSecret) (r : Registry)
    → is_empty fp ≡ false
    → is_empty s.agent_id ≡ false
    → is_empty s.password ≡ false
    → entries_valid r ≡ true
    → entries_valid (insert fp s r) ≡ true
unfolding entries_valid insert
insert-entries_valid fp s [] a b c h = rw (a, b, c) refl
insert-entries_valid fp s ((j, t) ∷ r) a b c h = ground (arith, insert-entries_valid fp s r a b c)

remove-entries_valid :
    (fp : Bytes) (r : Registry) → entries_valid r ≡ true → entries_valid (remove fp r) ≡ true
unfolding entries_valid remove
remove-entries_valid fp [] h = refl
remove-entries_valid fp ((j, t) ∷ r) h = ground (arith, remove-entries_valid fp r)

register-entries_valid :
    (fp id pw : Bytes) (now : ℕ) (r : Registry)
    → entries_valid r ≡ true
    → entries_valid (after r (register fp id pw now r)) ≡ true
unfolding register
register-entries_valid fp id pw now r h = elim (Option-cases (lookup fp r)) [
  | inl e ↦
      ground (
        arith,
        insert-entries_valid fp (record { agent_id = id; password = pw; updated_at = now }) r,
      )
  | inr (t, e) ↦ ground (
    arith,
    bytes_beq_iff t.agent_id id,
    insert-entries_valid fp (record t { password = pw; updated_at = now }) r,
  )
]

-- What a registry goes through: registrations, removals, and payloads that are read in.
pub data Change : Type 0 where
  registers : Registration → Change
  forgets : Bytes → Change
  reads : Bytes → Change

module _ (j : Json) where
  unfoldable pub change : Registry → Change → Registry
  change r (registers g) = after r (register g.fingerprint g.agent g.secret g.time r)
  change r (forgets fp) = forget fp r
  change r (reads payload) = after r (unmarshal j payload)

  unfoldable pub changes : Registry → List Change → Registry
  changes r [] = r
  changes r (c ∷ cs) = changes (change r c) cs

  change-entries_valid :
      (r : Registry) (c : Change) → entries_valid r ≡ true → entries_valid (change r c) ≡ true
  unfolding change forget unmarshal
  change-entries_valid r (registers g) h =
      register-entries_valid g.fingerprint g.agent g.secret g.time r h
  change-entries_valid r (forgets fp) h = remove-entries_valid fp r h
  change-entries_valid r (reads payload) h = ground arith

  changes-entries_valid :
      (r : Registry) (cs : List Change)
      → entries_valid r ≡ true
      → entries_valid (changes r cs) ≡ true
  unfolding changes
  changes-entries_valid r [] h = h
  changes-entries_valid r (c ∷ cs) h =
      changes-entries_valid (change r c) cs (change-entries_valid r c h)

  -- After any registrations, removals and payloads read in, genuine or not, each entry has a
  -- fingerprint, an agent and a password; and if `encoding/json` reads back what it has written of
  -- the registry, `Unmarshal` reads the registry back from what `Marshal` makes of it.
  pub registry_round_trip :
      (cs : List Change)
      → j.decode (j.encode (changes [] cs)) ≡ entries (changes [] cs)
      → let r = changes [] cs in (entries_valid r ≡ true) × (unmarshal j (marshal j r) ≡ ok r)
  unfolding unmarshal marshal
  registry_round_trip cs law =
      let r = changes [] cs in
      let v = changes-entries_valid [] cs (unfold entries_valid in refl) in (v, rw (law, v) refl)
