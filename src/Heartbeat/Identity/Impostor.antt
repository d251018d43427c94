-- ===== src/Heartbeat/Identity/Impostor.antt =====
-- A binding lasts, and a revocation too, of internal/heartbeat/heartbeat.go.
use asscor.Prelude.{
  ◌≡◌, ◌≢◌, refl, sym, ◌∙◌, ap, false, inl, inr, List, [], ◌∷◌, Bytes, bytes_beq, bytes_beq_iff,
  bytes_eq, lookup, Bool-cases,
}
use asscor.Heartbeat.Certs.{taken, bind_record, bind_agent_cert, verify_agent_cert, revoke_cert}
use asscor.Heartbeat.{Module, is_blank, is_there}
use asscor.Heartbeat.Identity.{stop_and_start, disk_is}
use asscor.Heartbeat.Identity.Saving.{
  Unbinds, revoke_lem, unrevoke-Unbinds, restart-readable, perform-Kept,
}
use asscor.Heartbeat.Restart.{Trips, file_fp_of}
use asscor.Prelude.{Bool, true, subst}
use asscor.Heartbeat.{restart}
use asscor.Heartbeat.Bindings.{
  blank_iff, record_heartbeat-fp_of, register_agent-fp_of, check_timeouts-fp_of,
}
use asscor.Heartbeat.Identity.{
  Request, beat, enrol, bind, revoke, unrevoke, reset, tick, perform, perform_all, bound, bind_lem,
  agent_fp,
}

-- A call that neither revokes a certificate nor resets the bindings; and the identity file can be read.
abbrev pub Spares : Bytes → Request → Type 0
Spares fp (revoke other reason now) = other ≢ fp
Spares fp reset = ⊥
Spares fp (stop_and_start identity revoked) = identity ≡ true
Spares fp _ = Unit

abbrev pub AllSpare : Bytes → List Request → Type 0
AllSpare fp [] = Unit
AllSpare fp (r ∷ rs) = Spares fp r × AllSpare fp rs

module _ (host fp : Bytes) (some_fp : fp ≢ []) where
  bind-lasts :
      (other f : Bytes) (m : Module)
      → bound host m ≡ fp
      → bound host (bind_agent_cert other f m).1 ≡ fp
  bind-lasts other f m h = elim (bind_lem other f m) [
    | inl e ↦ ap (bound host) e ∙ h
    | inr b ↦ b.now_bound host ∙ elim (Bool-cases (bytes_beq other host)) [
      | inr q ↦ rw q h
      | inl q ↦
          let same = (bytes_beq_iff other host).0 q in
          elim b.was_free [
            | inl free ↦ absurd (some_fp (sym h ∙ (ap (λ x. bound x m) (sym same) ∙ free)))
            | inr was ↦ rw q (sym was ∙ (ap (λ x. bound x m) same ∙ h))
          ]
    ]
  ]

  unbound-lasts :
      (p : Bytes → Bool) (m n : Module)
      → Unbinds p m n
      → p fp ≡ false
      → bound host m ≡ fp
      → bound host n ≡ fp
  unbound-lasts p m n u k h = u.now_bound host ∙ rw (h, k) refl

  not_same : (other : Bytes) → other ≢ fp → bytes_beq fp other ≡ false
  not_same other n = elim (Bool-cases (bytes_beq fp other)) [
    | inl q ↦ absurd (n (sym ((bytes_beq_iff fp other).0 q)))
    | inr q ↦ q
  ]

  other-refused :
      (other : Bytes) (m : Module)
      → bound host m ≡ fp
      → other ≢ []
      → other ≢ fp
      → (verify_agent_cert host other m ≡ false) × ((bind_agent_cert host other m).0 ≡ false)
  unfolding verify_agent_cert bind_agent_cert bind_record
  other-refused other m k n d =
      let nb : is_blank other ≡ false = elim (Bool-cases (is_blank other)) [
        | inl q ↦ absurd (n ((blank_iff other).0 q))
        | inr q ↦ q
      ] in
      let nf : is_blank (bound host m) ≡ false = elim (Bool-cases (is_blank (bound host m))) [
        | inl q ↦ absurd (some_fp (sym k ∙ (blank_iff (bound host m)).0 q))
        | inr q ↦ q
      ] in
      let ne : bytes_beq (bound host m) other ≡ false =
        elim (Bool-cases (bytes_beq (bound host m) other)) [
          | inl q ↦ absurd (d (sym ((bytes_beq_iff (bound host m) other).0 q) ∙ k))
          | inr q ↦ q
        ] in
      elim (Bool-cases (is_there (lookup other m.revoked))) [
        | inl r ↦ (rw (nb, r) refl, rw (nb, r) refl)
        | inr r ↦ (
          rw (nb, r, nf) ne,
          elim (Bool-cases (taken host other m.agents)) [
            | inl t ↦ rw (nb, r, t) refl
            | inr t ↦ rw (nb, r, t, agent_fp host (lookup host m.agents), nf, ne) refl
          ],
        )
      ]

  -- The host is bound to the certificate, in the memory and in what a restart would read.
  record Anchored (m : Module) : Type 0 where
    trips : Trips m.json
    in_memory : bound host m ≡ fp
    in_file : file_fp_of host m ≡ fp

  perform-lasts :
      (r : Request) (m : Module) → Spares fp r → Anchored m → bound host (perform r m) ≡ fp
  perform-lasts (beat h now) m s d = record_heartbeat-fp_of host h now m ∙ d.in_memory
  perform-lasts (enrol h hostname version now) m s d =
      register_agent-fp_of host h hostname version now m ∙ d.in_memory
  perform-lasts (bind h f) m s d = bind-lasts h f m d.in_memory
  perform-lasts (revoke f reason now) m s d = elim (revoke_lem f reason now m) [
    | inl e ↦ ap (bound host) e ∙ d.in_memory
    | inr u ↦ unbound-lasts _ m (revoke_cert f reason now m).1 u (not_same f s) d.in_memory
  ]
  perform-lasts (unrevoke f) m s d = unbound-lasts _ m _ (unrevoke-Unbinds f m) refl d.in_memory
  perform-lasts reset m s d = absurd s
  perform-lasts (tick timeout now) m s d = check_timeouts-fp_of host timeout now m ∙ d.in_memory
  perform-lasts (stop_and_start i r) m s d =
      ap (λ x. bound host (restart x r m)) s ∙ (restart-readable r m host ∙ d.in_file)
  perform-lasts (disk_is k) m s d = d.in_memory

  perform-Anchored : (r : Request) (m : Module) → Spares fp r → Anchored m → Anchored (perform r m)
  perform-Anchored r m s d =
      let n = perform r m in
      let k = perform-Kept r m in
      let now = perform-lasts r m s d in
      record {
        trips = subst Trips (sym k.same_json) d.trips;
        in_memory = now;
        in_file = elim (k.follows d.trips) [ inl e ↦ e host ∙ d.in_file | inr e ↦ e host ∙ now ];
      }

  binding_lasts :
      (rs : List Request) (m : Module)
      → AllSpare fp rs
      → Anchored m
      → bound host (perform_all rs m) ≡ fp
  binding_lasts [] m s d = d.in_memory
  binding_lasts (r ∷ rs) m s d = binding_lasts rs (perform r m) s.1 (perform-Anchored r m s.0 d)

  -- Once a host is bound to a certificate, in the memory and in the identity file, no other certificate
  -- is verified for it or can be bound to it, through any sequence of operations, timeouts, prunings
  -- and restarts of the kernel, whichever writes fail, in which its certificate is not revoked, the
  -- bindings are not reset and each restart can read the identity file. `encoding/json` is assumed to read
  -- back what it writes.
  pub impostor_refused :
      (rs : List Request) (m : Module) (other : Bytes)
      → AllSpare fp rs
      → Trips m.json
      → bound host m ≡ fp
      → file_fp_of host m ≡ fp
      → other ≢ []
      → other ≢ fp
      → (verify_agent_cert host other (perform_all rs m) ≡ false)
        × ((bind_agent_cert host other (perform_all rs m)).0 ≡ false)
  impostor_refused rs m other s t e f n k =
      other-refused other (perform_all rs m)
        (binding_lasts rs m s (record { trips = t; in_memory = e; in_file = f })) n k
