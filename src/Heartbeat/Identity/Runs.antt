-- ===== src/Heartbeat/Identity/Runs.antt =====
-- The invariants of the bindings of internal/heartbeat/heartbeat.go.
use asscor.Prelude.{
  ◌≡◌, ◌≢◌, refl, sym, ◌∙◌, Bool, true, false, inl, inr, List, [], ◌∷◌, Bytes, bytes_beq,
  bytes_beq_iff, bytes_eq, Bool-cases, subst,
}
use asscor.Heartbeat.Certs.{bind_agent_cert, revoke_cert}
use asscor.Heartbeat.{Module, record_heartbeat, register_agent, restart}
use asscor.Heartbeat.Monitor.{check_timeouts}
use asscor.Heartbeat.Bindings.{
  record_heartbeat-fp_of, register_agent-fp_of, check_timeouts-fp_of, taken-fp_of,
}
use asscor.Heartbeat.Restart.{Trips, file_fp_of}
use asscor.Heartbeat.Identity.{
  Request, beat, enrol, bind, revoke, unrevoke, reset, tick, stop_and_start, disk_is, perform,
  perform_all, bound, OneHost, NotRevoked, Bound, bind_lem,
}
use asscor.Heartbeat.Identity.Saving.{
  Unbinds, revoke_lem, unrevoke-Unbinds, reset-Unbinds, restart-bound, perform-Kept,
}

same-OneHost : (f g : Bytes → Bytes) → ((x : Bytes) → g x ≡ f x) → OneHost f → OneHost g
same-OneHost f g k h a b e s = h a b (sym (k a) ∙ (e ∙ k b)) (λ z. s (k a ∙ z))

none-OneHost : (g : Bytes → Bytes) → ((x : Bytes) → g x ≡ []) → OneHost g
none-OneHost g k a b e s = absurd (s (k a))

same-NotRevoked :
    (m n : Module)
    → ((x : Bytes) → bound x n ≡ bound x m)
    → n.revoked ≡ m.revoked
    → NotRevoked m
    → NotRevoked n
same-NotRevoked m n k r h a s = rw (k a, r) (h a (λ z. s (k a ∙ z)))

module _ (m n : Module) (p : Bytes → Bool) (u : Unbinds p m n) where
  still_bound : (x : Bytes) → bound x n ≢ [] → (bound x n ≡ bound x m) × (p (bound x m) ≡ false)
  still_bound x s = elim (Bool-cases (p (bound x m))) [
    | inl q ↦ absurd (s (u.now_bound x ∙ rw q refl))
    | inr q ↦ (u.now_bound x ∙ rw q refl, q)
  ]

  unbound-OneHost : OneHost (λ x. bound x m) → OneHost (λ x. bound x n)
  unbound-OneHost h a b e s =
      let ka = still_bound a s in
      let kb = still_bound b (λ z. s (e ∙ z)) in h a b (sym ka.0 ∙ (e ∙ kb.0)) (λ z. s (ka.0 ∙ z))

  unbound-NotRevoked : NotRevoked m → NotRevoked n
  unbound-NotRevoked h a s =
      let ka = still_bound a s in rw ka.0 (u.still_free (bound a m) ka.1 (h a (λ z. s (ka.0 ∙ z))))

module _ (host fp : Bytes) (m n : Module) (b : Bound host fp m n) where
  at_host : (x : Bytes) → bytes_beq host x ≡ true → bound x n ≡ fp
  at_host x q = b.now_bound x ∙ rw q refl

  elsewhere : (x : Bytes) → bytes_beq host x ≡ false → bound x n ≡ bound x m
  elsewhere x q = b.now_bound x ∙ rw q refl

  not_taken : (x : Bytes) → bytes_beq host x ≡ false → bound x m ≢ fp
  not_taken x q =
      taken-fp_of host fp x m.agents b.only_host (λ e. cc ((bytes_beq_iff host x).1 (sym e), q))
        b.some_fp

  bound-OneHost : OneHost (λ x. bound x m) → OneHost (λ x. bound x n)
  bound-OneHost h a c e s = elim (Bool-cases (bytes_beq host a)) [
    | inl q ↦ elim (Bool-cases (bytes_beq host c)) [
      | inl r ↦ sym ((bytes_beq_iff host a).0 q) ∙ (bytes_beq_iff host c).0 r
      | inr r ↦ absurd (not_taken c r (sym (elsewhere c r) ∙ (sym e ∙ at_host a q)))
    ]
    | inr q ↦ elim (Bool-cases (bytes_beq host c)) [
      | inl r ↦ absurd (not_taken a q (sym (elsewhere a q) ∙ (e ∙ at_host c r)))
      | inr r ↦ h a c (sym (elsewhere a q) ∙ (e ∙ elsewhere c r)) (λ z. s (elsewhere a q ∙ z))
    ]
  ]

  bound-NotRevoked : NotRevoked m → NotRevoked n
  bound-NotRevoked h a s = elim (Bool-cases (bytes_beq host a)) [
    | inl q ↦ rw (at_host a q, b.same_revoked) b.fp_free
    | inr q ↦ rw (elsewhere a q, b.same_revoked) (h a (λ z. s (elsewhere a q ∙ z)))
  ]

-- In the memory of the kernel, and in what a restart would read.
pub record OneHostEverywhere (m : Module) : Type 0 where
  pub trips : Trips m.json
  pub in_memory : OneHost (λ x. bound x m)
  pub in_file : OneHost (λ x. file_fp_of x m)

perform-OneHost :
    (r : Request) (m : Module) → OneHostEverywhere m → OneHost (λ x. bound x (perform r m))
unfolding record_heartbeat register_agent check_timeouts
perform-OneHost (beat host now) m h =
    same-OneHost (λ x. bound x m) _ (λ x. record_heartbeat-fp_of x host now m) h.in_memory
perform-OneHost (enrol host hostname version now) m h =
    same-OneHost (λ x. bound x m) _ (λ x. register_agent-fp_of x host hostname version now m)
      h.in_memory
perform-OneHost (bind host fp) m h = elim (bind_lem host fp m) [
  | inl e ↦ rw e h.in_memory
  | inr b ↦ bound-OneHost host fp m (bind_agent_cert host fp m).1 b h.in_memory
]
perform-OneHost (revoke fp reason now) m h = elim (revoke_lem fp reason now m) [
  | inl e ↦ rw e h.in_memory
  | inr u ↦ unbound-OneHost m (revoke_cert fp reason now m).1 _ u h.in_memory
]
perform-OneHost (unrevoke fp) m h = unbound-OneHost m _ _ (unrevoke-Unbinds fp m) h.in_memory
perform-OneHost reset m h = unbound-OneHost m _ _ (reset-Unbinds m) h.in_memory
perform-OneHost (tick timeout now) m h =
    same-OneHost (λ x. bound x m) _ (λ x. check_timeouts-fp_of x timeout now m) h.in_memory
perform-OneHost (stop_and_start i r) m h = elim (restart-bound i r m) [
  | inl k ↦ same-OneHost (λ x. file_fp_of x m) (λ x. bound x (restart i r m)) k h.in_file
  | inr k ↦ none-OneHost (λ x. bound x (restart i r m)) k
]
perform-OneHost (disk_is d) m h = h.in_memory

perform-OneHostEverywhere :
    (r : Request) (m : Module) → OneHostEverywhere m → OneHostEverywhere (perform r m)
perform-OneHostEverywhere r m h =
    let n = perform r m in
    let k = perform-Kept r m in
    let now = perform-OneHost r m h in
    record {
      trips = subst Trips (sym k.same_json) h.trips;
      in_memory = now;
      in_file = elim (k.follows h.trips) [
        | inl e ↦ same-OneHost (λ x. file_fp_of x m) (λ x. file_fp_of x n) e h.in_file
        | inr e ↦ same-OneHost (λ x. bound x n) (λ x. file_fp_of x n) e now
      ];
    }

-- Through any sequence of heartbeats, registrations, bindings, revocations, withdrawals of them, resets,
-- rounds of the monitor and restarts of the kernel, whichever reads and writes of the two files fail:
-- if no two hosts were bound to one certificate, in the memory and in the identity file, so it is
-- after, and `encoding/json` still reads back what it writes. It is assumed that it does.
pub perform_all-OneHost :
    (rs : List Request) (m : Module) → OneHostEverywhere m → OneHostEverywhere (perform_all rs m)
perform_all-OneHost [] m h = h
perform_all-OneHost (r ∷ rs) m h =
    perform_all-OneHost rs (perform r m) (perform-OneHostEverywhere r m h)

-- No restart, after which the two files may be of different times.
abbrev pub IsRunning : Request → Type 0
IsRunning (stop_and_start i r) = ⊥
IsRunning _ = Unit

abbrev pub AllRunning : List Request → Type 0
AllRunning [] = Unit
AllRunning (r ∷ rs) = IsRunning r × AllRunning rs

perform-NotRevoked :
    (r : Request) (m : Module) → IsRunning r → NotRevoked m → NotRevoked (perform r m)
unfolding record_heartbeat register_agent check_timeouts
perform-NotRevoked (beat host now) m i h =
    same-NotRevoked m (record_heartbeat host now m) (λ x. record_heartbeat-fp_of x host now m) refl
      h
perform-NotRevoked (enrol host hostname version now) m i h =
    same-NotRevoked m (register_agent host hostname version now m)
      (λ x. register_agent-fp_of x host hostname version now m) refl h
perform-NotRevoked (bind host fp) m i h = elim (bind_lem host fp m) [
  | inl e ↦ rw e h
  | inr b ↦ bound-NotRevoked host fp m (bind_agent_cert host fp m).1 b h
]
perform-NotRevoked (revoke fp reason now) m i h = elim (revoke_lem fp reason now m) [
  | inl e ↦ rw e h
  | inr u ↦ unbound-NotRevoked m (revoke_cert fp reason now m).1 _ u h
]
perform-NotRevoked (unrevoke fp) m i h = unbound-NotRevoked m _ _ (unrevoke-Unbinds fp m) h
perform-NotRevoked reset m i h = unbound-NotRevoked m _ _ (reset-Unbinds m) h
perform-NotRevoked (tick timeout now) m i h =
    same-NotRevoked m (check_timeouts timeout now m).1 (λ x. check_timeouts-fp_of x timeout now m)
      refl h
perform-NotRevoked (stop_and_start a b) m i h = absurd i
perform-NotRevoked (disk_is d) m i h = h

-- Through any sequence of operations of a kernel that is not restarted, whichever writes of the files
-- fail: if no host was bound to a revoked certificate before, none is after.
pub perform_all-NotRevoked :
    (rs : List Request) (m : Module) → AllRunning rs → NotRevoked m → NotRevoked (perform_all rs m)
perform_all-NotRevoked [] m i h = h
perform_all-NotRevoked (r ∷ rs) m i h =
    perform_all-NotRevoked rs (perform r m) i.1 (perform-NotRevoked r m i.0 h)
