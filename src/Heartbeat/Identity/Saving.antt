-- ===== src/Heartbeat/Identity/Saving.antt =====
-- What each operation of internal/heartbeat/heartbeat.go does to the bindings, to the revocations and to
-- the identity file.
use asscor.Prelude.{
  ℕ, ◌≡◌, refl, sym, ◌∙◌, ap, Bool, true, false, not, ◌||◌, inl, inr, ◌⊎◌, List, [], none,
  if◌then◌else◌, Bytes, bytes_beq, bytes_beq_iff, bytes_eq, lookup, insert, remove, lookup-insert,
  lookup-remove, Bool-cases, arith, subst,
}
use asscor.Heartbeat.Certs.{
  bind_agent_cert, unbind, revoke_cert, unrevoke_cert, reset_identity_bindings,
}
use asscor.Heartbeat.{
  Module, is_blank, is_there, record_heartbeat, register_agent, restart, save_revoked,
  load_identity_file,
}
use asscor.Heartbeat.Monitor.{check_timeouts}
use asscor.Heartbeat.Bindings.{fp_of, unbind-fp_of}
use asscor.Heartbeat.Restart.{
  Trips, file_fp_of, save_identity-SameMemory, save_revoked-SameMemory, save_revoked-file,
}
use asscor.Heartbeat.Identity.{
  Request, beat, enrol, bind, revoke, unrevoke, reset, tick, stop_and_start, disk_is, perform,
  bound, bind_lem, FileFollows, save-FileFollows,
}

-- What a call did that unbinds the hosts whose fingerprints satisfy a test, and that leaves the
-- fingerprints that do not satisfy it as little revoked as they were.
pub record Unbinds (p : Bytes → Bool) (m n : Module) : Type 0 where
  pub now_bound : (x : Bytes) → bound x n ≡ (if p (bound x m) then [] else bound x m)
  pub still_free : (f : Bytes) → p f ≡ false → lookup f m.revoked ≡ none → lookup f n.revoked ≡ none
  pub same_json : n.json ≡ m.json
  pub follows : Trips m.json → FileFollows m n

nothing-Unbinds : (m : Module) → Unbinds (λ f. false) m m
nothing-Unbinds m = record {
  now_bound = λ x. refl;
  still_free = λ f e l. l;
  same_json = refl;
  follows = λ t. inl (λ x. refl);
}

revoke-free :
    {A : Type 0} (fp f : Bytes) (rc : A) (rs : List (Bytes × A))
    → bytes_beq f fp ≡ false
    → lookup f rs ≡ none
    → lookup f (insert fp rc rs) ≡ none
revoke-free fp f rc rs e l = rw lookup-insert (elim (Bool-cases (bytes_beq fp f)) [
  | inl z ↦ absurd (cc (e, (bytes_beq_iff f fp).1 (sym ((bytes_beq_iff fp f).0 z))))
  | inr z ↦ rw z l
])

pub revoke_lem :
    (fp reason : Bytes) (now : ℕ) (m : Module)
    → ((revoke_cert fp reason now m).1 ≡ m)
      ⊎ Unbinds (λ f. bytes_beq f fp) m (revoke_cert fp reason now m).1
unfolding revoke_cert
revoke_lem fp reason now m = elim (Bool-cases (is_blank fp || is_there (lookup fp m.revoked))) [
  | inl q ↦ inl (rw q refl)
  | inr q ↦
      let n : Module = record m {
        agents = unbind (λ f. bytes_beq f fp) m.agents;
        revoked =
            insert fp (record { fingerprint = fp; reason = reason; revoked_at = now }) m.revoked;
      } in
      let a = save_revoked-SameMemory n in
      let b = save_identity-SameMemory (save_revoked n) in
      inr (
        rw q (record {
          now_bound = λ x.
              ap (fp_of x) (b.same_agents ∙ a.same_agents)
              ∙ unbind-fp_of x (λ f. bytes_beq f fp) m.agents;
          still_free = λ f e l.
              rw (b.same_revocations, a.same_revocations) (revoke-free fp f _ m.revoked e l);
          same_json = b.same_library ∙ a.same_library;
          follows = λ t.
              save-FileFollows m (save_revoked n) (λ x. save_revoked-file x n)
                (subst Trips (sym a.same_library) t);
        }))
]

pub unrevoke-Unbinds : (fp : Bytes) (m : Module) → Unbinds (λ f. false) m (unrevoke_cert fp m).1
unfolding unrevoke_cert
unrevoke-Unbinds fp m = elim (Bool-cases (is_blank fp || not (is_there (lookup fp m.revoked)))) [
  | inl q ↦ rw q (nothing-Unbinds m)
  | inr q ↦
      let n : Module = record m { revoked = remove fp m.revoked } in
      let a = save_revoked-SameMemory n in
      rw q (record {
        now_bound = λ x. ap (fp_of x) a.same_agents;
        still_free =
            λ f e l. rw a.same_revocations (ground (arith, lookup-remove fp f m.revoked, l));
        same_json = a.same_library;
        follows = λ t. inl (λ x. save_revoked-file x n);
      })
]

pub reset-Unbinds : (m : Module) → Unbinds (λ f. not (is_blank f)) m (reset_identity_bindings m)
unfolding reset_identity_bindings
reset-Unbinds m =
    let n : Module = record m { agents = unbind (λ f. not (is_blank f)) m.agents } in
    let a = save_identity-SameMemory n in
    record {
      now_bound = λ x. ap (fp_of x) a.same_agents ∙ unbind-fp_of x (λ f. not (is_blank f)) m.agents;
      still_free = λ f e l. rw a.same_revocations l;
      same_json = a.same_library;
      follows = save-FileFollows m n (λ x. refl);
    }

-- A restart finds the bindings of the file, or none.
pub restart-bound :
    (i r : Bool) (m : Module)
    → ((x : Bytes) → bound x (restart i r m) ≡ file_fp_of x m)
      ⊎ ((x : Bytes) → bound x (restart i r m) ≡ [])
unfolding restart load_identity_file lookup
restart-bound true r m = inl (λ x. refl)
restart-bound false r m = inr (λ x. refl)

pub restart-readable :
    (r : Bool) (m : Module) (x : Bytes) → bound x (restart true r m) ≡ file_fp_of x m
unfolding restart
restart-readable r m x = refl

-- No operation changes the library, and after each the identity file holds what it held, or the
-- bindings as they are then.
pub record Kept (m n : Module) : Type 0 where
  pub same_json : n.json ≡ m.json
  pub follows : Trips m.json → FileFollows m n

file-Kept :
    (m n : Module) → n.json ≡ m.json → ((x : Bytes) → file_fp_of x n ≡ file_fp_of x m) → Kept m n
file-Kept m n j k = record { same_json = j; follows = λ t. inl k }

itself-Kept : (m n : Module) → n ≡ m → Kept m n
itself-Kept m n e = file-Kept m n (ap (λ x. x.json) e) (λ x. ap (file_fp_of x) e)

pub perform-Kept : (r : Request) (m : Module) → Kept m (perform r m)
unfolding record_heartbeat register_agent check_timeouts restart
perform-Kept (beat host now) m = file-Kept m _ refl (λ x. refl)
perform-Kept (enrol host hostname version now) m = file-Kept m _ refl (λ x. refl)
perform-Kept (bind host fp) m = elim (bind_lem host fp m) [
  | inl e ↦ itself-Kept m (bind_agent_cert host fp m).1 e
  | inr b ↦ record { same_json = b.same_json; follows = b.follows }
]
perform-Kept (revoke fp reason now) m = elim (revoke_lem fp reason now m) [
  | inl e ↦ itself-Kept m (revoke_cert fp reason now m).1 e
  | inr b ↦ record { same_json = b.same_json; follows = b.follows }
]
perform-Kept (unrevoke fp) m =
    let b = unrevoke-Unbinds fp m in record { same_json = b.same_json; follows = b.follows }
perform-Kept reset m =
    let b = reset-Unbinds m in record { same_json = b.same_json; follows = b.follows }
perform-Kept (tick timeout now) m = file-Kept m _ refl (λ x. refl)
perform-Kept (stop_and_start i r) m = file-Kept m _ refl (λ x. refl)
perform-Kept (disk_is d) m = file-Kept m _ refl (λ x. refl)
