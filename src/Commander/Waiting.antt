-- ===== src/Commander/Waiting.antt =====
-- The abstract view of internal/commander/commander.go: which command waits for a host under a number.
use asscor.Prelude.{
  ℕ, ◌≡◌, refl, sym, ◌∙◌, ap, Bool, true, ◌&&◌, inl, inr, List, [], ◌∷◌, Option, none, some,
  if◌then◌else◌, Bytes, bytes_beq, bytes_beq_iff, bytes_eq, lookup, insert, remove, lookup-insert,
  lookup-remove, Bool-cases,
}
use asscor.Commander.{
  Params, PendingCommand, Queue, Commander, queue_or, put_queue, keep_queue, is_expired,
  expire_queue, expire_all, make_command, enqueue_command, dequeue_commands, dequeue_found,
  ack_command, ack_found, ack_pending, expire_stale_commands,
}

abbrev pub in_queue : Bytes → Option Queue → Option PendingCommand
in_queue id none = none
in_queue id (some q) = lookup id q

abbrev pub waits_in : Bytes → Bytes → List (Bytes × Queue) → Option PendingCommand
waits_in host id all = in_queue id (lookup host all)

abbrev pub waiting : Bytes → Bytes → Commander → Option PendingCommand
waiting host id m = waits_in host id m.pending_cmds

in_queue_or : (id : Bytes) (o : Option Queue) → lookup id (queue_or o) ≡ in_queue id o
unfolding lookup
in_queue_or id none = refl
in_queue_or id (some q) = refl

insert-waits :
    (h i host : Bytes) (q : Queue) (all : List (Bytes × Queue))
    → waits_in h i (insert host q all) ≡ (if bytes_beq host h then lookup i q else waits_in h i all)
insert-waits h i host q all =
    rw lookup-insert
      (elim (Bool-cases (bytes_beq host h)) [ inl e ↦ rw e refl | inr e ↦ rw e refl ])

remove-waits :
    (h i host : Bytes) (all : List (Bytes × Queue))
    → waits_in h i (remove host all) ≡ (if bytes_beq host h then none else waits_in h i all)
remove-waits h i host all =
    rw lookup-remove
      (elim (Bool-cases (bytes_beq host h)) [ inl e ↦ rw e refl | inr e ↦ rw e refl ])

put_queue-waits :
    (h i host : Bytes) (q : Queue) (all : List (Bytes × Queue))
    → waits_in h i (put_queue host q all)
      ≡ (if bytes_beq host h then lookup i q else waits_in h i all)
unfolding lookup
put_queue-waits h i host [] all = remove-waits h i host all
put_queue-waits h i host (p ∷ q) all = insert-waits h i host (p ∷ q) all

-- What is too old goes.
abbrev pub unless_expired : ℕ → ℕ → Option PendingCommand → Option PendingCommand
unless_expired ttl now none = none
unless_expired ttl now (some p) = if is_expired ttl now p then none else some p

expire_queue-lookup :
    (i : Bytes) (ttl now : ℕ) (q : Queue)
    → lookup i (expire_queue ttl now q) ≡ unless_expired ttl now (lookup i q)
unfolding expire_queue lookup
expire_queue-lookup i ttl now [] = refl
expire_queue-lookup i ttl now ((id, p) ∷ q) = elim (Bool-cases (is_expired ttl now p)) [
  | inl e ↦
      rw (e, lookup-remove id i (expire_queue ttl now q))
        (elim (Bool-cases (bytes_beq id i)) [
          | inl z ↦ rw z (rw e refl)
          | inr z ↦ rw z (expire_queue-lookup i ttl now q)
        ])
  | inr e ↦ rw e (elim (Bool-cases (bytes_beq id i)) [
    | inl z ↦ rw z (rw e refl)
    | inr z ↦ rw z (expire_queue-lookup i ttl now q)
  ])
]

keep_queue-waits :
    (h i host : Bytes) (q : Queue) (rest : List (Bytes × Queue))
    → waits_in h i (keep_queue host q rest)
      ≡ (if bytes_beq host h then lookup i q else waits_in h i rest)
unfolding lookup
keep_queue-waits h i host [] rest = remove-waits h i host rest
keep_queue-waits h i host (p ∷ q) rest = elim (Bool-cases (bytes_beq host h)) [
  | inl e ↦ rw e refl
  | inr e ↦ rw e refl
]

expire_all-waits :
    (h i : Bytes) (ttl now : ℕ) (all : List (Bytes × Queue))
    → waits_in h i (expire_all ttl now all) ≡ unless_expired ttl now (waits_in h i all)
unfolding expire_all lookup
expire_all-waits h i ttl now [] = refl
expire_all-waits h i ttl now ((host, q) ∷ rest) =
    keep_queue-waits h i host (expire_queue ttl now q) (expire_all ttl now rest)
    ∙ elim (Bool-cases (bytes_beq host h)) [
      | inl e ↦ rw e (expire_queue-lookup i ttl now q)
      | inr e ↦ rw e (expire_all-waits h i ttl now rest)
    ]

pub expire-waiting :
    (h i : Bytes) (now : ℕ) (m : Commander)
    → waiting h i (expire_stale_commands now m) ≡ unless_expired m.cmd_ttl now (waiting h i m)
unfolding expire_stale_commands
expire-waiting h i now m = expire_all-waits h i m.cmd_ttl now m.pending_cmds

pub dequeue-waiting :
    (h i host : Bytes) (m : Commander)
    → waiting h i (dequeue_commands host m).1 ≡ (if bytes_beq host h then none else waiting h i m)
unfolding dequeue_commands dequeue_found
dequeue-waiting h i host m = go (lookup host m.pending_cmds) refl
  where
    go :
        (o : Option Queue)
        → lookup host m.pending_cmds ≡ o
        → waiting h i (dequeue_found host o m).1
          ≡ (if bytes_beq host h then none else waiting h i m)
    go (some q) e = remove-waits h i host m.pending_cmds
    go none e = elim (Bool-cases (bytes_beq host h)) [
      | inl z ↦
          rw z
            (ap (λ x. waits_in x i m.pending_cmds) (sym ((bytes_beq_iff host h).0 z)) ∙ rw e refl)
      | inr z ↦ rw z refl
    ]

abbrev pub same_cmd : Bytes → Bytes → Bytes → Bytes → Bool
same_cmd host id h i = bytes_beq host h && bytes_beq id i

at_cmd :
    (h i host : Bytes) (m : Commander)
    → bytes_beq host h ≡ true
    → waiting h i m ≡ in_queue i (lookup host m.pending_cmds)
at_cmd h i host m z = ap (λ x. waits_in x i m.pending_cmds) (sym ((bytes_beq_iff host h).0 z))

ack_pending-waiting :
    (h i host id : Bytes) (m : Commander) (q : Queue) (o : Option PendingCommand)
    → lookup host m.pending_cmds ≡ some q
    → lookup id q ≡ o
    → waiting h i (ack_pending host id q o m).1
      ≡ (if same_cmd host id h i then none else waiting h i m)
unfolding ack_pending
ack_pending-waiting h i host id m q none e k = elim (Bool-cases (bytes_beq host h)) [
  | inl z ↦ elim (Bool-cases (bytes_beq id i)) [
    | inl y ↦
        rw (z, y)
          (at_cmd h i host m z
            ∙ (ap (in_queue i) e ∙ (ap (λ x. lookup x q) (sym ((bytes_beq_iff id i).0 y)) ∙ k)))
    | inr y ↦ rw (z, y) refl
  ]
  | inr z ↦ rw z refl
]
ack_pending-waiting h i host id m q (some p) e k =
    put_queue-waits h i host (remove id q) m.pending_cmds ∙ elim (Bool-cases (bytes_beq host h)) [
      | inl z ↦
          rw (z, lookup-remove id i q)
            (elim (Bool-cases (bytes_beq id i)) [
              | inl y ↦ rw y refl
              | inr y ↦ rw y (sym (at_cmd h i host m z ∙ ap (in_queue i) e))
            ])
      | inr z ↦ rw z refl
    ]

ack_found-waiting :
    (h i host id : Bytes) (m : Commander) (o : Option Queue)
    → lookup host m.pending_cmds ≡ o
    → waiting h i (ack_found host id o m).1 ≡ (if same_cmd host id h i then none else waiting h i m)
unfolding ack_found
ack_found-waiting h i host id m (some q) e =
    ack_pending-waiting h i host id m q (lookup id q) e refl
ack_found-waiting h i host id m none e = elim (Bool-cases (bytes_beq host h)) [
  | inl z ↦ elim (Bool-cases (bytes_beq id i)) [
    | inl y ↦ rw (z, y) (at_cmd h i host m z ∙ ap (in_queue i) e)
    | inr y ↦ rw (z, y) refl
  ]
  | inr z ↦ rw z refl
]

pub ack-waiting :
    (h i host id : Bytes) (m : Commander)
    → waiting h i (ack_command host id m).1 ≡ (if same_cmd host id h i then none else waiting h i m)
unfolding ack_command
ack-waiting h i host id m = ack_found-waiting h i host id m (lookup host m.pending_cmds) refl

module _ (hmac : Bytes → Bytes → Bytes) (format_time : ℕ → Bytes) where
  abbrev pub new_pending : Bytes → Bytes → Bytes → Params → ℕ → PendingCommand
  new_pending key id action params now = record {
    cmd = make_command hmac format_time key id action params now;
    enqueued_at = now;
  }

  pub enqueue-waiting :
      (h i host id action : Bytes) (params : Params) (now : ℕ) (m : Commander)
      → waiting h i (enqueue_command hmac format_time host id action params now m) ≡ (
          if same_cmd host id h i
          then some (new_pending m.hmac_key id action params now)
          else waiting h i m)
  unfolding enqueue_command
  enqueue-waiting h i host id action params now m =
      insert-waits h i host _ m.pending_cmds ∙ elim (Bool-cases (bytes_beq host h)) [
        | inl z ↦
            rw
              (
                z,
                lookup-insert id i (new_pending m.hmac_key id action params now)
                    (queue_or (lookup host m.pending_cmds)),
              )
              (elim (Bool-cases (bytes_beq id i)) [
                | inl y ↦ rw y refl
                | inr y ↦
                    rw y (in_queue_or i (lookup host m.pending_cmds) ∙ sym (at_cmd h i host m z))
              ])
        | inr z ↦ rw z refl
      ]
