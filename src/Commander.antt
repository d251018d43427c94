-- ===== src/Commander.antt =====
-- internal/commander/commander.go: the commands that wait for each host. A command's number and the time
-- are read in a call and are its arguments; HMAC-SHA256 and the format of a time are parameters. A
-- handler that the extensions run is the answer of the call that runs it.
pub mod Waiting
pub mod Acks
pub mod Verify
pub mod Examples
use asscor.Prelude.{
  ℕ, ◌+◌, Bool, true, false, List, [], ◌∷◌, ◌++◌, Option, none, some, if◌then◌else◌, Bytes, ltb,
  bytes_ltb, bytes_eq, lookup, insert, remove,
}

abbrev pub Params : Type 0
Params = List (Bytes × Bytes)

pub record Command : Type 0 where
  pub command_id : Bytes
  pub command : Bytes
  pub params : Params
  pub signature : Bytes

pub record PendingCommand : Type 0 where
  pub cmd : Command
  pub enqueued_at : ℕ

abbrev pub Queue : Type 0
Queue = List (Bytes × PendingCommand)

pub record Commander : Type 0 where
  pub hmac_key : Bytes
  pub pending_cmds : List (Bytes × Queue)
  pub cmd_ttl : ℕ

abbrev pub insert_key : Bytes → List Bytes → List Bytes
insert_key k [] = k ∷ []
insert_key k (j ∷ ks) = let rest = insert_key k ks in if bytes_ltb j k then j ∷ rest else k ∷ j ∷ ks

-- `sortedKeys`.
unfoldable pub sorted_keys : Params → List Bytes
sorted_keys [] = []
sorted_keys ((k, v) ∷ ps) = insert_key k (sorted_keys ps)

abbrev pub text_or : Option Bytes → Bytes
text_or none = []
text_or (some t) = t

abbrev pub param_texts : Params → List Bytes → Bytes
param_texts params [] = []
param_texts params (k ∷ ks) = (58 ∷ k) ++ (61 ∷ text_or (lookup k params)) ++ param_texts params ks

-- What `sign` puts under the MAC: the number, the action and the parameters by their names.
unfoldable pub signed_text : Bytes → Bytes → Params → Bytes
unfolding sorted_keys
signed_text cmd_id action params =
    cmd_id ++ (58 ∷ action) ++ param_texts params (sorted_keys params)

abbrev queue_or : Option Queue → Queue
queue_or none = []
queue_or (some q) = q

abbrev pub timestamp : Bytes
timestamp = 95 ∷ 116 ∷ 105 ∷ 109 ∷ 101 ∷ 115 ∷ 116 ∷ 97 ∷ 109 ∷ 112 ∷ []

module _ (hmac : Bytes → Bytes → Bytes) (format_time : ℕ → Bytes) where
  unfoldable pub sign : Bytes → Bytes → Bytes → Params → Bytes
  unfolding signed_text
  sign key cmd_id action params = hmac key (signed_text cmd_id action params)

  unfoldable pub make_command : Bytes → Bytes → Bytes → Params → ℕ → Command
  unfolding sign
  make_command key cmd_id action params now =
      let full = insert timestamp (format_time now) params in
      record {
        command_id = cmd_id;
        command = action;
        params = full;
        signature = sign key cmd_id action full;
      }

  -- `EnqueueCommand`.
  unfoldable pub enqueue_command : Bytes → Bytes → Bytes → Params → ℕ → Commander → Commander
  unfolding make_command
  enqueue_command host cmd_id action params now m =
      let waits : PendingCommand = record {
        cmd = make_command m.hmac_key cmd_id action params now;
        enqueued_at = now;
      } in
      record m {
        pending_cmds =
            insert host (insert cmd_id waits (queue_or (lookup host m.pending_cmds)))
              m.pending_cmds;
      }

commands : Queue → List Command
commands [] = []
commands ((id, p) ∷ q) = p.cmd ∷ commands q

dequeue_found : Bytes → Option Queue → Commander → List Command × Commander
unfolding commands
dequeue_found host none m = ([], m)
dequeue_found host (some q) m = (commands q, record m { pending_cmds = remove host m.pending_cmds })

-- `DequeueCommands`.
unfoldable pub dequeue_commands : Bytes → Commander → List Command × Commander
unfolding dequeue_found
dequeue_commands host m = dequeue_found host (lookup host m.pending_cmds) m

-- `len(cmds) == 0`: the host's entry goes with its last command.
abbrev put_queue : Bytes → Queue → List (Bytes × Queue) → List (Bytes × Queue)
put_queue host [] all = remove host all
put_queue host (p ∷ q) all = insert host (p ∷ q) all

ack_pending : Bytes → Bytes → Queue → Option PendingCommand → Commander → Bool × Commander
ack_pending host cmd_id q none m = (false, m)
ack_pending host cmd_id q (some p) m =
    (true, record m { pending_cmds = put_queue host (remove cmd_id q) m.pending_cmds })

ack_found : Bytes → Bytes → Option Queue → Commander → Bool × Commander
unfolding ack_pending
ack_found host cmd_id none m = (false, m)
ack_found host cmd_id (some q) m = ack_pending host cmd_id q (lookup cmd_id q) m

-- `AckCommand`: whether the command was known, so that the handlers of `remediation.post_apply` and
-- `remediation.action_resolved` run.
unfoldable pub ack_command : Bytes → Bytes → Commander → Bool × Commander
unfolding ack_found
ack_command host cmd_id m = ack_found host cmd_id (lookup host m.pending_cmds) m

abbrev pub is_expired : ℕ → ℕ → PendingCommand → Bool
is_expired ttl now p = ltb (p.enqueued_at + ttl) now

unfoldable pub expire_queue : ℕ → ℕ → Queue → Queue
expire_queue ttl now [] = []
expire_queue ttl now ((id, p) ∷ q) =
    let rest = expire_queue ttl now q in
    if is_expired ttl now p then remove id rest else (id, p) ∷ rest

abbrev keep_queue : Bytes → Queue → List (Bytes × Queue) → List (Bytes × Queue)
keep_queue host [] rest = remove host rest
keep_queue host (p ∷ q) rest = (host, p ∷ q) ∷ rest

unfoldable pub expire_all : ℕ → ℕ → List (Bytes × Queue) → List (Bytes × Queue)
unfolding expire_queue
expire_all ttl now [] = []
expire_all ttl now ((host, q) ∷ rest) =
    keep_queue host (expire_queue ttl now q) (expire_all ttl now rest)

-- `expireStaleCommands`.
unfoldable pub expire_stale_commands : ℕ → Commander → Commander
unfolding expire_all
expire_stale_commands now m = record m { pending_cmds = expire_all m.cmd_ttl now m.pending_cmds }
