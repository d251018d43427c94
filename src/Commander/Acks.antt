-- ===== src/Commander/Acks.antt =====
-- Sequences of calls of internal/commander/commander.go against its abstract view, and what becomes of
-- the acknowledgements of commands that were delivered.
use asscor.Prelude.{
  ℕ, ◌≡◌, refl, ◌∙◌, false, List, [], ◌∷◌, Option, none, some, if◌then◌else◌, Bytes, bytes_beq,
  bytes_eq, lookup, arith, subst, bytes_beq_iff,
}
use asscor.Commander.{
  Params, PendingCommand, Queue, Commander, enqueue_command, dequeue_commands, ack_command,
  ack_found, ack_pending, expire_stale_commands,
}
use asscor.Commander.Waiting.{
  waiting, in_queue, same_cmd, unless_expired, expire-waiting, dequeue-waiting, ack-waiting,
  enqueue-waiting, new_pending,
}

pub data Call : Type 0 where
  enqueue : Bytes → Bytes → Bytes → Params → ℕ → Call
  dequeue : Bytes → Call
  ack : Bytes → Bytes → Call
  expire : ℕ → Call

-- The commands that wait, by host and number.
abbrev pub Waiting : Type 0
Waiting = Bytes → Bytes → Option PendingCommand

module _ (hmac : Bytes → Bytes → Bytes) (format_time : ℕ → Bytes) where
  abbrev pub run_call : Call → Commander → Commander
  run_call (enqueue host id action params now) m =
      enqueue_command hmac format_time host id action params now m
  run_call (dequeue host) m = (dequeue_commands host m).1
  run_call (ack host id) m = (ack_command host id m).1
  run_call (expire now) m = expire_stale_commands now m

  abbrev pub run_calls : List Call → Commander → Commander
  run_calls [] m = m
  run_calls (c ∷ cs) m = run_calls cs (run_call c m)

  -- What a call does to the commands that wait, by a key and a time to live.
  abbrev pub waits_after : Bytes → ℕ → Call → Waiting → Waiting
  waits_after key ttl (enqueue host id action params now) w h i =
      if same_cmd host id h i
      then some (new_pending hmac format_time key id action params now)
      else w h i
  waits_after key ttl (dequeue host) w h i = if bytes_beq host h then none else w h i
  waits_after key ttl (ack host id) w h i = if same_cmd host id h i then none else w h i
  waits_after key ttl (expire now) w h i = unless_expired ttl now (w h i)

  abbrev pub waits_after_all : Bytes → ℕ → List Call → Waiting → Waiting
  waits_after_all key ttl [] w = w
  waits_after_all key ttl (c ∷ cs) w = waits_after_all key ttl cs (waits_after key ttl c w)

  call-key : (c : Call) (m : Commander) → (run_call c m).hmac_key ≡ m.hmac_key
  unfolding enqueue_command dequeue_commands ack_command expire_stale_commands
  call-key (enqueue host id action params now) m = refl
  call-key (dequeue host) m = ground arith
  call-key (ack host id) m = ground arith
  call-key (expire now) m = refl

  call-ttl : (c : Call) (m : Commander) → (run_call c m).cmd_ttl ≡ m.cmd_ttl
  unfolding enqueue_command dequeue_commands ack_command expire_stale_commands
  call-ttl (enqueue host id action params now) m = refl
  call-ttl (dequeue host) m = ground arith
  call-ttl (ack host id) m = ground arith
  call-ttl (expire now) m = refl

  call-waits :
      (c : Call) (m : Commander) (w : Waiting)
      → ((h i : Bytes) → waiting h i m ≡ w h i)
      → (h i : Bytes) → waiting h i (run_call c m) ≡ waits_after m.hmac_key m.cmd_ttl c w h i
  call-waits (enqueue host id action params now) m w e h i =
      rw⁻¹ (e h i) (enqueue-waiting hmac format_time h i host id action params now m)
  call-waits (dequeue host) m w e h i = rw⁻¹ (e h i) (dequeue-waiting h i host m)
  call-waits (ack host id) m w e h i = rw⁻¹ (e h i) (ack-waiting h i host id m)
  call-waits (expire now) m w e h i = rw⁻¹ (e h i) (expire-waiting h i now m)

  -- Through any sequence of calls, the commands that wait for each host, each under its number with its
  -- signature and its time, are the ones of the abstract view: a call enqueues one, takes all of one
  -- host, one that is acknowledged, or each that is too old, and leaves the others.
  pub run_calls-waits :
      (cs : List Call) (m : Commander) (h i : Bytes)
      → waiting h i (run_calls cs m)
        ≡ waits_after_all m.hmac_key m.cmd_ttl cs (λ host id. waiting host id m) h i
  run_calls-waits cs m h i = go cs m (λ host id. waiting host id m) (λ host id. refl)
    where
      go :
          (cs : List Call) (m : Commander) (w : Waiting)
          → ((h i : Bytes) → waiting h i m ≡ w h i)
          → waiting h i (run_calls cs m) ≡ waits_after_all m.hmac_key m.cmd_ttl cs w h i
      go [] m w e = e h i
      go (c ∷ cs) m w e =
          subst
            (λ k.
              waiting h i (run_calls (c ∷ cs) m)
              ≡ waits_after_all k m.cmd_ttl cs (waits_after m.hmac_key m.cmd_ttl c w) h i)
            (call-key c m)
            (subst
              (λ t.
                waiting h i (run_calls (c ∷ cs) m)
                ≡ waits_after_all (run_call c m).hmac_key t cs
                    (waits_after m.hmac_key m.cmd_ttl c w) h i)
              (call-ttl c m)
              (go cs (run_call c m) (waits_after m.hmac_key m.cmd_ttl c w) (call-waits c m w e)))

  -- A call that does not enqueue a command for the host under the number.
  abbrev pub NoneNew : Bytes → Bytes → Call → Type 0
  NoneNew h i (enqueue host id action params now) = same_cmd host id h i ≡ false
  NoneNew h i _ = Unit

  abbrev pub AllNoneNew : Bytes → Bytes → List Call → Type 0
  AllNoneNew h i [] = Unit
  AllNoneNew h i (c ∷ cs) = NoneNew h i c × AllNoneNew h i cs

  call-none :
      (c : Call) (m : Commander) (h i : Bytes)
      → NoneNew h i c
      → waiting h i m ≡ none
      → waiting h i (run_call c m) ≡ none
  call-none (enqueue host id action params now) m h i n e =
      enqueue-waiting hmac format_time h i host id action params now m ∙ rw n e
  call-none (dequeue host) m h i n e = dequeue-waiting h i host m ∙ ground (arith, e)
  call-none (ack host id) m h i n e = ack-waiting h i host id m ∙ ground (arith, e)
  call-none (expire now) m h i n e = expire-waiting h i now m ∙ rw e refl

  calls-none :
      (cs : List Call) (m : Commander) (h i : Bytes)
      → AllNoneNew h i cs
      → waiting h i m ≡ none
      → waiting h i (run_calls cs m) ≡ none
  calls-none [] m h i n e = e
  calls-none (c ∷ cs) m h i n e = calls-none cs (run_call c m) h i n.1 (call-none c m h i n.0 e)

  ack_none : (h i : Bytes) (m : Commander) → waiting h i m ≡ none → ack_command h i m ≡ (false, m)
  unfolding ack_command ack_found ack_pending
  ack_none h i m e = go (lookup h m.pending_cmds) e
    where
      go : (o : Option Queue) → in_queue i o ≡ none → ack_found h i o m ≡ (false, m)
      go none e = refl
      go (some q) e = rw e refl

  -- Once the commands of a host were delivered, no acknowledgement of one of them is known, so that
  -- neither `remediation.post_apply` nor `remediation.action_resolved` runs for it, whatever calls come
  -- between, as long as none of them enqueues a command for the host under the same number.
  pub ack_after_delivery :
      (h i : Bytes) (cs : List Call) (m : Commander)
      → AllNoneNew h i cs
      → (let n = run_calls cs (dequeue_commands h m).1 in ack_command h i n ≡ (false, n))
  ack_after_delivery h i cs m a =
      ack_none h i _
        (calls-none cs _ h i a (dequeue-waiting h i h m ∙ rw ((bytes_beq_iff h h).1 refl) refl))
