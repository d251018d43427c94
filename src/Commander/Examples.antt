-- ===== src/Commander/Examples.antt =====
-- Witnesses of the theorems on internal/commander/commander.go, with a MAC that is the text itself.
use asscor.Prelude.{
  ℕ, ◌≡◌, refl, false, List, [], ◌∷◌, Option, none, some, Bytes, bytes_eq, lookup, bytes_ltb,
}
use asscor.Commander.{Params, Commander, signed_text, sorted_keys, dequeue_commands, ack_command}
use asscor.Commander.{make_command}
use asscor.Commander.Verify.{verify_command_signature, verify-make_command, five_minutes}
use asscor.Prelude.{◌≢◌, ◌+◌, ltb, not}
use asscor.Commander.Waiting.{waiting}
use asscor.Commander.Acks.{
  Call, enqueue, ack, expire, run_calls, waits_after_all, run_calls-waits, ack_after_delivery,
}

abbrev text_mac : Bytes → Bytes → Bytes
text_mac key text = text

abbrev no_time : ℕ → Bytes
no_time t = []

abbrev idle : Commander
idle = record { hmac_key = 7 ∷ []; pending_cmds = []; cmd_ttl = 100 }

abbrev host_a : Bytes
host_a = 97 ∷ []

abbrev id_1 : Bytes
id_1 = 49 ∷ []

abbrev id_2 : Bytes
id_2 = 50 ∷ []

abbrev two_commands : List Call
two_commands =
    enqueue host_a id_1 (98 ∷ []) [] 5
    ∷ enqueue host_a id_2 (98 ∷ []) [] 90
    ∷ expire 150
    ∷ ack host_a id_2
    ∷ []

run_calls-waits_example :
    waiting host_a id_1 (run_calls text_mac no_time two_commands idle)
    ≡ waits_after_all text_mac no_time idle.hmac_key idle.cmd_ttl two_commands
        (λ host id. waiting host id idle)
        host_a
        id_1
run_calls-waits_example = run_calls-waits text_mac no_time two_commands idle host_a id_1

abbrev enqueued : Commander
enqueued = run_calls text_mac no_time (enqueue host_a id_1 (98 ∷ []) [] 5 ∷ []) idle

-- The agent of host a takes its command and acknowledges it, while another one is enqueued.
ack_after_delivery_example :
    (let n =
        run_calls text_mac no_time
          (enqueue host_a id_2 (98 ∷ []) [] 6 ∷ [])
          (dequeue_commands host_a enqueued).1 in
      ack_command host_a id_1 n ≡ (false, n))
ack_after_delivery_example =
    ack_after_delivery text_mac no_time host_a id_1 (enqueue host_a id_2 (98 ∷ []) [] 6 ∷ [])
      enqueued (refl, tt)

abbrev one_param : Params
one_param = (97 ∷ [], 49 ∷ 58 ∷ 98 ∷ 61 ∷ 50 ∷ []) ∷ []

abbrev marked_mac : Bytes → Bytes → Bytes
marked_mac key text = 1 ∷ text

abbrev as_number : ℕ → Bytes
as_number t = t ∷ []

abbrev read_number : Bytes → Option ℕ
read_number [] = none
read_number (t ∷ s) = some t

key-some : ◌≢◌ {A = Bytes} (7 ∷ []) []
key-some e = cc e

verify-make_command_example :
    verify_command_signature marked_mac read_number
      (7 ∷ [])
      9
      (make_command marked_mac as_number (7 ∷ []) id_1 (98 ∷ []) one_param 5)
    ≡ not (ltb (5 + five_minutes) 9)
verify-make_command_example =
    verify-make_command marked_mac as_number read_number (λ t. t) (7 ∷ []) id_1 (98 ∷ []) one_param
      5 9 (λ k t. λ e. cc e) (λ t. refl) key-some

-- Two sets of parameters with one text under the MAC: a=1:b=2, and a=1 with b=2.
abbrev two_params : Params
two_params = (98 ∷ [], 50 ∷ []) ∷ (97 ∷ [], 49 ∷ []) ∷ []

same_text : signed_text id_1 host_a one_param ≡ signed_text id_1 host_a two_params
unfolding signed_text sorted_keys lookup bytes_ltb
same_text = refl
