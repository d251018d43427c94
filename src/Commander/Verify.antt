-- ===== src/Commander/Verify.antt =====
-- internal/agent/agent.go: how an agent checks the signature and the age of a command, against the
-- commands that internal/commander/commander.go makes. The hash, and the two directions of a time in
-- RFC 3339, are parameters; the key is read from the configuration, or else from the environment.
use asscor.Prelude.{
  ℕ, ◌+◌, ◌*◌, ◌≡◌, ◌≢◌, refl, Bool, true, false, not, List, [], ◌∷◌, ◌++◌, Option, none, some,
  if◌then◌else◌, Bytes, ltb, bytes_ltb, bytes_beq, bytes_beq_iff, bytes_eq, lookup, lookup-insert,
}
use asscor.Commander.{
  Params, Command, insert_key, sorted_keys, signed_text, timestamp, text_or, param_texts, sign,
  make_command,
}

abbrev pub is_empty : Bytes → Bool
is_empty [] = true
is_empty (c ∷ s) = false

abbrev pub agent_key : Bytes → Bytes → Bytes
agent_key configured environment = if is_empty configured then environment else configured

abbrev pub five_minutes : ℕ
five_minutes = 300 * 1000000000

-- The age of the command, in whole seconds of its time.
unfoldable pub fresh : (Bytes → Option ℕ) → ℕ → Option Bytes → Bool
fresh parse_time now none = false
fresh parse_time now (some ts) = elim (parse_time ts) [
  | none ↦ false
  | some t ↦ not (ltb (t + five_minutes) now)
]

insert_param : Bytes → List Bytes → List Bytes
insert_param k [] = k ∷ []
insert_param k (j ∷ ks) =
    let rest = insert_param k ks in if bytes_ltb j k then j ∷ rest else k ∷ j ∷ ks

-- `sortedParamKeys`.
sorted_param_keys : Params → List Bytes
unfolding insert_param
sorted_param_keys [] = []
sorted_param_keys ((k, v) ∷ ps) = insert_param k (sorted_param_keys ps)

written_params : Params → List Bytes → Bytes
written_params params [] = []
written_params params (k ∷ ks) =
    (58 ∷ k) ++ (61 ∷ text_or (lookup k params)) ++ written_params params ks

expected_text : Command → Bytes
unfolding sorted_param_keys written_params
expected_text cmd =
    cmd.command_id ++ (58 ∷ cmd.command) ++ written_params cmd.params (sorted_param_keys cmd.params)

module _ (hmac : Bytes → Bytes → Bytes) (parse_time : Bytes → Option ℕ) where
  -- `verifyCommandSignature`.
  unfoldable pub verify_command_signature : Bytes → ℕ → Command → Bool
  unfolding expected_text fresh
  verify_command_signature key now cmd =
      if is_empty cmd.signature
      then false
      else if is_empty key
      then false
      else if not (bytes_beq cmd.signature (hmac key (expected_text cmd)))
      then false
      else fresh parse_time now (lookup timestamp cmd.params)

-- Both sides write the same text.
insert_param-same : (k : Bytes) (ks : List Bytes) → insert_param k ks ≡ insert_key k ks
unfolding insert_param
insert_param-same k [] = refl
insert_param-same k (j ∷ ks) = rw (insert_param-same k ks) refl

sorted-same : (ps : Params) → sorted_param_keys ps ≡ sorted_keys ps
unfolding sorted_param_keys sorted_keys
sorted-same [] = refl
sorted-same ((k, v) ∷ ps) = rw (sorted-same ps) (insert_param-same k (sorted_keys ps))

written-same : (ps : Params) (ks : List Bytes) → written_params ps ks ≡ param_texts ps ks
unfolding written_params
written-same ps [] = refl
written-same ps (k ∷ ks) = rw (written-same ps ks) refl

expected-same :
    (cmd : Command) → expected_text cmd ≡ signed_text cmd.command_id cmd.command cmd.params
unfolding expected_text signed_text
expected-same cmd =
    rw (sorted-same cmd.params, written-same cmd.params (sorted_keys cmd.params)) refl

blank-no : (s : Bytes) → s ≢ [] → is_empty s ≡ false
blank-no [] h = absurd (h refl)
blank-no (c ∷ s) h = refl

-- A command that the kernel makes is accepted by an agent with the same key up to five minutes after the
-- second in which it was made, and is refused later: whatever its action and parameters are, where
-- the hash is not empty, the key neither, and a time that is written is read back in whole seconds.
pub verify-make_command :
    (hmac : Bytes → Bytes → Bytes) (format_time : ℕ → Bytes) (parse_time : Bytes → Option ℕ)
    (seconds : ℕ → ℕ) (key id action : Bytes) (params : Params) (sent now : ℕ)
    → ((k t : Bytes) → hmac k t ≢ [])
    → ((t : ℕ) → parse_time (format_time t) ≡ some (seconds t))
    → key ≢ []
    → verify_command_signature hmac parse_time key now
        (make_command hmac format_time key id action params sent)
      ≡ not (ltb (seconds sent + five_minutes) now)
unfolding verify_command_signature make_command sign fresh
verify-make_command hmac format_time parse_time seconds key id action params sent now full trip k =
    let cmd = make_command hmac format_time key id action params sent in
    rw
      (
        blank-no cmd.signature (full key _),
        blank-no key k,
        expected-same cmd,
        (bytes_beq_iff cmd.signature cmd.signature).1 refl,
        lookup-insert timestamp timestamp (format_time sent) params,
        trip sent,
      )
      refl
