-- ===== src/SecureMode/Startup/Accepts.antt =====
-- When `Startup` of internal/securemode/controller.go succeeds.
use asscor.Prelude.{
  ◌≡◌, sym, ap, ◌∙◌, inl, inr, ◌↔◌, Bool, true, false, ◌||◌, ◌&&◌, not, List, [], ◌∷◌, Option, none,
  some, arith, Bool-cases, Bytes, bytes_beq, bytes_beq_iff,
}
use asscor.SecureMode.Marker.{
  mode_default, mode_run, is_mode, FileContent, missing, unreadable, content, Marked, marked,
  io_error, corrupt, read_marker, read_marker_sound,
}
use asscor.SecureMode.Startup.{
  VaultState, Refusal, started, any_residue, half_state, any_half_state, outcome, start_marked,
  startup,
}

-- A vault that agrees with a mode: without a ciphertext, or the ciphertext alone in run mode with
-- a password verifier.
abbrev pub agrees : Bytes → Bool → VaultState → Bool
agrees mode verifier v = not v.has_enc || not v.has_plain && (bytes_beq mode mode_run && verifier)

abbrev pub all_agree : Bytes → Bool → List VaultState → Bool
all_agree mode verifier [] = true
all_agree mode verifier (v ∷ vs) = agrees mode verifier v && all_agree mode verifier vs

one_agrees :
    (mode : Bytes) (verifier : Bool) (v : VaultState)
    → is_mode mode ≡ true
    → ((v.has_plain && v.has_enc ≡ false) × (half_state mode verifier v ≡ none))
      ↔ (agrees mode verifier v ≡ true)
one_agrees mode verifier v h =
    ground (arith, bytes_beq_iff mode mode_default, bytes_beq_iff mode mode_run)

all_agree_iff :
    (mode : Bytes) (verifier : Bool) (vs : List VaultState)
    → is_mode mode ≡ true
    → ((any_residue vs ≡ false) × (any_half_state mode verifier vs ≡ none))
      ↔ (all_agree mode verifier vs ≡ true)
all_agree_iff mode verifier [] h = ground arith
all_agree_iff mode verifier (v ∷ vs) h =
    ground (arith, one_agrees mode verifier v h, all_agree_iff mode verifier vs h)

outcome-started :
    (mode m : Bytes) (o : Option Refusal) → outcome mode o ≡ started m → (mode ≡ m) × (o ≡ none)
outcome-started mode m none e = ground arith
outcome-started mode m (some r) e = ground arith

started_parts :
    (mode : Bytes) (verifier : Bool) (vs : List VaultState) (m : Bytes)
    → start_marked (marked mode) verifier vs ≡ started m
    → (marked mode ≡ marked m) × (any_residue vs ≡ false) × (any_half_state m verifier vs ≡ none)
started_parts mode verifier vs m e = elim (Bool-cases (any_residue vs)) [
  | inl t ↦ ground arith
  | inr f ↦
      let parts = outcome-started mode m (any_half_state mode verifier vs) (ground arith) in
      (ap marked parts.0, f, ap (λ c. any_half_state c verifier vs) (sym parts.0) ∙ parts.1)
]

start-marked :
    (read : Marked) (verifier : Bool) (vs : List VaultState) (m : Bytes)
    → (start_marked read verifier vs ≡ started m)
      ↔ ((read ≡ marked m) × (any_residue vs ≡ false) × (any_half_state m verifier vs ≡ none))
start-marked (marked mode) verifier vs m =
    (λ e. started_parts mode verifier vs m e, λ h. ground (arith, h.0, h.1, h.2))
start-marked io_error verifier vs m = ground arith
start-marked (corrupt c) verifier vs m = ground arith

read_marker-is_mode :
    (sha : Bytes → Bytes) (file : FileContent) (m : Bytes)
    → read_marker sha file ≡ marked m
    → is_mode m ≡ true
unfolding read_marker
read_marker-is_mode sha missing m e = ground (arith, bytes_beq_iff m mode_default)
read_marker-is_mode sha unreadable m e = ground arith
read_marker-is_mode sha (content data') m e = (read_marker_sound sha data' m e).1

-- Startup succeeds with a mode exactly if the marker file reads as that mode and every vault agrees with
-- it: it has no ciphertext, or it has the ciphertext alone while the mode is `run` and a password
-- verifier exists.
pub startup_accepts :
    (sha : Bytes → Bytes) (file : FileContent) (verifier : Bool) (vs : List VaultState) (m : Bytes)
    → (startup sha file verifier vs ≡ started m)
      ↔ ((read_marker sha file ≡ marked m) × (all_agree m verifier vs ≡ true))
unfolding startup
startup_accepts sha file verifier vs m =
    let read = start-marked (read_marker sha file) verifier vs m in
    (
      λ e.
          let h = read.0 e in
          (h.0, (all_agree_iff m verifier vs (read_marker-is_mode sha file m h.0)).0 (h.1, h.2)),
      λ h.
          let parts = (all_agree_iff m verifier vs (read_marker-is_mode sha file m h.0)).1 h.1 in
          read.1 (h.0, parts.0, parts.1),
    )
