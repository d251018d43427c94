-- ===== src/SecureMode/Marker.antt =====
-- The mode marker of internal/securemode/state.go. A mode is its text; SHA-256 is a parameter.
use asscor.Prelude.{
  ℕ, ◌+◌, ◌%◌, ◌≡◌, sym, ap, ap₂, ◌∙◌, Bool, true, false, ◌||◌, not, [], ◌∷◌, ◌++◌, arith, ltb,
  ◌==◌, if◌then◌else◌, Bytes, codes, bytes_beq, bytes_beq_iff, length, take, drop, length-append,
  take-append-drop, length-take_le, take-append_left, drop-append_left,
}

abbrev pub mode_default : Bytes
mode_default = codes "default"

abbrev pub mode_run : Bytes
mode_run = codes "run"

abbrev pub is_mode : Bytes → Bool
is_mode m = bytes_beq m mode_default || bytes_beq m mode_run

-- What `os.ReadFile` returns.
pub data FileContent : Type 0 where
  missing unreadable : FileContent
  content : Bytes → FileContent

pub data Corruption : Type 0 where
  truncated malformed hash_mismatch unsupported_version unknown_mode : Corruption

pub data Marked : Type 0 where
  marked : Bytes → Marked
  io_error : Marked
  corrupt : Corruption → Marked

module _ (sha : Bytes → Bytes) where
  -- `markerHash`.
  unfoldable pub marker_hash : ℕ → Bytes → Bytes
  marker_hash version mode = sha (version ∷ (length mode % 256) ∷ mode)

  -- The payload of `WriteMarker`, for a valid mode.
  unfoldable pub marker_payload : Bytes → Bytes
  marker_payload mode = 1 ∷ (length mode % 256) ∷ (mode ++ marker_hash 1 mode)

  -- `ReadMarker` behind the check of the lengths.
  unfoldable pub check_marker : ℕ → Bytes → Bytes → Marked
  check_marker version mode hash =
      if not (bytes_beq hash (marker_hash version mode))
      then corrupt hash_mismatch
      else if not (version == 1)
      then corrupt unsupported_version
      else if not (is_mode mode)
      then corrupt unknown_mode
      else marked mode

  read_content : Bytes → Marked
  read_content [] = corrupt truncated
  read_content (version ∷ []) = corrupt truncated
  read_content (version ∷ mode_len ∷ rest) =
      if ltb (2 + length rest) 34
      then corrupt truncated
      else if ltb mode_len 1 || not (2 + mode_len + 32 == 2 + length rest)
      then corrupt malformed
      else check_marker version (take mode_len rest) (drop mode_len rest)

  -- `ReadMarker`.
  unfoldable pub read_marker : FileContent → Marked
  unfolding read_content
  read_marker missing = marked mode_default
  read_marker unreadable = io_error
  read_marker (content data') = read_content data'

  check_marker-marked :
      (version : ℕ) (mode hash m : Bytes)
      → check_marker version mode hash ≡ marked m
      → (version ≡ 1) × (mode ≡ m) × (hash ≡ marker_hash 1 m) × (is_mode m ≡ true)
  unfolding check_marker
  check_marker-marked version mode hash m e =
      ground (arith, bytes_beq_iff hash (marker_hash version mode))

  read_content-marked :
      (version n : ℕ) (rest m : Bytes)
      → read_content (version ∷ n ∷ rest) ≡ marked m
      → (n + 32 ≡ length rest) × (check_marker version (take n rest) (drop n rest) ≡ marked m)
  unfolding read_content
  read_content-marked version n rest m e = ground arith

  mode_length : (m : Bytes) → is_mode m ≡ true → length m % 256 ≡ length m
  mode_length m v = ground (arith, bytes_beq_iff m mode_default, bytes_beq_iff m mode_run)

  mode_positive : (m : Bytes) → is_mode m ≡ true → ltb (length m) 1 ≡ false
  mode_positive m v = ground (arith, bytes_beq_iff m mode_default, bytes_beq_iff m mode_run)

  hash_size : (m : Bytes) → ((s : Bytes) → length (sha s) ≡ 32) → length (marker_hash 1 m) ≡ 32
  unfolding marker_hash
  hash_size m sized = sized _

  taken_length :
      (n : ℕ) (rest m : Bytes)
      → n + 32 ≡ length rest
      → take n rest ≡ m
      → is_mode m ≡ true
      → length m % 256 ≡ n
  taken_length n rest m sizes em v =
      mode_length m v ∙ sym (ap length em) ∙ length-take_le n rest (omega arith)

  payload_of :
      (version n : ℕ) (rest m : Bytes)
      → n + 32 ≡ length rest
      → (version ≡ 1) × (take n rest ≡ m) × (drop n rest ≡ marker_hash 1 m) × (is_mode m ≡ true)
      → version ∷ n ∷ rest ≡ marker_payload m
  unfolding marker_payload
  payload_of version n rest m sizes parts =
      let tail = sym (take-append-drop n rest) ∙ ap₂ (λ a b. a ++ b) parts.1 parts.2 in
      rw parts.0 (rw (taken_length n rest m sizes parts.1 parts.3) (ap (λ r. 1 ∷ n ∷ r) tail))

  -- A marker file is accepted as a mode only if it is, byte for byte, what `WriteMarker` writes for
  -- that mode, and the mode is `default` or `run`: any other content is an error.
  pub read_marker_sound :
      (data' m : Bytes)
      → read_marker (content data') ≡ marked m
      → (data' ≡ marker_payload m) × (is_mode m ≡ true)
  unfolding read_marker
  read_marker_sound [] m e = cc
  read_marker_sound (version ∷ []) m e = cc
  read_marker_sound (version ∷ n ∷ rest) m e =
      let read = read_content-marked version n rest m e in
      let parts = check_marker-marked version (take n rest) (drop n rest) m read.1 in
      (payload_of version n rest m read.0 parts, parts.3)

  -- What `WriteMarker` writes for a mode, `ReadMarker` reads as that mode.
  pub read_marker_complete :
      (m : Bytes)
      → ((s : Bytes) → length (sha s) ≡ 32)
      → is_mode m ≡ true
      → read_marker (content (marker_payload m)) ≡ marked m
  unfolding read_marker marker_payload read_content check_marker
  read_marker_complete m sized v = rw (mode_length m v) (
      rw (take-append_left m (marker_hash 1 m)) (
        rw (drop-append_left m (marker_hash 1 m)) (
          rw (length-append m (marker_hash 1 m)) (
            ground (
              arith,
              hash_size m sized,
              mode_positive m v,
              bytes_beq_iff (marker_hash 1 m) (marker_hash 1 m),
              v,
            )))))
