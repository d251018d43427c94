-- ===== src/SecureMode/Disk.antt =====
-- The calls of package `os` that internal/securemode makes, on files whose every call may fail, and
-- `syncFile`, `writeFile0600` and the atomic replacement that internal/securemode writes out at each
-- of its places. A process may be killed between any two calls: what it then leaves is in `seen`.
pub mod Calls
pub mod Rules
use asscor.Prelude.{
  ℕ, Bool, List, [], ◌∷◌, ◌++◌, Option, none, some, Bytes, codes, take, if◌then◌else◌, lookup,
  insert, remove, bytes_eq,
}
use asscor.SecureMode.Memory.{Memory}
use asscor.SecureMode.Crypt.{Result, ok, err, CryptError, Random}

abbrev pub Files : Type 0
Files = List (Bytes × Bytes)

-- The system's answer to one call: `torn` is a write that stops after some bytes.
pub data Fault : Type 0 where
  works refused : Fault
  torn : ℕ → Fault

pub data Failure : Type 0 where
  missing io_failed mismatch no_verifier_salt empty_password : Failure
  debugged wrong_password tampered not_run_mode no_vault registry_invalid bad_mode no_password :
      Failure
  crypt_failed : CryptError → Failure
  restored : Failure → Failure
  not_restored : Failure → Failure → Failure

pub data Outcome {ℓ} (A : Type ℓ) : Type ℓ where
  done : A → Outcome A
  failed : Failure → Outcome A

-- The files, the answers and the randomness to come, what the files were after each call, the last
-- first, and the process's memory.
pub record World : Type 0 where
  pub files : Files
  pub faults : List Fault
  pub random : List Random
  pub seen : List Files
  pub memory : Memory

abbrev pub Io : Type 0 → Type 0
Io A = World → Outcome A × World

abbrev pub and_then : {A B : Type 0} → Outcome A × World → (A → Io B) → Outcome B × World
and_then (done a, w) f = f a w
and_then (failed e, w) f = (failed e, w)

infixl 5 ◌>>=◌ ◌>>◌
abbrev pub ◌>>=◌ : {A B : Type 0} → Io A → (A → Io B) → Io B
◌>>=◌ m f w = and_then (m w) f

abbrev pub ◌>>◌ : {B : Type 0} → Io (Unit {0}) → Io B → Io B
m >> k = m >>= λ _. k

abbrev pub pure : {A : Type 0} → A → Io A
pure a w = (done a, w)

abbrev pub fail : {A : Type 0} → Failure → Io A
fail e w = (failed e, w)

abbrev pub undone : {A : Type 0} → Failure → Outcome (Unit {0}) × World → Outcome A × World
undone e (o, w) = (failed e, w)

abbrev pub undo : {A : Type 0} → Outcome A × World → Io (Unit {0}) → Outcome A × World
undo (done a, w) k = (done a, w)
undo (failed e, w) k = undone e (k w)

-- `if err := m; err != nil { k; return err }`, where the result of `k` is not looked at.
abbrev pub or_undo : {A : Type 0} → Io A → Io (Unit {0}) → Io A
or_undo m k w = undo (m w) k

abbrev pub of_result : {A : Type 0} → Result A → Io A
of_result (ok a) = pure a
of_result (err e) = fail (crypt_failed e)

abbrev pub answered : {A : Type 0} → List Fault → Outcome A × Files → World → Outcome A × World
answered rest (o, fs) w = (o, record w { files = fs; faults = rest; seen = fs ∷ w.seen })

abbrev pub call_with :
    {A : Type 0} → (Fault → Files → Outcome A × Files) → List Fault → World → Outcome A × World
call_with op [] w = answered [] (op works w.files) w
call_with op (f ∷ fs) w = answered fs (op f w.files) w

-- One call of the system.
abbrev pub call : {A : Type 0} → (Fault → Files → Outcome A × Files) → Io A
call op w = call_with op w.faults w

abbrev pub found : Option Bytes → Outcome Bytes
found none = failed missing
found (some b) = done b

abbrev pub read_call : Bytes → Fault → Files → Outcome Bytes × Files
read_call p works fs = (found (lookup p fs), fs)
read_call p _ fs = (failed io_failed, fs)

abbrev pub write_call : Bytes → Bytes → Fault → Files → Outcome (Unit {0}) × Files
write_call p b works fs = (done tt, insert p b fs)
write_call p b refused fs = (failed io_failed, fs)
write_call p b (torn n) fs = (failed io_failed, insert p (take n b) fs)

-- A call that changes nothing but needs the file: opening and `Sync`, or `os.Chmod`.
abbrev pub touched : Option Bytes → Outcome (Unit {0})
touched none = failed missing
touched (some b) = done tt

abbrev pub touch_call : Bytes → Fault → Files → Outcome (Unit {0}) × Files
touch_call p works fs = (touched (lookup p fs), fs)
touch_call p _ fs = (failed io_failed, fs)

abbrev pub moved : Bytes → Bytes → Option Bytes → Files → Outcome (Unit {0}) × Files
moved p q none fs = (failed missing, fs)
moved p q (some b) fs = (done tt, insert q b (remove p fs))

abbrev pub rename_call : Bytes → Bytes → Fault → Files → Outcome (Unit {0}) × Files
rename_call p q works fs = moved p q (lookup p fs) fs
rename_call p q _ fs = (failed io_failed, fs)

abbrev pub removed : Bytes → Option Bytes → Files → Outcome (Unit {0}) × Files
removed p none fs = (failed missing, fs)
removed p (some b) fs = (done tt, remove p fs)

abbrev pub remove_call : Bytes → Fault → Files → Outcome (Unit {0}) × Files
remove_call p works fs = removed p (lookup p fs) fs
remove_call p _ fs = (failed io_failed, fs)

abbrev pub dir_call : Fault → Files → Outcome (Unit {0}) × Files
dir_call works fs = (done tt, fs)
dir_call _ fs = (failed io_failed, fs)

unfoldable pub read_file : Bytes → Io Bytes
read_file p = call (read_call p)

unfoldable pub write_file : Bytes → Bytes → Io (Unit {0})
write_file p b = call (write_call p b)

unfoldable pub rename_file : Bytes → Bytes → Io (Unit {0})
rename_file p q = call (rename_call p q)

unfoldable pub remove_file : Bytes → Io (Unit {0})
remove_file p = call (remove_call p)

-- `syncFile`: the file is opened, then synced.
unfoldable pub sync_file : Bytes → Io (Unit {0})
sync_file p = call (touch_call p) >> call (touch_call p)

unfoldable pub sync_dir : Io (Unit {0})
sync_dir = call dir_call

-- `writeFile0600`.
unfoldable pub write_private : Bytes → Bytes → Io (Unit {0})
unfolding write_file
write_private p b = write_file p b >> call (touch_call p)

abbrev pub tmp_of : Bytes → Bytes
tmp_of p = p ++ codes ".tmp"

-- A private file written beside its path, synced, renamed to the path, and the directory synced: the
-- end of `RotatePassword`, `ReencryptOverwrite`, `persistSecretsLocked`, `WriteMarker` and `Set`.
unfoldable pub replace_file : Bytes → Bytes → Io (Unit {0})
unfolding write_private sync_file rename_file remove_file sync_dir
replace_file p b = do
  write_private (tmp_of p) b
  or_undo (sync_file (tmp_of p)) (remove_file (tmp_of p))
  or_undo (rename_file (tmp_of p) p) (remove_file (tmp_of p))
  sync_dir

abbrev pub drawn : List Random → World → Outcome Random × World
drawn [] w = (
  done (record {
    fresh_salt = none;
    fresh_key = none;
    fresh_env_nonce = none;
    fresh_pay_nonce = none;
  }),
  w,
)
drawn (r ∷ rs) w = (done r, record w { random = rs })

-- The randomness of one encryption; none is left where the list ends.
unfoldable pub draw : Io Random
draw w = drawn w.random w

abbrev pub get_memory : Io Memory
get_memory w = (done w.memory, w)

abbrev pub put_memory : Memory → Io (Unit {0})
put_memory m w = (done tt, record w { memory = m })

abbrev pub settled : {A : Type 0} → Outcome A × World → Outcome (Outcome A) × World
settled (o, w) = (done o, w)

-- The outcome of a run, where the caller looks at the error.
abbrev pub attempt : {A : Type 0} → Io A → Io (Outcome A)
attempt m w = settled (m w)
