-- ===== src/SecureMode/Disk/Rules.antt =====
-- What holds of the files through a run, whatever the system answers: rules that follow the code.
use asscor.Prelude.{
  ℕ, length, Bool, true, false, if◌then◌else◌, ◌≡◌, refl, List, [], ◌∷◌, Option, none, some, Bytes,
  All, bytes_eq,
}
use asscor.SecureMode.Memory.{Memory}
use asscor.SecureMode.Crypt.{Result, ok, err, Random}
use asscor.SecureMode.Disk.{
  Files, Fault, works, Outcome, done, failed, World, Io, and_then, ◌>>=◌, pure, fail, undo, or_undo,
  of_result, answered, call_with, call, get_memory, put_memory, settled, attempt,
}

abbrev pub Post : {A : Type 0} → (A → Files → Type 0) → Outcome A → Files → Type 0
Post Q (done a) fs = Q a fs
Post Q (failed e) fs = Unit

abbrev pub SizedBy : ℕ → Option Bytes → Type 0
SizedBy n none = Unit
SizedBy n (some b) = length b ≡ n

-- The sizes in which `Encrypt` and `Set` read the system's randomness.
abbrev pub IsSized : Random → Type 0
IsSized r =
    SizedBy 16 r.fresh_salt
    × SizedBy 32 r.fresh_key
    × SizedBy 12 r.fresh_env_nonce
    × SizedBy 12 r.fresh_pay_nonce

-- The states that the files went through, and the randomness to come.
abbrev pub History : (Files → Type 0) → World → Type 0
History I w = All I w.seen × All IsSized w.random

-- After a run: the invariant held at every moment, it holds at the end, and so does the
-- postcondition if the run did not fail.
pub record Safe {A : Type 0} (I : Files → Type 0) (Q : A → Files → Type 0) (r : Outcome A × World)
    : Type 0 where
  pub always : History I r.1
  pub last : I r.1.files
  pub post : Post Q r.0 r.1.files

-- A run from files with the invariant and the precondition.
pub record Ensures {A : Type 0} (I P : Files → Type 0) (m : Io A) (Q : A → Files → Type 0)
    : Type 0 where
  pub run : (w : World) → History I w → I w.files → P w.files → Safe I Q (m w)

-- One call of the system from files with the invariant and the precondition.
abbrev pub Answers :
    {A : Type 0}
    → (Files → Type 0)
    → (Files → Type 0)
    → (A → Files → Type 0)
    → (Fault → Files → Outcome A × Files)
    → Type 0
Answers I P Q op =
    (f : Fault) (fs : Files) → I fs → P fs → I (op f fs).1 × Post Q (op f fs).0 (op f fs).1

record Call {A : Type 0} (I P : Files → Type 0) (Q : A → Files → Type 0)
    (op : Fault → Files → Outcome A × Files) : Type 0 where
  answer : Answers I P Q op

module _ {I : Files → Type 0} where
  Safe-and_then :
      {A B : Type 0} {Q : A → Files → Type 0} {R : B → Files → Type 0} (r : Outcome A × World)
      (f : A → Io B)
      → Safe I Q r
      → ((a : A) → Ensures I (Q a) (f a) R)
      → Safe I R (and_then r f)
  Safe-and_then (done a, w) f s k = (k a).run w s.always s.last s.post
  Safe-and_then (failed e, w) f s k = record { always = s.always; last = s.last; post = tt }

  pub bind-Ensures :
      {A B : Type 0} {P : Files → Type 0} {Q : A → Files → Type 0} {R : B → Files → Type 0}
      {m : Io A} {f : A → Io B}
      → Ensures I P m Q
      → ((a : A) → Ensures I (Q a) (f a) R)
      → Ensures I P (m >>= f) R
  bind-Ensures {m = m} {f = f} h k = record {
    run = λ w a l p. Safe-and_then (m w) f (h.run w a l p) k;
  }

  Safe-undo :
      {A : Type 0} {Q : A → Files → Type 0} (r : Outcome A × World) (k : Io (Unit {0}))
      → Safe I Q r
      → Ensures I (λ _. Unit) k (λ _ _. Unit)
      → Safe I Q (undo r k)
  Safe-undo (done a, w) k s h = s
  Safe-undo (failed e, w) k s h =
      let t = h.run w s.always s.last tt in record { always = t.always; last = t.last; post = tt }

  pub or_undo-Ensures :
      {A : Type 0} {P : Files → Type 0} {Q : A → Files → Type 0} {m : Io A} {k : Io (Unit {0})}
      → Ensures I P m Q
      → Ensures I (λ _. Unit) k (λ _ _. Unit)
      → Ensures I P (or_undo m k) Q
  or_undo-Ensures {m = m} {k = k} h u = record {
    run = λ w a l p. Safe-undo (m w) k (h.run w a l p) u;
  }

  Safe-answered :
      {A : Type 0} {Q : A → Files → Type 0} (r : Outcome A × Files) (rest : List Fault) (w : World)
      → History I w
      → I r.1 × Post Q r.0 r.1
      → Safe I Q (answered rest r w)
  Safe-answered (o, fs) rest w a h = record { always = ((h.0, a.0), a.1); last = h.0; post = h.1 }

  Safe-call_with :
      {A : Type 0} {P : Files → Type 0} {Q : A → Files → Type 0}
      {op : Fault → Files → Outcome A × Files} (faults : List Fault) (w : World)
      → Call I P Q op
      → History I w
      → I w.files
      → P w.files
      → Safe I Q (call_with op faults w)
  Safe-call_with {op = op} [] w h a l p =
      Safe-answered (op works w.files) [] w a (h.answer works w.files l p)
  Safe-call_with {op = op} (f ∷ fs) w h a l p =
      Safe-answered (op f w.files) fs w a (h.answer f w.files l p)

  pub call-Ensures :
      {A : Type 0} {P : Files → Type 0} {Q : A → Files → Type 0}
      (op : Fault → Files → Outcome A × Files)
      → Answers I P Q op
      → Ensures I P (call op) Q
  call-Ensures op h = record {
    run = λ w a l p. Safe-call_with w.faults w (record { answer = h }) a l p;
  }

  pub pure-Ensures :
      {A : Type 0} {P : Files → Type 0} {Q : A → Files → Type 0} {a : A}
      → ((fs : Files) → I fs → P fs → Q a fs)
      → Ensures I P (pure a) Q
  pure-Ensures h = record { run = λ w a l p. record { always = a; last = l; post = h w.files l p } }

  pub fail-Ensures :
      {A : Type 0} {P : Files → Type 0} {Q : A → Files → Type 0} {e : _} → Ensures I P (fail e) Q
  fail-Ensures = record { run = λ w a l p. record { always = a; last = l; post = tt } }

  pub get-Ensures : {P : Files → Type 0} → Ensures I P get_memory (λ _ fs. P fs)
  get-Ensures = record { run = λ w a l p. record { always = a; last = l; post = p } }

  pub put-Ensures : {P : Files → Type 0} (m : Memory) → Ensures I P (put_memory m) (λ _ fs. P fs)
  put-Ensures m = record { run = λ w a l p. record { always = a; last = l; post = p } }

  Safe-settled :
      {A : Type 0} {Q : A → Files → Type 0} (r : Outcome A × World)
      → Safe I Q r
      → Safe I (Post Q) (settled r)
  Safe-settled (o, w) s = record { always = s.always; last = s.last; post = s.post }

  pub attempt-Ensures :
      {A : Type 0} {P : Files → Type 0} {Q : A → Files → Type 0} {m : Io A}
      → Ensures I P m Q
      → Ensures I P (attempt m) (Post Q)
  attempt-Ensures {m = m} h = record { run = λ w a l p. Safe-settled (m w) (h.run w a l p) }

  pub of_result-Ensures :
      {A : Type 0} {P : Files → Type 0} {Q : A → Files → Type 0} (r : Result A)
      → ((a : A) (fs : Files) → r ≡ ok a → P fs → Q a fs)
      → Ensures I P (of_result r) Q
  of_result-Ensures (ok a) h = pure-Ensures λ fs l p. h a fs refl p
  of_result-Ensures (err e) h = fail-Ensures

-- A weaker postcondition.
Post-weaker :
    {A : Type 0} {Q R : A → Files → Type 0} (o : Outcome A) (fs : Files)
    → ((a : A) (gs : Files) → Q a gs → R a gs)
    → Post Q o fs
    → Post R o fs
Post-weaker (done a) fs k h = k a fs h
Post-weaker (failed e) fs k h = tt

module _ {I P : Files → Type 0} {A : Type 0} {m : Io A} {Q : A → Files → Type 0} where
  -- A precondition that says more.
  pub weaken-Ensures :
      (R : Files → Type 0) → ((fs : Files) → P fs → R fs) → Ensures I R m Q → Ensures I P m Q
  weaken-Ensures R k h = record { run = λ w a l p. h.run w a l (k w.files p) }

  -- A fact that a precondition gives, whatever the files are.
  pub given-Ensures :
      (φ : Type 0) → ((fs : Files) → P fs → φ) → (φ → Ensures I P m Q) → Ensures I P m Q
  given-Ensures φ k h = record { run = λ w a l p. (h (k w.files p)).run w a l p }

  -- The invariant is a precondition.
  pub known-Ensures : Ensures I (λ fs. P fs × I fs) m Q → Ensures I P m Q
  known-Ensures h = record { run = λ w a l p. h.run w a l (p, l) }

  pub post-Ensures :
      {R : A → Files → Type 0}
      → ((a : A) (fs : Files) → Q a fs → R a fs)
      → Ensures I P m Q
      → Ensures I P m R
  post-Ensures {R} k h = record {
    run = λ w a l p.
        let s = h.run w a l p in
        record {
          always = s.always;
          last = s.last;
          post = Post-weaker {Q = Q} {R = R} (m w).0 (m w).1.files k s.post;
        };
  }

pub if-Ensures :
    {I P : Files → Type 0} {A : Type 0} {m n : Io A} {Q : A → Files → Type 0} (b : Bool)
    → Ensures I P m Q
    → Ensures I P n Q
    → Ensures I P (if b then m else n) Q
if-Ensures true h k = h
if-Ensures false h k = k
