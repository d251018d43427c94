-- ===== src/SecureMode/Disk/Calls.antt =====
-- The rules of the single calls, of a private file and of a replaced file.
use asscor.Prelude.{
  ◌≡◌, refl, sym, ◌∙◌, subst, List, [], ◌∷◌, Option, none, some, Bytes, All, lookup, insert, remove,
  lookup-insert_self, bytes_eq, take,
}
use mathlib.Core.Option.{some-injective}
use asscor.SecureMode.Crypt.{Random}
use asscor.SecureMode.Disk.{
  Files, works, refused, torn, World, call, read_call, write_call, touch_call, rename_call,
  remove_call, dir_call, read_file, write_file, rename_file, remove_file, sync_file, sync_dir,
  write_private, tmp_of, replace_file, drawn, draw, found, touched, moved, removed,
}
use asscor.SecureMode.Disk.Rules.{
  IsSized, Post, Safe, Ensures, Answers, bind-Ensures, or_undo-Ensures, call-Ensures,
}

-- A predicate that does not look at one path.
abbrev pub Ignores : Bytes → (Files → Type 0) → Type 0
Ignores p P =
    ((fs : Files) (b : Bytes) → P fs → P (insert p b fs)) × ((fs : Files) → P fs → P (remove p fs))

abbrev pub Held : Bytes → Bytes → Files → Type 0
Held p b fs = lookup p fs ≡ some b

-- What removing a file needs: the file was there.
abbrev pub Removal : (I P : Files → Type 0) → Bytes → (Unit {0} → Files → Type 0) → Type 0
Removal I P p Q =
    (fs : Files) (b : Bytes) → I fs → P fs → Held p b fs → I (remove p fs) × Q tt (remove p fs)

-- What a rename needs.
abbrev pub Move : (I P : Files → Type 0) → Bytes → Bytes → (Unit {0} → Files → Type 0) → Type 0
Move I P p q Q =
    (fs : Files) (b : Bytes)
    → I fs
    → P fs
    → Held p b fs
    → I (insert q b (remove p fs)) × Q tt (insert q b (remove p fs))

module _ (I P : Files → Type 0) where
  read_outcome :
      (p : Bytes) (fs : Files) (o : Option Bytes)
      → lookup p fs ≡ o
      → P fs
      → Post (λ b gs. P gs × Held p b gs) (found o) fs
  read_outcome p fs none e h = tt
  read_outcome p fs (some b) e h = (h, e)

  touch_outcome : (fs : Files) (o : Option Bytes) → P fs → Post (λ _ gs. P gs) (touched o) fs
  touch_outcome fs none h = tt
  touch_outcome fs (some b) h = h

  remove_outcome :
      (Q : Unit {0} → Files → Type 0) (p : Bytes) (fs : Files) (o : Option Bytes)
      → lookup p fs ≡ o
      → I fs
      → P fs
      → Removal I P p Q
      → I (removed p o fs).1 × Post Q (removed p o fs).0 (removed p o fs).1
  remove_outcome Q p fs none e i h k = (i, tt)
  remove_outcome Q p fs (some b) e i h k = k fs b i h e

  move_outcome :
      (Q : Unit {0} → Files → Type 0) (p q : Bytes) (fs : Files) (o : Option Bytes)
      → lookup p fs ≡ o
      → I fs
      → P fs
      → Move I P p q Q
      → I (moved p q o fs).1 × Post Q (moved p q o fs).0 (moved p q o fs).1
  move_outcome Q p q fs none e i h k = (i, tt)
  move_outcome Q p q fs (some b) e i h k = k fs b i h e

  read-answers : (p : Bytes) → Answers I P (λ b fs. P fs × Held p b fs) (read_call p)
  read-answers p works fs i h = (i, read_outcome p fs (lookup p fs) refl h)
  read-answers p refused fs i h = (i, tt)
  read-answers p (torn n) fs i h = (i, tt)

  touch-answers : (p : Bytes) → Answers I P (λ _ fs. P fs) (touch_call p)
  touch-answers p works fs i h = (i, touch_outcome fs (lookup p fs) h)
  touch-answers p refused fs i h = (i, tt)
  touch-answers p (torn n) fs i h = (i, tt)

  dir-answers : Answers I P (λ _ fs. P fs) dir_call
  dir-answers works fs i h = (i, h)
  dir-answers refused fs i h = (i, tt)
  dir-answers (torn n) fs i h = (i, tt)

  write-answers :
      (p b : Bytes)
      → Ignores p I
      → Ignores p P
      → Answers I P (λ _ fs. P fs × Held p b fs) (write_call p b)
  write-answers p b k l works fs i h = (k.0 fs b i, (l.0 fs b h, lookup-insert_self p b fs))
  write-answers p b k l refused fs i h = (i, tt)
  write-answers p b k l (torn n) fs i h = (k.0 fs (take n b) i, tt)

  remove-answers :
      (Q : Unit {0} → Files → Type 0) (p : Bytes) → Removal I P p Q → Answers I P Q (remove_call p)
  remove-answers Q p k works fs i h = remove_outcome Q p fs (lookup p fs) refl i h k
  remove-answers Q p k refused fs i h = (i, tt)
  remove-answers Q p k (torn n) fs i h = (i, tt)

  rename-answers :
      (Q : Unit {0} → Files → Type 0) (p q : Bytes)
      → Move I P p q Q
      → Answers I P Q (rename_call p q)
  rename-answers Q p q k works fs i h = move_outcome Q p q fs (lookup p fs) refl i h k
  rename-answers Q p q k refused fs i h = (i, tt)
  rename-answers Q p q k (torn n) fs i h = (i, tt)

module _ {I P : Files → Type 0} where
  pub read-Ensures : (p : Bytes) → Ensures I P (read_file p) (λ b fs. P fs × Held p b fs)
  unfolding read_file
  read-Ensures p = call-Ensures (read_call p) (read-answers I P p)

  pub touch-Ensures : (p : Bytes) → Ensures I P (call (touch_call p)) (λ _ fs. P fs)
  touch-Ensures p = call-Ensures (touch_call p) (touch-answers I P p)

  pub sync_dir-Ensures : Ensures I P sync_dir (λ _ fs. P fs)
  unfolding sync_dir
  sync_dir-Ensures = call-Ensures dir_call (dir-answers I P)

  pub write-Ensures :
      (p b : Bytes)
      → Ignores p I
      → Ignores p P
      → Ensures I P (write_file p b) (λ _ fs. P fs × Held p b fs)
  unfolding write_file
  write-Ensures p b k l = call-Ensures (write_call p b) (write-answers I P p b k l)

  pub remove-Ensures :
      {Q : Unit {0} → Files → Type 0} (p : Bytes) → Removal I P p Q → Ensures I P (remove_file p) Q
  unfolding remove_file
  remove-Ensures {Q} p k = call-Ensures (remove_call p) (remove-answers I P Q p k)

  pub rename-Ensures :
      {Q : Unit {0} → Files → Type 0} (p q : Bytes)
      → Move I P p q Q
      → Ensures I P (rename_file p q) Q
  unfolding rename_file
  rename-Ensures {Q} p q k = call-Ensures (rename_call p q) (rename-answers I P Q p q k)

drawn-Safe :
    {I P : Files → Type 0} (rs : List Random) (w : World)
    → All I w.seen
    → All IsSized rs
    → I w.files
    → P w.files
    → w.random ≡ rs
    → Safe I (λ r fs. P fs × IsSized r) (drawn rs w)
drawn-Safe [] w a z i h e = record { always = (a, rw e tt); last = i; post = (h, (tt, tt, tt, tt)) }
drawn-Safe (r ∷ rs) w a z i h e = record { always = (a, z.1); last = i; post = (h, z.0) }

pub draw-Ensures : {I P : Files → Type 0} → Ensures I P draw (λ r fs. P fs × IsSized r)
unfolding draw
draw-Ensures {I} {P} = record { run = λ w a i h. drawn-Safe {P = P} w.random w a.0 a.1 i h refl }

-- Removing a file that the invariant ignores.
pub tidy-Ensures :
    {I : Files → Type 0} (p : Bytes)
    → Ignores p I
    → Ensures I (λ _. Unit) (remove_file p) (λ _ _. Unit)
tidy-Ensures p k = remove-Ensures p λ fs b i h e. (k.1 fs i, tt)

module _ {I P : Files → Type 0} where
  pub sync-Ensures : (p : Bytes) → Ensures I P (sync_file p) (λ _ fs. P fs)
  unfolding sync_file
  sync-Ensures p = bind-Ensures (touch-Ensures p) λ _. touch-Ensures p

  pub write_private-Ensures :
      (p b : Bytes)
      → Ignores p I
      → Ignores p P
      → Ensures I P (write_private p b) (λ _ fs. P fs × Held p b fs)
  unfolding write_private
  write_private-Ensures p b k l = bind-Ensures (write-Ensures p b k l) λ _. touch-Ensures p

module _ {I P : Files → Type 0} where
  -- A replaced file: the invariant is asked about one moment, when the new content takes its place.
  pub replace-Ensures :
      {Q : Files → Type 0} (p b : Bytes)
      → Ignores (tmp_of p) I
      → Ignores (tmp_of p) P
      → ((fs : Files)
          → I fs
          → P fs
          → I (insert p b (remove (tmp_of p) fs)) × Q (insert p b (remove (tmp_of p) fs)))
      → Ensures I P (replace_file p b) (λ _. Q)
  unfolding replace_file
  replace-Ensures {Q} p b k l commit = bind-Ensures (write_private-Ensures (tmp_of p) b k l) λ _.
      bind-Ensures
        (or_undo-Ensures (sync-Ensures {P = λ fs. P fs × Held (tmp_of p) b fs} (tmp_of p))
          (tidy-Ensures (tmp_of p) k))
        λ _.
          bind-Ensures
            (or_undo-Ensures
              (rename-Ensures {P = λ fs. P fs × Held (tmp_of p) b fs} (tmp_of p) p λ fs c i h e.
                subst
                  (λ d.
                    I (insert p d (remove (tmp_of p) fs)) × Q (insert p d (remove (tmp_of p) fs)))
                  (some-injective b c (sym h.1 ∙ e)) (commit fs i h.0))
              (tidy-Ensures (tmp_of p) k))
            λ _. sync_dir-Ensures
