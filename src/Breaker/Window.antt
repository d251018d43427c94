-- ===== src/Breaker/Window.antt =====
-- The sliding window of internal/kernel/circuitbreaker.go.
use asscor.Prelude.{
  ℕ, zero, suc, ◌+◌, ◌-◌, ◌≤◌, ◌≡◌, refl, ap, ◌∙◌, Bool, not, List, [], ◌∷◌, ◌++◌, arith, ltb,
  if◌then◌else◌, length, drop, keep, count_if, length-drop, length-append,
}
use asscor.Breaker.Defs.{WindowEntry, CircuitRecord, max_window_size}

-- The window cut to its last `max_window_size` entries.
unfoldable pub trim : List WindowEntry → List WindowEntry
trim w = if ltb max_window_size (length w) then drop (length w - max_window_size) w else w

-- `addEntry`.
unfoldable pub add_entry : ℕ → Bool → CircuitRecord → CircuitRecord
unfolding trim
add_entry now success r = record r {
  window = trim (r.window ++ record { timestamp = now; success = success } ∷ []);
}

-- `pruneWindow`: the loop that advances `idx`. `timestamp.Before(now - windowSize)` is written
-- without a subtraction.
unfoldable pub drop_old : ℕ → ℕ → List WindowEntry → List WindowEntry
drop_old size now [] = []
drop_old size now (e ∷ w) =
    let rest = drop_old size now w in if ltb (e.timestamp + size) now then rest else e ∷ w

unfoldable pub prune_window : ℕ → ℕ → CircuitRecord → CircuitRecord
unfolding drop_old
prune_window size now r = record r { window = drop_old size now r.window }

-- The two counts of `stats`, after its pruning.
unfoldable pub count_failures : List WindowEntry → ℕ
count_failures = count_if (λ e. not e.success)

unfoldable pub count_successes : List WindowEntry → ℕ
count_successes = count_if (λ e. e.success)

unfoldable pub stats : ℕ → ℕ → CircuitRecord → CircuitRecord × (ℕ × ℕ)
unfolding prune_window count_failures count_successes
stats size now r =
    let r' = prune_window size now r in (r', (count_failures r'.window, count_successes r'.window))

trim_bound : (w : List WindowEntry) → length (trim w) ≤ max_window_size
unfolding trim
trim_bound w = ground (arith, length-drop (length w - max_window_size) w)

-- `addEntry` never leaves more than 1000 entries, whatever stood in the window before.
pub add_entry_bound :
    (now : ℕ) (success : Bool) (r : CircuitRecord)
    → length (add_entry now success r).window ≤ max_window_size
unfolding add_entry
add_entry_bound now success r = trim_bound (r.window ++ _)

-- It adds at most one entry.
pub add_entry_grows :
    (now : ℕ) (success : Bool) (r : CircuitRecord)
    → length (add_entry now success r).window ≤ suc (length r.window)
unfolding add_entry trim
add_entry_grows now success r =
    let w = r.window ++ record { timestamp = now; success = success } ∷ [] in
    ground (
      arith,
      length-drop (length w - max_window_size) w,
      length-append r.window (record { timestamp = now; success = success } ∷ []),
    )

drop_old_shorter : (size now : ℕ) (w : List WindowEntry) → length (drop_old size now w) ≤ length w
unfolding drop_old
drop_old_shorter size now [] = omega arith
drop_old_shorter size now (e ∷ w) = ground (arith, drop_old_shorter size now w)

pub prune_window_bound :
    (size now n : ℕ) (r : CircuitRecord)
    → length r.window ≤ n
    → length (prune_window size now r).window ≤ n
unfolding prune_window
prune_window_bound size now n r h = omega (arith, drop_old_shorter size now r.window)

-- The timestamps lie between two times and do not fall along the list.
abbrev pub IsTimed : ℕ → ℕ → List WindowEntry → Type 0
IsTimed t now [] = t ≤ now
IsTimed t now (e ∷ w) = (t ≤ e.timestamp) × IsTimed e.timestamp now w

IsTimed-earlier : (t u now : ℕ) (w : List WindowEntry) → u ≤ t → IsTimed t now w → IsTimed u now w
IsTimed-earlier t u now [] h o = omega arith
IsTimed-earlier t u now (e ∷ w) h o = (omega arith, o.1)

pub IsTimed-later :
    (t now later : ℕ) (w : List WindowEntry) → now ≤ later → IsTimed t now w → IsTimed t later w
IsTimed-later t now later [] h o = omega arith
IsTimed-later t now later (e ∷ w) h o = (o.0, IsTimed-later e.timestamp now later w h o.1)

IsTimed-append :
    (t now later : ℕ) (success : Bool) (w : List WindowEntry)
    → now ≤ later
    → IsTimed t now w
    → IsTimed t later (w ++ record { timestamp = later; success = success } ∷ [])
IsTimed-append t now later success [] h o = omega arith
IsTimed-append t now later success (e ∷ w) h o =
    (o.0, IsTimed-append e.timestamp now later success w h o.1)

IsTimed-drop : (t now n : ℕ) (w : List WindowEntry) → IsTimed t now w → IsTimed t now (drop n w)
IsTimed-drop t now zero w o = o
IsTimed-drop t now (suc n) [] o = o
IsTimed-drop t now (suc n) (e ∷ w) o =
    IsTimed-drop t now n w (IsTimed-earlier e.timestamp t now w o.0 o.1)

-- `addEntry` with a clock that does not run backwards keeps the window in the order of time.
pub add_entry-IsTimed :
    (t now later : ℕ) (success : Bool) (r : CircuitRecord)
    → now ≤ later
    → IsTimed t now r.window
    → IsTimed t later (add_entry later success r).window
unfolding add_entry
add_entry-IsTimed t now later success r h o =
    let w = r.window ++ record { timestamp = later; success = success } ∷ [] in
    let o' = IsTimed-append t now later success r.window h o in
    ground (arith, o', IsTimed-drop t later (length w - max_window_size) w o')

pub drop_old-IsTimed :
    (size at t now : ℕ) (w : List WindowEntry)
    → IsTimed t now w
    → IsTimed t now (drop_old size at w)
unfolding drop_old
drop_old-IsTimed size at t now [] o = o
drop_old-IsTimed size at t now (e ∷ w) o =
    ground (arith, drop_old-IsTimed size at t now w (IsTimed-earlier e.timestamp t now w o.0 o.1))

-- An entry counts as recent if it is not older than the window.
abbrev pub is_recent : ℕ → ℕ → WindowEntry → Bool
is_recent size now e = not (ltb (e.timestamp + size) now)

keep_recent_ordered :
    (size now t later : ℕ) (w : List WindowEntry)
    → IsTimed t later w
    → now ≤ t + size
    → keep (is_recent size now) w ≡ w
keep_recent_ordered size now t later [] o h = refl
keep_recent_ordered size now t later (e ∷ w) o h =
    ground (arith, keep_recent_ordered size now e.timestamp later w o.1)

drop_old-keep :
    (size now t later : ℕ) (w : List WindowEntry)
    → IsTimed t later w
    → drop_old size now w ≡ keep (is_recent size now) w
unfolding drop_old
drop_old-keep size now t later [] o = refl
drop_old-keep size now t later (e ∷ w) o = ground (
  arith,
  drop_old-keep size now e.timestamp later w o.1,
  keep_recent_ordered size now e.timestamp later w o.1,
)

pub count_split : (w : List WindowEntry) → count_failures w + count_successes w ≡ length w
unfolding count_failures count_successes
count_split [] = omega arith
count_split (e ∷ w) = ground (arith, count_split w)

-- In a window in the order of time, the pruning loop, which stops at the first entry that is
-- recent, keeps exactly the recent entries; so `stats` counts the failures and the successes among
-- the recent entries, and nothing is counted twice or left out.
pub stats_recent :
    (size now t later : ℕ) (r : CircuitRecord)
    → IsTimed t later r.window
    → let recent = keep (is_recent size now) r.window in
      let (r', (failures, successes)) = stats size now r in
      (r'.window ≡ recent)
      × (failures ≡ count_failures recent)
      × (successes ≡ count_successes recent)
      × (failures + successes ≡ length recent)
unfolding stats
stats_recent size now t later r o =
    let e = drop_old-keep size now t later r.window o in
    let recent = keep (is_recent size now) r.window in
    (
      e,
      ap count_failures e,
      ap count_successes e,
      count_split (drop_old size now r.window) ∙ ap length e,
    )

-- `addEntry` and `stats` change the window alone.
pub add_entry_frame :
    (now : ℕ) (success : Bool) (r : CircuitRecord)
    → add_entry now success r ≡ record r { window = (add_entry now success r).window }
unfolding add_entry
add_entry_frame now success r = refl

pub stats_frame :
    (size now : ℕ) (r : CircuitRecord)
    → (stats size now r).0 ≡ record r { window = (stats size now r).0.window }
unfolding stats
stats_frame size now r = refl
