-- ===== src/Resilience.antt =====
-- internal/resilience/circuit.go: one circuit breaker for each named module. Times are numbers of
-- nanoseconds; a call takes the time that `time.Now()` returns in it. The log lines are left out.
pub mod Cooldown
pub mod Counting
pub mod Registry
mod Examples
use asscor.Prelude.{
  ℕ, suc, ◌+◌, ◌*◌, ◌≤◌, ◌≡◌, refl, Bool, true, false, ◌&&◌, ◌||◌, List, [], ◌∷◌, Option, none,
  some, String, ltb, leb, if◌then◌else◌, lookup, insert, string_eq,
}

pub data State : Type 0 where
  closed open_state half_open : State

pub record Breaker : Type 0 where
  pub state : State
  pub failures : ℕ
  pub successes : ℕ
  pub last_failure : ℕ
  pub opened_at : ℕ
  pub total_trips : ℕ
  pub threshold : ℕ
  pub window : ℕ
  pub cooldown : ℕ

abbrev pub minute : ℕ
minute = 60 * 1000000000

abbrev pub default_threshold : ℕ
default_threshold = 5

abbrev pub default_window : ℕ
default_window = 5 * minute

abbrev pub default_cooldown : ℕ
default_cooldown = minute

unfoldable pub new_breaker : Breaker
new_breaker = record {
  state = closed;
  failures = 0;
  successes = 0;
  last_failure = 0;
  opened_at = 0;
  total_trips = 0;
  threshold = default_threshold;
  window = default_window;
  cooldown = default_cooldown;
}

abbrev pub is_closed : State → Bool
is_closed closed = true
is_closed _ = false

abbrev pub is_half_open : State → Bool
is_half_open half_open = true
is_half_open _ = false

-- `RecordFailure`, under the breaker's lock.
unfoldable pub record_failure : ℕ → Breaker → Breaker
record_failure now b =
    let b' = record b { failures = suc b.failures; last_failure = now; successes = 0 } in
    if leb b'.threshold b'.failures && (is_closed b'.state || is_half_open b'.state)
    then record b' { state = open_state; opened_at = now; total_trips = suc b'.total_trips }
    else b'

-- `RecordSuccess`, under the breaker's lock.
unfoldable pub record_success : Breaker → Breaker
record_success b =
    let b' = record b { successes = suc b.successes; failures = 0 } in
    if is_half_open b'.state then record b' { state = closed } else b'

allow_in : State → ℕ → Breaker → Breaker × Bool
allow_in closed now b = (b, true)
allow_in open_state now b =
    if ltb (b.opened_at + b.cooldown) now
    then (record b { state = half_open }, true)
    else (b, false)
allow_in half_open now b = (b, false)

-- `Allow`, under the breaker's lock. `time.Since(openedAt) > cooldown` is written without a
-- subtraction.
unfoldable pub allow : ℕ → Breaker → Breaker × Bool
unfolding allow_in
allow now b = allow_in b.state now b

-- `Reset`, under the breaker's lock.
unfoldable pub reset : Breaker → Breaker
reset b = record b { state = closed; failures = 0; successes = 0 }

-- The calls on one breaker, each at the time that it reads.
pub data Call : Type 0 where
  fails : ℕ → Call
  succeeds : Call
  asks : ℕ → Call
  resets : Call

-- The breaker after a call, and the answer of an `Allow`.
unfoldable pub step : Breaker → Call → Breaker × Option Bool
step b (fails now) = (record_failure now b, none)
step b succeeds = (record_success b, none)
step b (asks now) = let (b', answer) = allow now b in (b', some answer)
step b resets = (reset b, none)

unfoldable pub run : Breaker → List Call → Breaker
run b [] = b
run b (c ∷ cs) = run (step b c).0 cs

abbrev pub collect : Option Bool → List Bool → List Bool
collect none rest = rest
collect (some a) rest = a ∷ rest

-- The answers that the `Allow` calls of a run give, in order.
unfoldable pub answers : Breaker → List Call → List Bool
answers b [] = []
answers b (c ∷ cs) = let (b', answer) = step b c in collect answer (answers b' cs)

-- The package's map from module names to breakers.
abbrev pub Breakers : Type 0
Breakers = List (String × Breaker)

-- `getBreaker` up to `RUnlock`.
unfoldable pub find_breaker : String → Breakers → Option Breaker
find_breaker name bs = lookup name bs

-- `getBreaker` from `breakersMu.Lock()` on: the map is not read again under the write lock.
unfoldable pub create_breaker : String → Breakers → Breakers
create_breaker name bs = insert name new_breaker bs

create_if_missing : Option Breaker → String → Breakers → Breakers × Breaker
create_if_missing (some b) name bs = (bs, b)
create_if_missing none name bs = (create_breaker name bs, new_breaker)

-- `getBreaker` run without interruption.
unfoldable pub get_breaker : String → Breakers → Breakers × Breaker
unfolding create_if_missing
get_breaker name bs = create_if_missing (find_breaker name bs) name bs

-- A public function of the package: `getBreaker`, then the call under the breaker's lock.
unfoldable pub call : String → Call → Breakers → Breakers × Option Bool
call name c bs =
    let (bs', b) = get_breaker name bs in
    let (b', answer) = step b c in (insert name b' bs', answer)

-- What `Status` reports, short of its wording.
pub data Report : Type 0 where
  normal : ℕ → Report
  isolated : ℕ → ℕ → Report
  trial : Report

report_in : State → ℕ → Breaker → Report
report_in closed now b = normal b.failures
report_in open_state now b = isolated b.total_trips (b.opened_at + b.cooldown)
report_in half_open now b = trial

-- `Status`: the report holds the time at which the cooldown ends, from which the source subtracts
-- the present.
unfoldable pub status : String → ℕ → Breakers → Breakers × (State × Report)
unfolding report_in
status name now bs = let (bs', b) = get_breaker name bs in (bs', (b.state, report_in b.state now b))
