-- ===== src/Breaker/Defs.antt =====
-- internal/kernel/circuitbreaker.go: the data of the kernel's circuit breaker, which keeps one
-- record for each pair of a service and a method. An operation of the model runs without
-- interruption and takes the time that `time.Now()` returns in it; 0 is Go's zero time.
use asscor.Prelude.{Bytes, ℕ, ◌*◌, Bool, List, [], ◌==◌, if◌then◌else◌}

pub data CircuitState : Type 0 where
  closed open_state half_open : CircuitState

-- What the program uses of `float64`: a parameter of the model.
pub record Floats (F : Type 0) : Type 0 where
  pub of_int : ℕ → F
  pub div : F → F → F
  pub leb : F → F → Bool
  pub zero : F
  pub half : F

-- An int or a duration that is not positive stands as 0: the code treats all of those alike.
pub record Config (F : Type 0) : Type 0 where
  pub failure_ratio : F
  pub min_requests : ℕ
  pub timeout : ℕ
  pub window_size : ℕ
  -- `OnStateChange` and `Extensions` are not nil.
  pub on_state_change : Bool
  pub extensions : Bool
  pub half_open_max_fails : ℕ

pub record WindowEntry : Type 0 where
  pub timestamp : ℕ
  pub success : Bool

pub record CircuitRecord : Type 0 where
  pub state : CircuitState
  pub last_state_change : ℕ
  pub window : List WindowEntry
  pub half_open_fails : ℕ

pub data Label : Type 0 where
  to_half_open opened reopened to_closed : Label

-- What the breaker tells others: a call of `OnStateChange` with a key, and the extension point
-- `breaker.state_changed` with service, method and state.
pub data Event : Type 0 where
  notified : Bytes → Label → Event
  executed : Bytes → Bytes → CircuitState → Event

pub record CircuitBreaker (F : Type 0) : Type 0 where
  pub records : List (Bytes × CircuitRecord)
  pub cfg : Config F
  -- In the order in which they were sent.
  pub events : List Event

abbrev pub max_window_size : ℕ
max_window_size = 1000

abbrev pub second : ℕ
second = 1000000000

unfoldable pub new_record : CircuitRecord
new_record = record { state = closed; last_state_change = 0; window = []; half_open_fails = 0 }

-- `NewCircuitBreaker`, with the four defaults.
unfoldable pub new_circuit_breaker : {F : Type 0} → Floats F → Config F → CircuitBreaker F
new_circuit_breaker fl c = record {
  records = [];
  cfg = record c {
    failure_ratio = if fl.leb c.failure_ratio fl.zero then fl.half else c.failure_ratio;
    min_requests = if c.min_requests == 0 then 10 else c.min_requests;
    timeout = if c.timeout == 0 then 30 * second else c.timeout;
    window_size = if c.window_size == 0 then 60 * second else c.window_size;
  };
  events = [];
}
