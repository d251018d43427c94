-- ===== src/Breaker.antt =====
-- internal/kernel/circuitbreaker.go.
pub mod Defs
pub mod Window
pub mod Keys
pub mod Machine
pub mod Calls
pub mod Atomic
pub mod Transitions
pub mod Invariant
pub mod Reachable
pub mod Blocking
pub mod Cleanup
mod Examples
