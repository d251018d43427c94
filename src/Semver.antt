-- ===== src/Semver.antt =====
-- internal/semver/semver.go.
pub mod Defs
pub mod Compare
pub mod Order
pub mod RoundTrip
pub mod Constraint
mod Examples
