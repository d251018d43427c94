-- ===== src/Semver/Order.antt =====
-- The order of versions: what `Compare` of internal/semver/semver.go decides.
pub mod Signs
pub mod Spec
pub mod Refines
pub mod Precedence
pub mod Laws
