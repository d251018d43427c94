-- ===== src/ExtMgr.antt =====
-- internal/extmgr: the versions and the specifications of extension_spec.go, and the lifecycle of
-- extension_lifecycle.go.
pub mod Examples
pub mod Spec
pub mod Lifecycle
pub mod Sound
pub mod Reload
