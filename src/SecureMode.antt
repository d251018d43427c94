-- ===== src/SecureMode.antt =====
-- internal/securemode: the agent registry, the mode marker, the passwords, the encrypted file and the
-- startup.
pub mod Examples
pub mod Registry
pub mod Controller
pub mod Crypt
pub mod Disk
pub mod Marker
pub mod Memory
pub mod Password
pub mod Startup
pub mod Vault
pub mod Verifier
