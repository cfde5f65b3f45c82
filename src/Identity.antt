-- ===== src/Identity.antt =====
-- src/identity/: the agent's identity.
pub mod Sequences
pub mod Degraded
pub mod Keystore
pub mod Svid
