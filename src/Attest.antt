-- ===== src/Attest.antt =====
-- src/vsock_attest/: the attestation of the guests that the agent has launched.
pub mod ConfigPush
pub mod Verify
pub mod Handshake
