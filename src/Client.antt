-- ===== src/Client.antt =====
-- src/client/: the connection to the control plane.
pub mod Channels
pub mod Connection
pub mod Retry
pub mod Unary
pub mod Watch
