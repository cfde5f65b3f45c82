-- ===== src/Policy.antt =====
-- src/policy: the compiled policy and its mirror in the kernel.
pub mod Sync
