-- ===== src/Ebpf.antt =====
-- src/ebpf/: what the agent reads from and sets of the kernel's programs.
pub mod Counters
pub mod NetGuard
