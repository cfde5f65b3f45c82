-- ===== src/Workloads.antt =====
-- src/workloads: the lifecycle of the node's workloads.
pub mod IpAllocator
pub mod Messages
pub mod Manager
pub mod MicroVm
pub mod Pods
pub mod ProbeLoop
pub mod Probes
pub mod Reconciler
pub mod Lifecycle
pub mod Volumes
