-- ===== src/Examples.antt =====
-- The theorems at concrete inputs, by the part of the agent that they are about.
mod Identity
mod Attest
mod Client
mod Ebpf
mod Addresses
mod Workloads
mod Sync
mod Calls
mod Keys
mod Node
mod Frames
