-- ===== src/Lib.antt =====
-- The FleetOS node agent: the logic that decides what a node lets through, runs and reports.
--
-- The control plane sends full-state frames over watch streams (src/client). From them the agent
-- computes what the kernel's maps must hold (src/policy, src/routes) and which workloads run
-- (src/workloads), and it delivers sealed secrets to guests that it has attested (src/secret,
-- src/vsock_attest), under an identity that it keeps in its storage (src/identity).
--
-- Each file names the code that it is about; a module and the module of the source have like names:
-- - Errors, Exec: src/error.rs, and methods that change a state and may fail. A failing method gives
--   back the state too, so that what was written before a failure stays written.
-- - Storage, KernelMap, Core: interfaces of the database (src/storage.rs), of aya's hash maps and of
--   fleetos-core, as records of operations with the laws that the agent relies on.
-- - Collections: Rust's sets and maps, as lists.
-- - Config: src/config.rs, from the file to the accepted configuration.
-- - Identity.Sequences: check_and_record and last_seen of src/identity/sequences.rs.
-- - Identity.Svid: store, load and clear of src/identity/svid.rs.
-- - Identity.Keystore: the sealed keys of src/identity/keystore.rs over an abstract TPM.
-- - Identity.Degraded: the delegated keys of src/identity/degraded.rs and a tick of their refresh.
-- - Secret.Deliver, Secret.Fetch: src/secret/deliver.rs and src/secret/fetch.rs.
-- - Routes.Table: src/routes/table.rs, from an update to the mutations and to the kernel's maps.
-- - Policy.Sync: src/policy/sync.rs, with the policy compiler as a parameter.
-- - Client.Channels, Client.Connection, Client.Unary: src/client/channels.rs, the client of
--   src/client/mod.rs with its channel and its target, and the calls of src/client/unary.rs.
-- - Client.Retry, Client.Watch: classify_error of src/client/retry.rs, and the streams of
--   src/client/watch.rs as steps on their local variables; an execution is a list of events.
-- - Attest.Verify, Attest.Handshake, Attest.ConfigPush: src/vsock_attest/verify.rs, the handshake of
--   src/vsock_attest/mod.rs over a connection that may fail at each write, and the configuration of a
--   guest that src/vsock_attest/config_push.rs builds.
-- - Ebpf.Counters, Ebpf.NetGuard: src/ebpf/counters.rs, with 64-bit sums and differences, and the
--   guards and the gate of src/ebpf/net_guard_adapter.rs.
-- - Workloads.IpAllocator: NodeIpAllocator of src/workloads/mod.rs.
-- - Workloads.Manager: WorkloadManager of src/workloads/mod.rs. Manager has its state and the steps
--   that the boots share, Manager.Boot the boot of a pod, Manager.Evict the rest.
-- - Workloads.MicroVm, Workloads.Volumes, Workloads.Messages: src/workloads/microvm.rs,
--   src/workloads/volumes/mod.rs, and the messages that describe a pod.
-- - Workloads.Pods, ProbeLoop, Probes, Reconciler, Lifecycle: src/workloads/pod_manager.rs,
--   probe_loop.rs, probes/mod.rs and probe_manager.rs, reconciler.rs, lifecycle.rs.
-- - Wiring: src/wiring.rs, what a frame of a stream does to the table, the kernel and the pods
--   (Routes, Policies), and the rotation of a secret (Secrets).
-- - Examples: the theorems at concrete inputs.
--
-- Numbers are natural numbers; where the source has machine integers the wrap-around of a release
-- build is written out. Clocks, random bytes, outcomes of probes, answers of the server, of the kernel,
-- of the file system and of the storage are arguments. The one loop with a fixed number of rounds is
-- next_boundary, of three, which suffices since an offset that is 1 modulo 4 is at most three away. The
-- loop of a unary call runs over the list of what it meets; ten rounds are enough for it. All
-- other loops run over lists or over the attempts that the source allows.
--
-- Not modelled: sockets, containers, namespaces and the loading of programs, which are I/O; the join,
-- the event buffers, the hosts file as text, and the tasks of src/main.rs and of src/wiring.rs, which
-- start the loops whose single rounds are modelled.
pub mod Prelude
pub mod Collections
pub mod Errors
pub mod Exec
pub mod Storage
pub mod Config
pub mod Core
pub mod KernelMap
pub mod Client
pub mod Attest
pub mod Ebpf
pub mod Identity
pub mod Routes
pub mod Policy
pub mod Workloads
pub mod Secret
pub mod Wiring
pub mod Examples
