-- ===== src/Workloads/Manager.antt =====
-- src/workloads/mod.rs: the boot of a pod. The runtimes, the file system, the kernel and the control plane
-- are outside: what they answer to the calls of one boot is a record. Failures that the code only
-- logs change nothing. Interfaces and sockets are named after the CID.
pub mod ArmedFirst
pub mod Boot
pub mod Evict
pub mod Failed
pub mod Guarded
pub mod Leaks
pub mod Undone
use fleetos_agent.Prelude.{
  ℕ, ◌/◌, ◌%◌, ◌^◌, String, Bool, true, false, Option, none, some, List, [], ◌∷◌, Bytes,
}
use fleetos_agent.Errors.{AgentError, workload, Result, ok, err}
use fleetos_agent.Exec.{Exec, pure, raise, lift, ◌>>=◌, ◌>>◌}
use fleetos_agent.Core.{Core}
use fleetos_agent.KernelMap.{KernelMap}
use fleetos_agent.Collections.Key.{nat_key, string_key}
use fleetos_agent.Collections.HashMap
use fleetos_agent.Attest.Verify.{BootMeasurement}
use fleetos_agent.Attest.ConfigPush.{WorkloadContext}
use fleetos_agent.Attest.Handshake.{
  VsockAttestServer, register_boot_measurement, unregister_boot_measurement,
  register_workload_context, unregister_workload_context,
}
use fleetos_agent.Ebpf.Counters.{Counters, no_counters}
use fleetos_agent.Ebpf.NetGuard.{VmNetGuardAdapter, Kernel, arm, disarm}
use fleetos_agent.Identity.Degraded.{
  DelegatedKeyManager, DelegatedKeyRequest, DelegatedKeyResponse, DelegatedSigningKey,
  request_and_install,
}
use fleetos_agent.Workloads.IpAllocator.{
  NodeIpAllocator, allocate_microvm_pair, release_microvm_pair,
}
use fleetos_agent.Workloads.Messages.{PodSpec}
use fleetos_agent.Workloads.MicroVm.{
  VsockCidAllocator, allocate, Hypervisor, validate_microvm_mounts, required_pod_spec, boot,
}
use fleetos_agent.Workloads.Pods.{
  Pod, PodManager, booting, new_pod, mark_started, add_pod, RuntimeKind, containerd,
  cloud_hypervisor,
}
use fleetos_agent.Workloads.Probes.{ProbeSet, ProbeManager, new_set, register_pod}
use fleetos_agent.Workloads.Reconciler.{WorkloadSpec}
use fleetos_agent.Workloads.Volumes.{Filesystem, VolumeConfig, PreparedMount, prepare_mounts}

abbrev pub or_workload_id : Option String → String → String
or_workload_id none workload_id = workload_id
or_workload_id (some pod_id) workload_id = pod_id

-- The four bytes of an address, the highest first.
abbrev pub to_be_bytes : ℕ → Bytes
to_be_bytes ip = ip / 2 ^ 24 % 256 ∷ ip / 2 ^ 16 % 256 ∷ ip / 2 ^ 8 % 256 ∷ ip % 256 ∷ []

-- What the manager stands on, and the names of the interfaces.
pub record Host : Type 1 where
  pub core : Core
  pub fs : Filesystem
  pub hypervisor : Hypervisor
  pub interface_of : ℕ → String
  pub src_identity_map : KernelMap ℕ Bytes
  pub pod_net_counters : KernelMap ℕ Counters

module _ (host : Host) where
  open host use {core, fs, hypervisor, interface_of, src_identity_map, pod_net_counters}

  -- The parts that a manager may be built without are options.
  pub record WorkloadManager : Type 0 where
    pub volume_config : VolumeConfig fs
    pub disk : fs.Disk
    pub trust_domain : String
    pub pods : PodManager
    pub cid_allocator : VsockCidAllocator
    pub net_guard : Option VmNetGuardAdapter
    pub microvms : List (ℕ × hypervisor.Vm)
    pub src_identity : Option src_identity_map.Space
    pub ip_allocator : NodeIpAllocator
    pub pod_source_ips : List (String × ℕ)
    pub namespaces : List String
    pub delegated_keys : Option (core.SpiffeId × DelegatedKeyManager core)
    pub delegated_key_ttl_secs : ℕ
    pub probes : Option ProbeManager
    pub attestation : Option (VsockAttestServer WorkloadContext)
    pub counters : Option pod_net_counters.Space

  -- What is found outside during one boot. The hypervisor's state is that of a new socket.
  pub record Outside : Type 0 where
    pub from_bytes : Bytes → Option (DelegatedSigningKey core)
    pub answer : DelegatedKeyRequest core → Result (DelegatedKeyResponse core)
    pub create_netns : Result (Unit {0})
    pub configure_netns : Result (Unit {0})
    pub netns_deleted : Bool
    pub containerd_boot : Result ℕ
    pub oci_to_erofs : Result String
    pub boot_measurement : Result BootMeasurement
    pub kernel : Kernel
    pub gate_cleared : Result (Unit {0})
    pub vm : hypervisor.Vm
    pub now : ℕ

  -- A change that cannot fail.
  abbrev pub change : (WorkloadManager → WorkloadManager) → Exec WorkloadManager (Unit {0})
  change f m = (ok tt, f m)

  unfoldable pub workload_fingerprint : String → String → String → String → Result Bytes
  workload_fingerprint trust_domain tenant_id workload_id role = elim (core.parse_role role) [
    | none ↦ err (workload "invalid workload role")
    | some r ↦ ok (core.fingerprint (core.new_sa trust_domain tenant_id workload_id) (some r))
  ]

  abbrev mounted :
      WorkloadManager
      → Result (List (PreparedMount fs)) × fs.Disk
      → Result (List (PreparedMount fs)) × WorkloadManager
  mounted m (r, disk) = (r, record m { disk = disk })

  abbrev pub mounts_of : String → PodSpec → Exec WorkloadManager (List (PreparedMount fs))
  mounts_of pod_id pod_spec m =
      mounted m
        (prepare_mounts fs m.volume_config pod_id pod_spec.volumes pod_spec.volume_mounts m.disk)

  abbrev pub keys_or :
      Option (core.SpiffeId × DelegatedKeyManager core)
      → core.SpiffeId
      → Result (DelegatedKeyManager core)
      → Option (core.SpiffeId × DelegatedKeyManager core)
  keys_or before node_id (ok keys) = some (node_id, keys)
  keys_or before node_id (err e) = before

  abbrev pub with_key :
      Outside
      → ℕ
      → core.SpiffeId
      → Option ℕ
      → Option (core.SpiffeId × DelegatedKeyManager core)
      → Option (core.SpiffeId × DelegatedKeyManager core)
  with_key out ttl target ordinal none = none
  with_key out ttl target ordinal (some (node_id, keys)) =
      keys_or (some (node_id, keys)) node_id
        (request_and_install core out.from_bytes out.answer node_id ttl target ordinal keys)

  abbrev pub request_key : Outside → WorkloadSpec → PodSpec → WorkloadManager → WorkloadManager
  request_key out spec pod_spec m = record m {
    delegated_keys =
        with_key out m.delegated_key_ttl_secs
          (core.new_sa m.trust_domain pod_spec.tenant_id spec.workload_id) pod_spec.ordinal
          m.delegated_keys;
  }

  abbrev allocated :
      WorkloadManager → Result (ℕ × ℕ) × NodeIpAllocator → Result (ℕ × ℕ) × WorkloadManager
  allocated m (r, a) = (r, record m { ip_allocator = a })

  abbrev pub allocate_p2p_pair : String → Exec WorkloadManager (ℕ × ℕ)
  allocate_p2p_pair pod_id m = allocated m (allocate_microvm_pair pod_id m.ip_allocator)

  abbrev pub release_p2p_pair : String → WorkloadManager → WorkloadManager
  release_p2p_pair pod_id m = record m { ip_allocator = release_microvm_pair pod_id m.ip_allocator }

  -- Whether an address was registered.
  abbrev pub registered_in :
      String → WorkloadManager → Result src_identity_map.Space → Result Bool × WorkloadManager
  registered_in pod_id m (ok s) = (ok true, record m { src_identity = some s })
  registered_in pod_id m (err e) = (err e, release_p2p_pair pod_id m)

  abbrev pub register_in :
      String → ℕ → Bytes → Option src_identity_map.Space → Exec WorkloadManager Bool
  register_in pod_id wl fp none m = (ok false, m)
  register_in pod_id wl fp (some s) m = registered_in pod_id m (src_identity_map.insert wl fp s)

  abbrev pub register_source : String → ℕ → Bytes → Exec WorkloadManager Bool
  register_source pod_id wl fp m = register_in pod_id wl fp m.src_identity m

  abbrev pub metered : ℕ → Option pod_net_counters.Space → Option pod_net_counters.Space
  metered wl none = none
  metered wl (some s) = elim (pod_net_counters.insert wl no_counters s) [
    | ok t ↦ some t
    | err e ↦ some s
  ]

  abbrev pub prepopulate : ℕ → WorkloadManager → WorkloadManager
  prepopulate wl m = record m { counters = metered wl m.counters }

  abbrev pub unregistered : ℕ → Option src_identity_map.Space → Option src_identity_map.Space
  unregistered wl none = none
  unregistered wl (some s) = elim (src_identity_map.remove wl s) [ ok t ↦ some t | err e ↦ some s ]

  -- The registration of a boot that failed is undone where there was one.
  abbrev pub undo_registration : Bool → ℕ → WorkloadManager → WorkloadManager
  undo_registration true wl m = record m { src_identity = unregistered wl m.src_identity }
  undo_registration false wl m = m
