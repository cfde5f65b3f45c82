-- ===== src/Workloads/Manager/Boot.antt =====
-- src/workloads/mod.rs: the runtimes' part of a boot, and the boot of a pod.
use fleetos_agent.Prelude.{
  ℕ, String, Bool, true, false, Option, none, some, List, [], ◌∷◌, Bytes, if◌then◌else◌,
}
use fleetos_agent.Errors.{workload, Result, ok, err}
use fleetos_agent.Exec.{Exec, lift, reads, ◌>>=◌, ◌>>◌}
use fleetos_agent.Collections.Key.{nat_key, string_key}
use fleetos_agent.Collections.HashMap
use fleetos_agent.Collections.HashSet
use fleetos_agent.Attest.Verify.{BootMeasurement}
use fleetos_agent.Attest.ConfigPush.{WorkloadContext}
use fleetos_agent.Attest.Handshake.{
  VsockAttestServer, register_boot_measurement, unregister_boot_measurement,
  register_workload_context, unregister_workload_context,
}
use fleetos_agent.Ebpf.NetGuard.{VmNetGuardAdapter, arm, disarm}
use fleetos_agent.Workloads.Manager.{
  Host, WorkloadManager, Outside, change, or_workload_id, to_be_bytes, workload_fingerprint,
  mounts_of, request_key, allocate_p2p_pair, release_p2p_pair, register_source, prepopulate,
  undo_registration,
}
use fleetos_agent.Workloads.Messages.{PodSpec}
use fleetos_agent.Workloads.MicroVm.{allocate, validate_microvm_mounts, required_pod_spec, boot}
use fleetos_agent.Workloads.Pods.{
  Pod, RuntimeKind, containerd, cloud_hypervisor, booting, new_pod, add_pod,
}
use fleetos_agent.Workloads.Probes.{ProbeManager, new_set, register_pod}
use fleetos_agent.Workloads.Reconciler.{WorkloadSpec}
use fleetos_agent.Workloads.Volumes.{PreparedMount}

abbrev default_pod_spec : PodSpec
default_pod_spec = record {
  pod_id = none;
  workload_id = "";
  tenant_id = "";
  role = "";
  ordinal = none;
  resources = none;
  volumes = [];
  volume_mounts = [];
  env = [];
  probes = none;
}

abbrev pub unwrap_or_default : Option PodSpec → PodSpec
unwrap_or_default none = default_pod_spec
unwrap_or_default (some pod_spec) = pod_spec

module _ (host : Host) where
  open host use {core, fs, hypervisor, interface_of, src_identity_map, pod_net_counters}

  abbrev Manager : Type 0
  Manager = WorkloadManager host

  abbrev Out : Type 0
  Out = Outside host

  -- Deleting a namespace is done as well as it can be.
  abbrev pub destroy_netns : Out → String → Manager → Manager
  destroy_netns out pod_id m = record m {
    namespaces = if out.netns_deleted then HashSet.remove pod_id m.namespaces else m.namespaces;
  }

  abbrev pub create_netns : Out → String → Manager → Manager
  create_netns out pod_id m = record m { namespaces = HashSet.insert pod_id m.namespaces }

  -- A failure after the namespace was made destroys it.
  abbrev pub or_destroy : Out → String → Result ℕ → Exec Manager ℕ
  or_destroy out pod_id (ok pid) m = (ok pid, m)
  or_destroy out pod_id (err e) m = (err e, destroy_netns out pod_id m)

  abbrev pub configured : Out → Result (Unit {0}) → Result ℕ
  configured out (ok u) = out.containerd_boot
  configured out (err e) = err e

  -- With the namespace made.
  abbrev pub boot_in_netns : Out → String → Exec Manager ℕ
  boot_in_netns out pod_id =
      change host (create_netns out pod_id)
      >> or_destroy out pod_id (configured out out.configure_netns)

  unfoldable pub boot_containerd : Out → WorkloadSpec → Exec Manager ℕ
  boot_containerd out spec = do
    pod_spec ←
        lift (required_pod_spec spec.pod_spec (workload "containerd boot requires full PodSpec"))
    lift out.create_netns
    boot_in_netns out (or_workload_id pod_spec.pod_id spec.workload_id)

  abbrev pub context_for : WorkloadSpec → ℕ → ℕ → WorkloadContext
  context_for spec guest_ip gateway_ip = record {
    pod_spec = unwrap_or_default spec.pod_spec;
    guest_ip = to_be_bytes guest_ip;
    netmask = 255 ∷ 255 ∷ 255 ∷ 252 ∷ [];
    gateway = to_be_bytes gateway_ip;
  }

  abbrev pub registered :
      ℕ
      → BootMeasurement
      → WorkloadContext
      → Option (VsockAttestServer WorkloadContext)
      → Option (VsockAttestServer WorkloadContext)
  registered cid measurement context none = none
  registered cid measurement context (some server) =
      some
        (register_workload_context cid context (register_boot_measurement cid measurement server))

  abbrev pub unregistered_at :
      ℕ → Option (VsockAttestServer WorkloadContext) → Option (VsockAttestServer WorkloadContext)
  unregistered_at cid none = none
  unregistered_at cid (some server) =
      some (unregister_workload_context cid (unregister_boot_measurement cid server))

  -- A booted machine is kept under its CID.
  abbrev pub booted : ℕ → Manager → Result ℕ × hypervisor.Vm → Result ℕ × Manager
  booted cid m (ok handle, vm) =
      (ok handle, record m { microvms = HashMap.insert cid vm m.microvms })
  booted cid m (err e, vm) = (err e, m)

  unfoldable pub boot_microvm_inner :
      Out → WorkloadSpec → List (PreparedMount fs) → ℕ → ℕ → ℕ → Exec Manager ℕ
  boot_microvm_inner out spec mounts vsock_cid guest_ip gateway_ip = do
    rootfs_path ← lift out.oci_to_erofs
    measurement ← lift out.boot_measurement
    change host λ m. record m {
      attestation =
          registered vsock_cid measurement (context_for spec guest_ip gateway_ip) m.attestation;
    }
    λ m. booted vsock_cid m (
        boot fs hypervisor spec vsock_cid mounts rootfs_path (interface_of vsock_cid) gateway_ip
          out.vm)

  abbrev pub allocate_cid : Exec Manager ℕ
  allocate_cid m =
      let (cid, a) = allocate m.cid_allocator in (ok cid, record m { cid_allocator = a })

  abbrev pub guarded_by :
      Manager → Result (Unit {0}) × VmNetGuardAdapter → Result (Unit {0}) × Manager
  guarded_by m (r, g) = (r, record m { net_guard = some g })

  abbrev pub arm_option : Out → ℕ → Option VmNetGuardAdapter → Exec Manager (Unit {0})
  arm_option out cid none m =
      (err (workload "boot aborted: NetGuard (VmNetGuard) not armed before MicroVM boot"), m)
  arm_option out cid (some g) m = guarded_by m (arm out.kernel (interface_of cid) g)

  abbrev pub arm_guard : Out → ℕ → Exec Manager (Unit {0})
  arm_guard out cid m = arm_option out cid m.net_guard m

  abbrev pub disarmed : Result (Unit {0}) → ℕ → Option VmNetGuardAdapter → Option VmNetGuardAdapter
  disarmed answer cid none = none
  disarmed answer cid (some g) = some (disarm answer (interface_of cid) g).1

  -- A boot that failed is undone.
  abbrev pub or_undo : Out → ℕ → Result ℕ × Manager → Result ℕ × Manager
  or_undo out cid (ok handle, m) = (ok handle, m)
  or_undo out cid (err e, m) = (
    err e,
    record m {
      attestation = unregistered_at cid m.attestation;
      net_guard = disarmed out.gate_cleared cid m.net_guard;
    },
  )

  abbrev pub boot_with_cid :
      Out → WorkloadSpec → List (PreparedMount fs) → ℕ → ℕ → ℕ → Exec Manager ℕ
  boot_with_cid out spec mounts guest_ip gateway_ip vsock_cid = arm_guard out vsock_cid >> λ m.
      or_undo out vsock_cid (boot_microvm_inner out spec mounts vsock_cid guest_ip gateway_ip m)

  unfoldable pub boot_microvm :
      Out → WorkloadSpec → List (PreparedMount fs) → ℕ → ℕ → Exec Manager ℕ
  boot_microvm out spec mounts guest_ip gateway_ip = do
    lift (validate_microvm_mounts mounts)
    vsock_cid ← allocate_cid
    boot_with_cid out spec mounts guest_ip gateway_ip vsock_cid

  unfoldable pub boot_runtime :
      RuntimeKind → Out → WorkloadSpec → List (PreparedMount fs) → ℕ → ℕ → Exec Manager ℕ
  boot_runtime containerd out spec mounts wl_ip gw_ip = boot_containerd out spec
  boot_runtime cloud_hypervisor out spec mounts wl_ip gw_ip =
      boot_microvm out spec mounts wl_ip gw_ip

  abbrev pub booting_pod : Out → String → WorkloadSpec → PodSpec → Bytes → ℕ → Pod
  booting_pod out pod_id spec pod_spec fp handle =
      record (new_pod pod_id spec.workload_id pod_spec.tenant_id spec.role spec.runtime fp
        out.now) { state = booting; pid = some handle; started = true }

  abbrev remembered : Bool → String → ℕ → List (String × ℕ) → List (String × ℕ)
  remembered true pod_id wl ips = HashMap.insert pod_id wl ips
  remembered false pod_id wl ips = ips

  abbrev probed : Out → String → PodSpec → Option ProbeManager → Option ProbeManager
  probed out pod_id pod_spec none = none
  probed out pod_id pod_spec (some probes) =
      some (register_pod pod_id (new_set pod_spec.probes out.now) probes)

  -- What follows the boot by the runtime.
  abbrev pub settled :
      Out
      → String
      → WorkloadSpec
      → PodSpec
      → Bytes
      → ℕ
      → Bool
      → Result ℕ × Manager
      → Result ℕ × Manager
  settled out pod_id spec pod_spec fp wl is_registered (err e, m) =
      (err e, release_p2p_pair host pod_id (undo_registration host is_registered wl m))
  settled out pod_id spec pod_spec fp wl is_registered (ok handle, m) = (
    ok handle,
    record m {
      pod_source_ips = remembered is_registered pod_id wl m.pod_source_ips;
      pods = add_pod (booting_pod out pod_id spec pod_spec fp handle) m.pods;
      probes = probed out pod_id pod_spec m.probes;
    },
  )

  -- The steps from the addresses on.
  unfoldable pub boot_addressed :
      Out → String → WorkloadSpec → PodSpec → List (PreparedMount fs) → Bytes → Exec Manager ℕ
  boot_addressed out pod_id spec pod_spec mounts fp = do
    pair ← allocate_p2p_pair host pod_id
    is_registered ← register_source host pod_id pair.1 fp
    change host (prepopulate host pair.1)
    λ m.
        settled out pod_id spec pod_spec fp pair.1 is_registered
          (boot_runtime spec.runtime out spec mounts pair.1 pair.0 m)

  unfoldable pub boot_pod : Out → WorkloadSpec → Exec Manager ℕ
  boot_pod out spec = do
    pod_spec ← lift (required_pod_spec spec.pod_spec (workload "boot requires full PodSpec"))
    mounts ← mounts_of host (or_workload_id pod_spec.pod_id spec.workload_id) pod_spec
    fp ←
        reads λ m.
          workload_fingerprint host m.trust_domain pod_spec.tenant_id spec.workload_id spec.role
    change host (request_key host out spec pod_spec)
    boot_addressed out (or_workload_id pod_spec.pod_id spec.workload_id) spec pod_spec mounts fp
