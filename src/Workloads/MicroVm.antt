-- ===== src/Workloads/MicroVm.antt =====
-- src/workloads/microvm.rs: the Cloud Hypervisor adapter. The hypervisor's SDK is a dependency, so its
-- state and its calls are parameters; sleeping is not modelled.
pub mod Cids
use fleetos_agent.Prelude.{
  ℕ, zero, suc, ◌+◌, ◌*◌, ◌%◌, ◌^◌, String, Bool, true, false, Option, none, some, List, [], ◌∷◌,
  ltb, if◌then◌else◌,
}
use fleetos_agent.Errors.{AgentError, workload, Result, ok, err}
use fleetos_agent.Exec.{Exec, pure, raise, lift, writes, written, ◌>>=◌, ◌>>◌}
use fleetos_agent.Workloads.Messages.{PodSpec, Resources}
use fleetos_agent.Workloads.Reconciler.{WorkloadSpec}
use fleetos_agent.Workloads.Volumes.{
  Filesystem, PreparedMount, VolumeSource, empty_dir_volume, host_path_volume,
}

pub record VsockCidAllocator : Type 0 where
  pub next_cid : ℕ

unfoldable pub new_allocator : ℕ → VsockCidAllocator
new_allocator start_cid = record { next_cid = if ltb start_cid 3 then 3 else start_cid }

-- The counter is a `u32`, which wraps in a release build.
unfoldable pub allocate : VsockCidAllocator → ℕ × VsockCidAllocator
allocate a = (a.next_cid, record { next_cid = (a.next_cid + 1) % 2 ^ 32 })

unfoldable pub allocate_many : ℕ → VsockCidAllocator → List ℕ
unfolding allocate
allocate_many zero a = []
allocate_many (suc n) a = let (cid, a') = allocate a in cid ∷ allocate_many n a'

unfoldable pub validate_microvm_mounts :
    {fs : Filesystem} → List (PreparedMount fs) → Result (Unit {0})
validate_microvm_mounts [] = ok tt
validate_microvm_mounts (m ∷ mounts) = elim m.source [
  | empty_dir_volume size ↦ validate_microvm_mounts mounts
  | host_path_volume kind ↦ err (workload "microvm boot rejected: hostPath volume")
]

-- What the agent sets of the SDK's settings.
pub record VmConfig : Type 0 where
  pub boot_vcpus : ℕ
  pub max_vcpus : ℕ
  pub memory_size : ℕ
  pub kernel : String
  pub disk_path : String
  pub disk_readonly : Bool
  pub cid : ℕ
  pub socket_of : String
  pub tap : String
  pub ip : ℕ
  pub mask : String
  pub num_queues : ℕ
  pub queue_size : ℕ
  pub net_of : String

pub record VmResize : Type 0 where
  pub desired_vcpus : ℕ
  pub desired_ram : ℕ

pub record Hypervisor : Type 1 where
  pub Vm : Type 0
  pub create_vm : VmConfig → Vm → Result Vm
  pub boot_vm : Vm → Result Vm
  pub shutdown_vm : Vm → Result Vm
  pub delete_vm : Vm → Result Vm
  pub vm_resize_put : VmResize → Vm → Result Vm

-- `r.vcpus as u8` and `r.memory_mb as u64`.
abbrev pub vm_size : Option Resources → ℕ × ℕ
vm_size none = (1, 512)
vm_size (some r) = (r.vcpus % 2 ^ 8, r.memory_mb)

abbrev pub required_pod_spec : Option PodSpec → AgentError → Result PodSpec
required_pod_spec none e = err e
required_pod_spec (some pod_spec) e = ok pod_spec

-- The sockets and the network device are named after the workload, here by its name. The product of
-- the memory does not wrap for 32-bit sizes in megabytes.
abbrev pub vm_config : WorkloadSpec → PodSpec → ℕ → String → String → ℕ → VmConfig
vm_config spec pod_spec vsock_cid rootfs_path tap_name gateway_ip =
    let (vcpus, mem_mb) = vm_size pod_spec.resources in
    record {
      boot_vcpus = vcpus;
      max_vcpus = vcpus;
      memory_size = mem_mb * 1024 * 1024;
      kernel = "/var/lib/fleetos/vmlinux";
      disk_path = rootfs_path;
      disk_readonly = true;
      cid = vsock_cid;
      socket_of = spec.workload_id;
      tap = tap_name;
      ip = gateway_ip;
      mask = "255.255.255.252";
      num_queues = 2;
      queue_size = 256;
      net_of = spec.workload_id;
    }

module _ (fs : Filesystem) (hypervisor : Hypervisor) where
  open hypervisor use {Vm}

  unfoldable pub boot : WorkloadSpec → ℕ → List (PreparedMount fs) → String → String → ℕ → Exec Vm ℕ
  boot spec vsock_cid mounts rootfs_path tap_name gateway_ip = do
    lift (validate_microvm_mounts mounts)
    pod_spec ←
        lift (required_pod_spec spec.pod_spec (workload "microvm boot requires full PodSpec"))
    writes
        (hypervisor.create_vm (vm_config spec pod_spec vsock_cid rootfs_path tap_name gateway_ip))
    writes hypervisor.boot_vm
    pure vsock_cid

  -- An error of the deletion is dropped.
  abbrev pub forced : Vm → Result Vm → Result (Unit {0}) × Vm
  forced vm (ok after) = (ok tt, after)
  forced vm (err e) = (ok tt, vm)

  unfoldable pub stop : Exec Vm (Unit {0})
  stop = writes hypervisor.shutdown_vm >> λ vm. forced vm (hypervisor.delete_vm vm)

  unfoldable pub resize : ℕ → ℕ → Exec Vm (Unit {0})
  resize vcpus memory_mb = writes (
      hypervisor.vm_resize_put
        (record { desired_vcpus = vcpus; desired_ram = memory_mb * 1024 * 1024 % 2 ^ 64 }))
