-- ===== src/Examples/Node.antt =====
-- The manager of workloads, on a disk that is a set of paths, with a hypervisor that counts its calls.
use fleetos_agent.Prelude.{
  ℕ, suc, String, Bytes, true, false, none, some, List, [], ◌∷◌, ◌≡◌, refl, arith,
}
use fleetos_agent.Collections.Key.{nat_key, bytes_key, string_key}
use fleetos_agent.Collections.HashSet
use fleetos_agent.Collections.HashSet.{contains, contains-remove}
use fleetos_agent.Collections.HashMap.{lookup}
use fleetos_agent.Errors.{AgentError, workload, ok, err}
use text.Mathlib.TextEquality.{eq_iff}
use fleetos_agent.Ebpf.Counters.{Counters}
use fleetos_agent.Ebpf.NetGuard.{
  VmNetGuardAdapter, Kernel, arm, disarm, attach_tc, load_tc, is_loaded, set_boot_gate,
}
use fleetos_agent.Ebpf.NetGuard.Gate.{arms_once}
use fleetos_agent.Workloads.Messages.{PodSpec, Volume, VolumeMount, empty_dir}
use fleetos_agent.Workloads.Reconciler.{WorkloadSpec}
use fleetos_agent.Workloads.Pods.{PodManager, cloud_hypervisor, new_pod}
use fleetos_agent.Workloads.Volumes.{Filesystem, VolumeConfig, PreparedMount, empty_dir_volume}
use fleetos_agent.Workloads.MicroVm.{Hypervisor, validate_microvm_mounts}
use fleetos_agent.Workloads.Manager.{Host, WorkloadManager, Outside}
use fleetos_agent.Workloads.Manager.Boot.{boot_microvm, boot_pod}
use fleetos_agent.Workloads.Manager.Failed.{failed_boot_is_undone}
use fleetos_agent.Workloads.Manager.Undone.{WholeOnErr}
use fleetos_agent.Workloads.Manager.ArmedFirst.{Guarded, boot_microvm-Guarded}
use fleetos_agent.Workloads.Manager.Evict.{Away, evict_pod}
use fleetos_agent.Workloads.Manager.Evict.Gone.{Evicted, evict_pod-Evicted}
use fleetos_agent.Examples.Sync.{core, memory_map}
use fleetos_agent.Examples.Addresses.{network, network-IsValid}

pub remove-exists :
    (path : String) (disk after : List String)
    → ok (HashSet.remove path disk) ≡ ok after
    → contains path after ≡ false
remove-exists path disk after e = ground (arith, contains-remove path path disk, eq_iff path path)

abbrev pub fs : Filesystem
fs = record {
  Disk = List String;
  PathBuf = String;
  path_of = λ path. path;
  join = λ parent name. name;
  is_absolute = λ name. true;
  join-absolute = λ parent name h. refl;
  exists = λ disk path. contains path disk;
  create_dir_all = λ path disk. ok (HashSet.insert path disk);
  remove_dir_all = λ path disk. ok (HashSet.remove path disk);
  exists-remove_dir_all = remove-exists;
}

abbrev hypervisor : Hypervisor
hypervisor = record {
  Vm = ℕ;
  create_vm = λ config vm. ok (suc vm);
  boot_vm = λ vm. ok (suc vm);
  shutdown_vm = λ vm. ok (suc vm);
  delete_vm = λ vm. ok (suc vm);
  vm_resize_put = λ size vm. ok (suc vm);
}

abbrev host : Host
host = record {
  core = core;
  fs = fs;
  hypervisor = hypervisor;
  interface_of = λ cid. "tap";
  src_identity_map = memory_map ℕ Bytes;
  pod_net_counters = memory_map ℕ Counters;
}

abbrev config : VolumeConfig fs
config = record { scratch_root = "/scratch"; allow_host_path = false }

abbrev guards : VmNetGuardAdapter
guards = record { boot_gate = 0; guards = []; attached = []; loaded = [] }

abbrev kernel : Kernel
kernel = record {
  load_egress = ok tt;
  attach_egress = ok tt;
  load_ingress = ok tt;
  attach_ingress = ok tt;
  gate_set = ok tt;
}

abbrev pod_spec : PodSpec
pod_spec = record {
  pod_id = some "vm";
  workload_id = "db";
  tenant_id = "t";
  role = "";
  ordinal = none;
  resources = none;
  volumes = [];
  volume_mounts = [];
  env = [];
  probes = none;
}

abbrev spec : WorkloadSpec
spec = record {
  workload_id = "db";
  runtime = cloud_hypervisor;
  image = "image";
  role = "role";
  pod_spec = some pod_spec;
  hostname = "";
}

abbrev pods : PodManager
pods = ("old", new_pod "old" "web" "t" "role" cloud_hypervisor [] 5) ∷ []

abbrev manager : WorkloadManager host
manager = record {
  volume_config = config;
  disk = [];
  trust_domain = "td";
  pods = pods;
  cid_allocator = record { next_cid = 3 };
  net_guard = some guards;
  microvms = [];
  src_identity = some [];
  ip_allocator = network;
  pod_source_ips = [];
  namespaces = [];
  delegated_keys = none;
  delegated_key_ttl_secs = 60;
  probes = none;
  attestation = some (record { boot_measurements = []; workload_contexts = [] });
  counters = some [];
}

abbrev works : Outside host
works = record {
  from_bytes = λ bytes. none;
  answer = λ request. err (workload "unused");
  create_netns = ok tt;
  configure_netns = ok tt;
  netns_deleted = true;
  containerd_boot = ok 77;
  oci_to_erofs = ok "rootfs";
  boot_measurement =
      ok (record { kernel_hash = []; rootfs_hash = []; guest_init_hash = []; combined_hash = [] });
  kernel = kernel;
  gate_cleared = ok tt;
  vm = 0;
  now = 10;
}

-- The measurement fails once the guard is armed and the addresses are registered.
abbrev fails : Outside host
fails = record works { boot_measurement = err (workload "unreadable kernel") }

failed_boot_is_undone_example : WholeOnErr host manager (boot_pod host fails spec manager)
unfolding lookup
failed_boot_is_undone_example =
    failed_boot_is_undone host fails spec manager network-IsValid (λ ps e o. refl)

boot_microvm-Guarded_example :
    Guarded host works spec 167772162 167772161 manager
      (some guards)
      (boot_microvm host works spec [] 167772162 167772161 manager)
unfolding validate_microvm_mounts
boot_microvm-Guarded_example =
    boot_microvm-Guarded host works spec [] 167772162 167772161 manager refl

abbrev away : Away host
away = record { containerd_stop = ok tt; gate_cleared = ok tt; netns_deleted = true }

evict_pod-Evicted_example :
    Evicted host "old" (lookup "old" manager.pods) manager (evict_pod host away "old" manager)
evict_pod-Evicted_example = evict_pod-Evicted host away "old" manager network-IsValid

abbrev volumes : List Volume
volumes = record { name = "data"; source = some (empty_dir none) } ∷ []

abbrev mounts : List VolumeMount
mounts = record { name = "data"; mount_path = "/data"; read_only = false } ∷ []

abbrev mounted : List (PreparedMount fs)
mounted =
    record {
      name = "data";
      mount_path = "/data";
      read_only = false;
      host_path = "data";
      source = empty_dir_volume none;
    }
    ∷ []

abbrev first : VmNetGuardAdapter
first = (arm kernel "tap0" guards).1

arms_once_example :
    ((e : AgentError) × (arm kernel "tap1" first ≡ (err e, first)))
    × ((e : AgentError) × (arm kernel "tap1" (disarm (ok tt) "tap0" first).1
          ≡ (err e, (disarm (ok tt) "tap0" first).1)))
unfolding arm attach_tc load_tc is_loaded set_boot_gate
arms_once_example = arms_once kernel kernel (ok tt) "tap0" "tap0" "tap1" guards first refl
