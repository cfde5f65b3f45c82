-- ===== src/Workloads/Manager/Evict.antt =====
-- src/workloads/mod.rs: the eviction of a pod, the resizing of a machine, and the reconciliation. The event
-- reporter only sends events and is left out.
pub mod Gone
use fleetos_agent.Prelude.{
  ℕ, String, Bool, true, false, Option, none, some, List, [], ◌∷◌, if◌then◌else◌,
}
use fleetos_agent.Errors.{AgentError, workload, Result, ok, err}
use fleetos_agent.Exec.{Exec, pure, raise, lift, ◌>>=◌, ◌>>◌}
use fleetos_agent.Collections.Key.{nat_key, string_key}
use fleetos_agent.Collections.HashMap
use fleetos_agent.Collections.HashSet
use fleetos_agent.Workloads.Manager.{
  Host, WorkloadManager, Outside, change, release_p2p_pair, unregistered,
}
use fleetos_agent.Workloads.Manager.Boot.{unregistered_at, disarmed, boot_pod}
use fleetos_agent.Workloads.MicroVm.{stop, resize}
use fleetos_agent.Workloads.Pods.{
  Pod, PodManager, RuntimeKind, containerd, cloud_hypervisor, begin_eviction, add_pod,
}
use fleetos_agent.Workloads.Probes.{ProbeManager, unregister_pod}
use fleetos_agent.Workloads.Reconciler.{WorkloadSpec}
use fleetos_agent.Workloads.Reconciler
use fleetos_agent.Workloads.Volumes.{teardown_pod_scratch}

module _ (host : Host) where
  open host use {fs, hypervisor, interface_of}

  -- What is found outside during one eviction.
  pub record Away : Type 0 where
    pub containerd_stop : Result (Unit {0})
    pub gate_cleared : Result (Unit {0})
    pub netns_deleted : Bool

  abbrev pub found_pod : Option Pod → Result Pod
  found_pod none = err (workload "pod not found")
  found_pod (some pod) = ok pod

  abbrev pub unwrap_or_zero : Option ℕ → ℕ
  unwrap_or_zero none = 0
  unwrap_or_zero (some handle) = handle

  abbrev without_probes : String → Option ProbeManager → Option ProbeManager
  without_probes pod_id none = none
  without_probes pod_id (some probes) = some (unregister_pod pod_id probes)

  -- The pod begins its eviction in place, and its probes are dropped.
  abbrev pub begin : String → Pod → WorkloadManager host → WorkloadManager host
  begin pod_id pod m = record m {
    pods = HashMap.insert pod_id (begin_eviction pod) m.pods;
    probes = without_probes pod_id m.probes;
  }

  abbrev pub unattested : ℕ → WorkloadManager host → WorkloadManager host
  unattested handle m = record m { attestation = unregistered_at host handle m.attestation }

  -- The stop of a machine that is known: a failure ends the eviction.
  abbrev pub after_stop : Away → ℕ → Result (Unit {0}) → Exec (WorkloadManager host) (Unit {0})
  after_stop away handle (err e) m = (err e, m)
  after_stop away handle (ok u) m = (
    ok tt,
    unattested handle (record m { net_guard = disarmed host away.gate_cleared handle m.net_guard }),
  )

  abbrev pub stop_machine : Away → ℕ → Option hypervisor.Vm → Exec (WorkloadManager host) (Unit {0})
  stop_machine away handle none m = (ok tt, unattested handle m)
  stop_machine away handle (some vm) m =
      after_stop away handle (stop fs hypervisor vm).0
        (record m { microvms = HashMap.remove handle m.microvms })

  abbrev pub stop_runtime : Away → RuntimeKind → ℕ → Exec (WorkloadManager host) (Unit {0})
  stop_runtime away containerd handle m = (away.containerd_stop, m)
  stop_runtime away cloud_hypervisor handle m =
      stop_machine away handle (HashMap.lookup handle m.microvms) m

  abbrev namespaces_after : Away → RuntimeKind → String → List String → List String
  namespaces_after away containerd pod_id namespaces =
      if away.netns_deleted then HashSet.remove pod_id namespaces else namespaces
  namespaces_after away cloud_hypervisor pod_id namespaces = namespaces

  -- What is given back where the pod's address was recorded.
  abbrev pub give_back :
      Away → RuntimeKind → String → Option ℕ → WorkloadManager host → WorkloadManager host
  give_back away runtime pod_id none m = m
  give_back away runtime pod_id (some src_ip) m = release_p2p_pair host pod_id (record m {
    src_identity = unregistered host src_ip m.src_identity;
    namespaces = namespaces_after away runtime pod_id m.namespaces;
  })

  abbrev pub forget_address :
      Away → RuntimeKind → String → WorkloadManager host → WorkloadManager host
  forget_address away runtime pod_id m =
      give_back away runtime pod_id (HashMap.lookup pod_id m.pod_source_ips)
        (record m { pod_source_ips = HashMap.remove pod_id m.pod_source_ips })

  abbrev torn_down :
      WorkloadManager host → Result (Unit {0}) × fs.Disk → Result (Unit {0}) × WorkloadManager host
  torn_down m (r, disk) = (r, record m { disk = disk })

  abbrev pub teardown : String → Exec (WorkloadManager host) (Unit {0})
  teardown pod_id m = torn_down m (teardown_pod_scratch fs m.volume_config pod_id m.disk)

  abbrev pub remove_record : String → WorkloadManager host → WorkloadManager host
  remove_record pod_id m = record m { pods = HashMap.remove pod_id m.pods }

  -- The steps after the stop.
  unfoldable pub finish_eviction :
      Away → RuntimeKind → String → Exec (WorkloadManager host) (Unit {0})
  finish_eviction away runtime pod_id = do
    change host (forget_address away runtime pod_id)
    teardown pod_id
    change host (remove_record pod_id)

  unfoldable pub evict_known : Away → String → Pod → Exec (WorkloadManager host) (Unit {0})
  evict_known away pod_id pod = do
    change host (begin pod_id pod)
    stop_runtime away pod.runtime (unwrap_or_zero pod.pid)
    finish_eviction away pod.runtime pod_id

  abbrev pub evict_found : Away → String → Result Pod → Exec (WorkloadManager host) (Unit {0})
  evict_found away pod_id (err e) m = (err e, m)
  evict_found away pod_id (ok pod) m = evict_known away pod_id pod m

  unfoldable pub evict_pod : Away → String → Exec (WorkloadManager host) (Unit {0})
  evict_pod away pod_id m = evict_found away pod_id (found_pod (HashMap.lookup pod_id m.pods)) m

  abbrev resized :
      ℕ
      → WorkloadManager host
      → Result (Unit {0}) × hypervisor.Vm
      → Result (Unit {0}) × WorkloadManager host
  resized cid m (r, vm) = (r, record m { microvms = HashMap.insert cid vm m.microvms })

  abbrev resize_found : ℕ → ℕ → ℕ → Option hypervisor.Vm → Exec (WorkloadManager host) (Unit {0})
  resize_found cid vcpus memory_mb none m = (err (workload "no MicroVM for cid"), m)
  resize_found cid vcpus memory_mb (some vm) m =
      resized cid m (resize fs hypervisor vcpus memory_mb vm)

  unfoldable pub resize_microvm : ℕ → ℕ → ℕ → Exec (WorkloadManager host) (Unit {0})
  resize_microvm cid vcpus memory_mb m =
      resize_found cid vcpus memory_mb (HashMap.lookup cid m.microvms) m

  -- Failures are logged, and the loop goes on. What is found outside depends on the pod or the workload.
  unfoldable pub evict_all :
      (String → Away) → List String → WorkloadManager host → WorkloadManager host
  evict_all away [] m = m
  evict_all away (pod_id ∷ pod_ids) m = evict_all away pod_ids (evict_pod (away pod_id) pod_id m).1

  unfoldable pub boot_all :
      (WorkloadSpec → Outside host)
      → List WorkloadSpec
      → WorkloadManager host
      → WorkloadManager host
  boot_all out [] m = m
  boot_all out (spec ∷ specs) m = boot_all out specs (boot_pod host (out spec) spec m).1

  unfoldable pub reconcile :
      (String → Away)
      → (WorkloadSpec → Outside host)
      → List WorkloadSpec
      → WorkloadManager host
      → WorkloadManager host
  reconcile away out desired m =
      let result = Reconciler.reconcile desired m.pods in
      boot_all out result.to_boot (evict_all away result.to_evict m)
