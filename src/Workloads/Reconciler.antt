-- ===== src/Workloads/Reconciler.antt =====
-- src/workloads/reconciler.rs: the difference between the desired workloads and the pods of the node.
pub mod Diff
use fleetos_agent.Prelude.{
  ℕ, String, Bool, true, false, not, ◌&&◌, Option, none, some, List, [], ◌∷◌, map, if◌then◌else◌,
}
use fleetos_agent.Errors.{AgentError, workload, Result, ok, err}
use fleetos_agent.Collections.Key.{string_key}
use fleetos_agent.Collections.HashSet.{contains}
use fleetos_agent.Workloads.Messages.{PodSpec}
use fleetos_agent.Workloads.Pods.{
  Pod, PodManager, RuntimeKind, containerd, cloud_hypervisor, is_active,
}
use text.Mathlib.Text.{◌==◌ as str_eq}

pub record WorkloadSpec : Type 0 where
  pub workload_id : String
  pub runtime : RuntimeKind
  pub image : String
  pub role : String
  pub pod_spec : Option PodSpec
  pub hostname : String

pub record WorkloadAssignment : Type 0 where
  pub workload_id : String
  pub runtime : String
  pub image : String
  pub role : String
  pub pod_spec : Option PodSpec
  pub hostname : String

unfoldable pub runtime_of : String → Result RuntimeKind
runtime_of value =
    if str_eq value "containerd"
    then ok containerd
    else if str_eq value "cloud-hypervisor"
    then ok cloud_hypervisor
    else if str_eq value "cloud_hypervisor"
    then ok cloud_hypervisor
    else err (workload "unknown runtime")

unfoldable pub from_assignment : WorkloadAssignment → Result WorkloadSpec
unfolding runtime_of
from_assignment a = elim (runtime_of a.runtime) [
  | err e ↦ err e
  | ok runtime ↦ ok (record {
    workload_id = a.workload_id;
    runtime = runtime;
    image = a.image;
    role = a.role;
    pod_spec = a.pod_spec;
    hostname = a.hostname;
  })
]

pub record ReconcileResult : Type 0 where
  pub to_boot : List WorkloadSpec
  pub to_evict : List String

-- The workloads of the pods that are neither terminating nor stopped.
unfoldable pub running_ids : PodManager → List String
running_ids [] = []
running_ids ((pod_id, pod) ∷ pods) =
    if is_active pod.state then pod.workload_id ∷ running_ids pods else running_ids pods

abbrev pub desired_ids : List WorkloadSpec → List String
desired_ids = map (λ w. w.workload_id)

unfoldable pub boot_list : List String → List WorkloadSpec → List WorkloadSpec
boot_list running [] = []
boot_list running (spec ∷ specs) =
    if not (contains spec.workload_id running)
    then spec ∷ boot_list running specs
    else boot_list running specs

unfoldable pub evict_list : List String → PodManager → List String
evict_list desired [] = []
evict_list desired ((key, pod) ∷ pods) =
    if is_active pod.state && not (contains pod.workload_id desired)
    then pod.pod_id ∷ evict_list desired pods
    else evict_list desired pods

unfoldable pub reconcile : List WorkloadSpec → PodManager → ReconcileResult
unfolding running_ids boot_list evict_list
reconcile desired running = record {
  to_boot = boot_list (running_ids running) desired;
  to_evict = evict_list (desired_ids desired) running;
}

abbrev pub no_entry {ℓ} : {A : Type ℓ} → List A → Bool
no_entry [] = true
no_entry (x ∷ xs) = false

abbrev pub is_empty : ReconcileResult → Bool
is_empty r = no_entry r.to_boot && no_entry r.to_evict
