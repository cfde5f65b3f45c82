-- ===== src/Wiring.antt =====
-- src/wiring.rs: what the agent does with each frame of the watch streams. The clients' streams are the
-- sequences of the frames; the kernel's maps and the file system are parameters.
pub mod Routes
pub mod Policies
pub mod Secrets
pub mod Connected
pub mod Rotations
use fleetos_agent.Prelude.{
  ℕ, String, Bool, true, false, not, Option, none, some, List, [], ◌∷◌, map, ◌==◌, if◌then◌else◌,
}
use fleetos_agent.Errors.{Result, ok, err}
use fleetos_agent.Core.{Core}
use fleetos_agent.Collections.Key.{string_key}
use fleetos_agent.Collections.HashSet.{contains}
use fleetos_agent.Routes.Table.{RouteEntry}
use fleetos_agent.Workloads.Pods.{Pod, PodManager, mark_policy_enforced}
use fleetos_agent.Workloads.Reconciler.{WorkloadSpec, WorkloadAssignment, from_assignment}

-- The routes whose sources include the workload.
unfoldable pub my_routes : String → List RouteEntry → List RouteEntry
my_routes id [] = []
my_routes id (r ∷ routes) =
    let rest = my_routes id routes in if contains id r.source_spiffe_ids then r ∷ rest else rest

unfoldable pub all_routed : List RouteEntry → Bool
all_routed [] = true
all_routed (r ∷ routes) = if r.dummy_ip == 0 then false else all_routed routes

abbrev pub connected_by : List RouteEntry → Bool
connected_by [] = true
connected_by (r ∷ routes) = all_routed (r ∷ routes)

module _ (core : Core) where
  abbrev pub pod_id_text : String → Pod → String
  pod_id_text trust_domain pod =
      core.to_text (core.new_sa trust_domain pod.tenant_id pod.workload_id)

  unfoldable pub reevaluate_router_connected : List RouteEntry → String → PodManager → PodManager
  reevaluate_router_connected routes trust_domain [] = []
  reevaluate_router_connected routes trust_domain ((key, pod) ∷ pods) =
      (
        key,
        record pod {
          router_connected = connected_by (my_routes (pod_id_text trust_domain pod) routes);
        },
      )
      ∷ reevaluate_router_connected routes trust_domain pods

unfoldable pub mark_all_pods_policy_enforced : PodManager → PodManager
mark_all_pods_policy_enforced [] = []
mark_all_pods_policy_enforced ((key, pod) ∷ pods) =
    (key, mark_policy_enforced pod) ∷ mark_all_pods_policy_enforced pods

-- The specs of a frame: assignments with an unknown runtime are skipped.
unfoldable pub specs_of : List WorkloadAssignment → List WorkloadSpec
specs_of [] = []
specs_of (a ∷ assignments) =
    let rest = specs_of assignments in
    elim (from_assignment a) [ ok spec ↦ spec ∷ rest | err e ↦ rest ]
