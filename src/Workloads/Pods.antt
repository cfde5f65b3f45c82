-- ===== src/Workloads/Pods.antt =====
-- src/workloads/pod_manager.rs: pods, their state machine, and the pods of the node. The clock is an
-- argument of the operations that read it.
pub mod Machine
use fleetos_agent.Prelude.{
  ℕ, ◌+◌, ◌%◌, ◌^◌, String, Bool, true, false, ◌&&◌, Option, none, some, List, [], ◌∷◌, Bytes,
  if◌then◌else◌, not,
}
use fleetos_agent.Collections.Key.{string_key}
use fleetos_agent.Collections.HashMap

pub data RuntimeKind : Type 0 where
  containerd cloud_hypervisor : RuntimeKind

pub data PodState : Type 0 where
  pending booting running terminating stopped : PodState

pub data RestartPolicy : Type 0 where
  always on_failure never : RestartPolicy

abbrev pub is_booting : PodState → Bool
is_booting booting = true
is_booting _ = false

abbrev pub is_running : PodState → Bool
is_running running = true
is_running _ = false

abbrev pub is_terminating : PodState → Bool
is_terminating terminating = true
is_terminating _ = false

-- Neither terminating nor stopped.
abbrev pub is_active : PodState → Bool
is_active terminating = false
is_active stopped = false
is_active _ = true

pub record Pod : Type 0 where
  pub pod_id : String
  pub workload_id : String
  pub tenant_id : String
  pub role : String
  pub runtime : RuntimeKind
  pub state : PodState
  pub started : Bool
  pub policy_enforced : Bool
  pub router_connected : Bool
  pub restart_count : ℕ
  pub created_at_unix : ℕ
  pub last_status_at_unix : ℕ
  pub pid : Option ℕ
  pub vsock_cid : Option ℕ
  pub fingerprint : Bytes
  pub probe_ready : Bool
  pub probe_live : Bool
  pub probe_failure_reported : Bool
  pub probe_ever_passed : Bool

unfoldable pub new_pod : String → String → String → String → RuntimeKind → Bytes → ℕ → Pod
new_pod pod_id workload_id tenant_id role runtime fingerprint now = record {
  pod_id = pod_id;
  workload_id = workload_id;
  tenant_id = tenant_id;
  role = role;
  runtime = runtime;
  state = pending;
  started = false;
  policy_enforced = false;
  router_connected = false;
  restart_count = 0;
  created_at_unix = now;
  last_status_at_unix = 0;
  pid = none;
  vsock_cid = none;
  fingerprint = fingerprint;
  probe_ready = false;
  probe_live = false;
  probe_failure_reported = false;
  probe_ever_passed = false;
}

unfoldable pub is_ready : Pod → Bool
is_ready p = is_running p.state && p.started && p.policy_enforced && p.router_connected

abbrev pub live_state : PodState → Bool
live_state running = true
live_state booting = true
live_state _ = false

unfoldable pub is_live : Pod → Bool
is_live p = live_state p.state

abbrev pub transition_to : PodState → Pod → Pod
transition_to new_state p = record p { state = new_state }

abbrev pub mark_started : Pod → Pod
mark_started p = record p { started = true }

abbrev pub mark_policy_enforced : Pod → Pod
mark_policy_enforced p = record p { policy_enforced = true }

abbrev pub mark_router_connected : Pod → Pod
mark_router_connected p = record p { router_connected = true }

-- A `u32` counter, which wraps in a release build.
abbrev pub increment_restart : Pod → Pod
increment_restart p = record p { restart_count = (p.restart_count + 1) % 2 ^ 32 }

abbrev pub touch_status : ℕ → Pod → Pod
touch_status now p = record p { last_status_at_unix = now }

abbrev pub restart_policy : Pod → RestartPolicy
restart_policy p = always

unfoldable pub can_transition_to_running : Pod → Bool
can_transition_to_running p = p.started && p.policy_enforced && p.router_connected

unfoldable pub try_transition_to_running : Pod → Pod × Bool
unfolding can_transition_to_running
try_transition_to_running p =
    if is_booting p.state && can_transition_to_running p
    then (transition_to running p, true)
    else (p, false)

unfoldable pub start_terminating : Pod → Pod
start_terminating p = if is_running p.state then transition_to terminating p else p

unfoldable pub finish_terminating : Pod → Pod
finish_terminating p = if is_terminating p.state then transition_to stopped p else p

unfoldable pub begin_eviction : Pod → Pod
begin_eviction p = if is_active p.state then transition_to terminating p else p

-- The pods of the node, by their IDs.
abbrev pub PodManager : Type 0
PodManager = List (String × Pod)

abbrev pub add_pod : Pod → PodManager → PodManager
add_pod pod pods = HashMap.insert pod.pod_id pod pods

abbrev pub get_pod : String → PodManager → Option Pod
get_pod pod_id pods = HashMap.lookup pod_id pods

-- `get_pod_mut`, with the change that is made through it.
unfoldable pub change_pod : String → (Pod → Pod) → PodManager → PodManager
change_pod pod_id f pods = elim (HashMap.lookup pod_id pods) [
  | none ↦ pods
  | some pod ↦ HashMap.insert pod_id (f pod) pods
]

abbrev pub remove_pod : String → PodManager → PodManager
remove_pod pod_id pods = HashMap.remove pod_id pods
