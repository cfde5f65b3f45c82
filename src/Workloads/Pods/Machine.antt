-- ===== src/Workloads/Pods/Machine.antt =====
-- The guarded transitions of src/workloads/pod_manager.rs. The boot of a pod and the probe loop set
-- states past these guards.
use fleetos_agent.Prelude.{ℕ, ◌≤◌, true, ◌≡◌, arith}
use fleetos_agent.Workloads.Pods.{
  Pod, PodState, pending, booting, running, terminating, stopped, is_running, is_ready,
  try_transition_to_running, start_terminating, finish_terminating, begin_eviction,
  increment_restart, touch_status, mark_started, mark_policy_enforced, mark_router_connected,
}

-- The order of the states along the machine.
abbrev pub rank : PodState → ℕ
rank pending = 0
rank booting = 1
rank running = 2
rank terminating = 3
rank stopped = 4

-- What the methods of a pod do to it, all but `transition_to`, which sets any state.
pub data Method : Pod → Pod → Type 0 where
  starts : (p : Pod) → Method p (mark_started p)
  enforces : (p : Pod) → Method p (mark_policy_enforced p)
  connects : (p : Pod) → Method p (mark_router_connected p)
  tries : (p : Pod) → Method p (try_transition_to_running p).0
  terminates : (p : Pod) → Method p (start_terminating p)
  finishes : (p : Pod) → Method p (finish_terminating p)
  evicts : (p : Pod) → Method p (begin_eviction p)
  restarts : (p : Pod) → Method p (increment_restart p)
  touches : (p : Pod) (now : ℕ) → Method p (touch_status now p)

pub data Methods (p : Pod) : Pod → Type 0 where
  here : Methods p p
  next : {q r : Pod} → Methods p q → Method q r → Methods p r

-- A running pod has passed the gate.
abbrev pub IsGated : Pod → Type 0
IsGated p = is_running p.state ≡ true → is_ready p ≡ true

Method-rank : {p q : Pod} → Method p q → rank p.state ≤ rank q.state
unfolding try_transition_to_running start_terminating finish_terminating begin_eviction
Method-rank (starts p) = omega arith
Method-rank (enforces p) = omega arith
Method-rank (connects p) = omega arith
Method-rank (tries p) = ground arith
Method-rank (terminates p) = ground arith
Method-rank (finishes p) = ground arith
Method-rank (evicts p) = ground arith
Method-rank (restarts p) = omega arith
Method-rank (touches p now) = omega arith

Method-IsGated : {p q : Pod} → Method p q → IsGated p → IsGated q
unfolding try_transition_to_running start_terminating finish_terminating begin_eviction is_ready
Method-IsGated (starts p) g = ground arith
Method-IsGated (enforces p) g = ground arith
Method-IsGated (connects p) g = ground arith
Method-IsGated (tries p) g = ground arith
Method-IsGated (terminates p) g = ground arith
Method-IsGated (finishes p) g = ground arith
Method-IsGated (evicts p) g = ground arith
Method-IsGated (restarts p) g = ground arith
Method-IsGated (touches p now) g = ground arith

-- Through every sequence of a pod's methods other than `transition_to`, the state never moves backwards,
-- and a pod is running only with the three conditions of the gate met, provided that it was so at
-- the start.
pub Methods-safe : {p q : Pod} → Methods p q → IsGated p → (rank p.state ≤ rank q.state) × IsGated q
Methods-safe here g = (omega arith, g)
Methods-safe (next ms m) g =
    let (r, g') = Methods-safe ms g in (omega (arith, Method-rank m), Method-IsGated m g')
