-- ===== src/Examples/Workloads.antt =====
-- Pods, probes and reconciliation at concrete inputs.
use fleetos_agent.Prelude.{
  ℕ, ◌≤◌, Bool, true, false, not, ◌&&◌, none, some, List, [], ◌∷◌, ◌++◌, ◌≡◌, refl, arith,
}
use fleetos_agent.Collections.Key.{string_key}
use fleetos_agent.Collections.HashSet.{contains}
use fleetos_agent.Workloads.Pods.{
  Pod, PodManager, pending, booting, containerd, transition_to, mark_started,
  try_transition_to_running,
}
use fleetos_agent.Workloads.Pods.Machine.{starts, tries, here, next, IsGated, rank, Methods-safe}
use fleetos_agent.Workloads.ProbeLoop.{ProbeTickResult, default_config, process_all}
use fleetos_agent.Workloads.ProbeLoop.Restarts.{restarts_bounded}
use fleetos_agent.Workloads.Probes.{Probe, tcp_socket}
use fleetos_agent.Workloads.Probes.Runner.{Follows, run-Follows}
use fleetos_agent.Workloads.Reconciler.{WorkloadSpec, reconcile, running_ids, desired_ids}
use fleetos_agent.Workloads.Reconciler.Diff.{has_id, after_evictions, reconcile_converges}

abbrev pod : Pod
pod = record {
  pod_id = "p";
  workload_id = "w";
  tenant_id = "t";
  role = "web";
  runtime = containerd;
  state = pending;
  started = false;
  policy_enforced = false;
  router_connected = false;
  restart_count = 0;
  created_at_unix = 100;
  last_status_at_unix = 0;
  pid = none;
  vsock_cid = none;
  fingerprint = 1 ∷ [];
  probe_ready = false;
  probe_live = false;
  probe_failure_reported = false;
  probe_ever_passed = false;
}

abbrev booted : Pod
booted = transition_to booting pod

Methods-safe_example :
    (rank booted.state ≤ rank (try_transition_to_running (mark_started booted)).0.state)
    × IsGated (try_transition_to_running (mark_started booted)).0
Methods-safe_example =
    Methods-safe (next (next here (starts booted)) (tries (mark_started booted)))
      (λ h. absurd (cc h))

abbrev passing : ProbeTickResult
passing = record {
  pod_id = "p";
  live = true;
  ready = true;
  all_probes_passing = true;
  probe_failed = false;
}

abbrev dead : ProbeTickResult
dead = record {
  pod_id = "p";
  live = false;
  ready = false;
  all_probes_passing = false;
  probe_failed = true;
}

abbrev flapping : List ProbeTickResult
flapping = passing ∷ dead ∷ passing ∷ dead ∷ passing ∷ dead ∷ passing ∷ dead ∷ []

restarts_bounded_example :
    (0 ≤ (process_all default_config flapping booted).0.restart_count)
    × ((process_all default_config flapping booted).0.restart_count ≤ 3)
restarts_bounded_example =
    restarts_bounded default_config flapping booted (omega arith) (omega arith)

abbrev tcp : Probe
tcp = record {
  check = some (tcp_socket 80);
  initial_delay_seconds = 0;
  period_seconds = 5;
  timeout_seconds = 1;
  success_threshold = 0;
  failure_threshold = 3;
}

abbrev history : List (ℕ × Bool)
history = (115, false) ∷ (110, false) ∷ (105, true) ∷ []

run-Follows_example : Follows tcp 100 history
run-Follows_example = run-Follows tcp 100 history (omega arith)

abbrev spec : WorkloadSpec
spec = record {
  workload_id = "w";
  runtime = containerd;
  image = "i";
  role = "web";
  pod_spec = none;
  hostname = "h";
}

abbrev pods : PodManager
pods = ("p", booted) ∷ []

reconcile_converges_example :
    let result = reconcile (spec ∷ []) pods in
    (contains "x" (desired_ids result.to_boot)
      ≡ (contains "x" (desired_ids (spec ∷ [])) && not (contains "x" (running_ids pods))))
    × (contains "x" (running_ids (after_evictions result.to_evict pods))
        ≡ (contains "x" (running_ids pods) && contains "x" (desired_ids (spec ∷ []))))
    × (contains "x"
          (running_ids (after_evictions result.to_evict pods) ++ desired_ids result.to_boot)
        ≡ contains "x" (desired_ids (spec ∷ [])))
unfolding has_id
reconcile_converges_example = reconcile_converges (spec ∷ []) pods "x" (refl, tt)
