-- ===== src/Workloads/ProbeLoop.antt =====
-- src/workloads/probe_loop.rs: what the result of a probe tick does to a pod, and the events that it
-- emits.
pub mod Restarts
pub mod Events
use fleetos_agent.Prelude.{
  ℕ, String, Bool, true, false, not, ◌&&◌, ◌||◌, Option, none, some, List, [], ◌∷◌, leb,
  if◌then◌else◌,
}
use fleetos_agent.Collections.Key.{string_key}
use fleetos_agent.Collections.HashMap
use fleetos_agent.Workloads.Pods.{
  Pod, PodManager, PodState, booting, running, is_booting, is_running, transition_to,
  increment_restart, restart_policy, RestartPolicy, always, on_failure, never,
}

pub record ProbeTickResult : Type 0 where
  pub pod_id : String
  pub live : Bool
  pub ready : Bool
  pub all_probes_passing : Bool
  pub probe_failed : Bool

pub record ProbeLoopConfig : Type 0 where
  pub probe_interval_secs : ℕ
  pub max_restart_attempts : ℕ

abbrev pub default_config : ProbeLoopConfig
default_config = record { probe_interval_secs = 10; max_restart_attempts = 3 }

-- The events that a result emits.
pub record Emits : Type 0 where
  pub emit_probe_failed : Bool
  pub emit_started : Bool
  pub emit_back_off : Bool

abbrev pub nothing : Emits
nothing = record { emit_probe_failed = false; emit_started = false; emit_back_off = false }

unfoldable pub observe : ProbeTickResult → Pod → Pod
observe r p = record p {
  probe_live = r.live;
  probe_ready = r.ready;
  probe_ever_passed = r.all_probes_passing || p.probe_ever_passed;
}

unfoldable pub report_failure : ProbeTickResult → Pod → Pod × Bool
report_failure r p =
    if r.probe_failed && p.probe_ever_passed && not p.probe_failure_reported
    then (record p { probe_failure_reported = true }, true)
    else if not r.probe_failed
    then (record p { probe_failure_reported = false }, false)
    else (p, false)

unfoldable pub start_running : ProbeTickResult → Pod → Pod × Bool
start_running r p =
    if is_booting p.state && r.all_probes_passing
    then (transition_to running p, true)
    else (p, false)

-- The pod after a liveness failure, and whether it is a back-off.
unfoldable pub restart : RestartPolicy → ℕ → Pod → Pod × Bool
restart never max p = (record p { probe_live = false }, false)
restart _ max p = if leb max p.restart_count then (record p { probe_live = false }, true) else (
  record (transition_to booting (increment_restart p)) { probe_failure_reported = false },
  false,
)

unfoldable pub handle_liveness : ProbeLoopConfig → ProbeTickResult → Bool → Pod → Pod × Bool
unfolding restart
handle_liveness config r was_running p =
    if was_running && not r.live
    then restart (restart_policy p) config.max_restart_attempts p
    else (p, false)

unfoldable pub process_pod : ProbeLoopConfig → ProbeTickResult → Pod → Pod × Emits
unfolding observe report_failure start_running handle_liveness
process_pod config r p =
    let failure = report_failure r (observe r p) in
    let start = start_running r failure.0 in
    let restarted = handle_liveness config r (is_running p.state) start.0 in
    (
      restarted.0,
      record { emit_probe_failed = failure.1; emit_started = start.1; emit_back_off = restarted.1 },
    )

-- A result for a pod that is gone does nothing.
unfoldable pub process_probe_result :
    ProbeLoopConfig → ProbeTickResult → PodManager → PodManager × Emits
process_probe_result config r pods = elim (HashMap.lookup r.pod_id pods) [
  | none ↦ (pods, nothing)
  | some pod ↦
      (HashMap.insert r.pod_id (process_pod config r pod).0 pods, (process_pod config r pod).1)
]

-- The results of the ticks for one pod, in order: the pod that they leave, and the events of each.
unfoldable pub process_all : ProbeLoopConfig → List ProbeTickResult → Pod → Pod × List Emits
process_all config [] p = (p, [])
process_all config (r ∷ rs) p =
    let first = process_pod config r p in
    let rest = process_all config rs first.0 in (rest.0, first.1 ∷ rest.1)
